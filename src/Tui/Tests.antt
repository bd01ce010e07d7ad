-- ===== src/Tui/Tests.antt =====
-- tui/src/utils.ts at concrete inputs.
use mesh_talk.Common.{
  ℕ, ◌+◌, ◌/◌, ◌≡◌, refl, true, none, some, List, [], ◌∷◌, ◌++◌, codes, Text, get_elem?, text_beq,
  Option, false, nat_beq, nat_eq, ◌&&◌, keep, All, arith,
}
use mathlib.Core.List.{Perm}
use mesh_talk.Common.Dict.{Dict, get, delete}
use mesh_talk.Tui.Peers.{
  Peer, is_mute_active, FriendRequest, incoming, is_other, inline_friend_actions, addable_peers,
}
use mesh_talk.Tui.Peers.Friendship.{offers_add, addable_peers-perm}
use mesh_talk.Tui.Deliveries.{
  GroupDelivery, group_delivery_label, statuses_of, count_status, known_of, details_of, separator,
  is_delivered,
}
use mesh_talk.Tui.Deliveries.Counts.{total, details_of-total}
use mesh_talk.Tui.Retention.{update_bounded_entry}
use mesh_talk.Tui.Retention.Bounds.{IsUpdated, update_bounded_entry-IsUpdated}
use mesh_talk.Tui.TerminalText.{terminal_text}
use mesh_talk.Tui.TerminalText.Safety.{IsShowable, terminal_text-IsShowable}
use mesh_talk.Tui.Dialogs.{
  answer_leave_group, show_dialog, Dialog, DialogState, debug, debug_peer, rooms, friends,
  mute_timeout, begin_dialog_action, loaded, answer_load,
}
use mesh_talk.Tui.Dialogs.Answers.{change, change_all, beginning, showing, answer_load_stale}
use mesh_talk.Tui.Navigation.{Replies, back}
use mesh_talk.Tui.Navigation.Back.{back_closes}
use mesh_talk.Tui.Commands.{CommandDependencies, shows, run_command}
use mesh_talk.Tui.Grouping.{
  ConversationItem, message, full_header, compact_row, compute_render_types, grouping_is_reply,
  grouping_is_system,
}
use mesh_talk.Tui.Grouping.Headers.{HasHeader, compute_render_types-HasHeader}
use mesh_talk.Tui.Width.Clipping.{IsClipped, clip_text_to_width-IsClipped}
use mesh_talk.Tui.Width.{is_pair, clip_text_to_width}

abbrev days : ℕ → Text
days t = (t / 86400) ∷ []

abbrev says : Text → ℕ → ConversationItem
says sender t = record {
  created_at = t;
  content = message (record { sender_id = sender; reply_to_message_id = none; kind = none });
}

abbrev talk : List ConversationItem
talk =
    says (codes "a") 1000
    ∷ says (codes "a") 1400
    ∷ says (codes "a") 1500
    ∷ says (codes "b") 1501
    ∷ []

-- the third message is too late for the group of the first
talk_rows :
    compute_render_types days true talk ≡ full_header ∷ compact_row ∷ full_header ∷ full_header ∷ []
unfolding compute_render_types text_beq grouping_is_reply grouping_is_system
talk_rows = refl

compute_render_types-HasHeader_example :
    HasHeader days true talk (compute_render_types days true talk) 1 (says (codes "a") 1400)
unfolding compute_render_types get_elem? text_beq grouping_is_reply grouping_is_system
compute_render_types-HasHeader_example =
    compute_render_types-HasHeader days true talk 1 (says (codes "a") 1400) refl refl

-- a wide character that no longer fits is left out
clip_wide : clip_text_to_width (0x61 ∷ 0x4e2d ∷ 0x62 ∷ []) 2 ≡ 0x61 ∷ []
unfolding clip_text_to_width is_pair
clip_wide = refl

clip_text_to_width-IsClipped_example :
    IsClipped (0x61 ∷ 0xd83d ∷ 0xde00 ∷ []) 2 (clip_text_to_width (0x61 ∷ 0xd83d ∷ 0xde00 ∷ []) 2)
clip_text_to_width-IsClipped_example = clip_text_to_width-IsClipped (0x61 ∷ 0xd83d ∷ 0xde00 ∷ []) 2

abbrev peer : Text → Option FriendRequest → Peer
peer id request = record {
  peer_id = id;
  display_name = id;
  is_online = 1;
  last_interaction = 0;
  presence = none;
  is_friend = false;
  is_blocked = false;
  friend_request = request;
  active_transport = none;
}

addable_peers-perm_example :
    Perm
      (addable_peers
        (λ a b. false)
        (some (codes "me"))
        (peer (codes "me") none ∷ peer (codes "a") (some incoming) ∷ peer (codes "b") none ∷ []))
      (keep
        (λ p. is_other (some (codes "me")) p.peer_id && offers_add (inline_friend_actions p))
        (peer (codes "me") none ∷ peer (codes "a") (some incoming) ∷ peer (codes "b") none ∷ []))
addable_peers-perm_example =
    addable_peers-perm (λ a b. false) (some (codes "me"))
      (peer (codes "me") none ∷ peer (codes "a") (some incoming) ∷ peer (codes "b") none ∷ [])

-- the first two of four deliveries have arrived or failed; one status is unknown
abbrev four_deliveries : List GroupDelivery
four_deliveries =
    record { recipient_id = codes "a"; status = codes "completed" }
    ∷ record { recipient_id = codes "b"; status = codes "blocked" }
    ∷ record { recipient_id = codes "c"; status = codes "receiving" }
    ∷ record { recipient_id = codes "d"; status = codes "lost" }
    ∷ []

label_of_four :
    group_delivery_label four_deliveries
    ≡ codes "delivered 1/4"
      ++ separator
      ++ codes "failed 1"
      ++ separator
      ++ codes "pending 1"
      ++ separator
      ++ codes "other 1"
unfolding group_delivery_label text_beq known_of
label_of_four = refl

details_of-total_example :
    count_status is_delivered (statuses_of four_deliveries)
      + total (details_of (statuses_of four_deliveries))
    ≡ 4
details_of-total_example = details_of-total four_deliveries

abbrev two_entries : Dict Text ℕ
two_entries = (codes "a", 1) ∷ (codes "b", 2) ∷ []

-- the oldest entry makes room
updated_entries :
    update_bounded_entry nat_beq two_entries (codes "c") 3 2 ≡ (codes "b", 2) ∷ (codes "c", 3) ∷ []
unfolding update_bounded_entry get delete text_beq
updated_entries = refl

update_bounded_entry-IsUpdated_example :
    IsUpdated two_entries (codes "c") 3 2 (update_bounded_entry nat_beq two_entries (codes "c") 3 2)
update_bounded_entry-IsUpdated_example =
    update_bounded_entry-IsUpdated nat_beq (λ a b. (nat_eq.beq_iff a b).0) two_entries (codes "c") 3
      2 (omega arith) (omega arith)

-- an escape and a newline, without layout
encoded : terminal_text (0x1b ∷ b'[' ∷ 0x0a ∷ []) false ≡ codes "\\u001b[\\u000a"
unfolding terminal_text
encoded = refl

terminal_text-IsShowable_example :
    All (IsShowable true) (terminal_text (0x1b ∷ b'[' ∷ 0x0a ∷ []) true)
terminal_text-IsShowable_example = terminal_text-IsShowable (0x1b ∷ b'[' ∷ 0x0a ∷ []) true

abbrev replies : Replies
replies = record { config = codes "{}"; room_ids = []; blocked_ids = [] }

abbrev dialog_state : Dialog → DialogState
dialog_state d = record {
  dialog = some d;
  action = 4;
  busy_ref = false;
  busy = false;
  draft = codes "note";
  error = [];
}

back_closes_example :
    (back replies [] (back replies [] (back replies [] (dialog_state (debug_peer [] []))))).dialog
    ≡ none
back_closes_example = back_closes replies [] (dialog_state (debug_peer [] [])) refl refl

-- Twice is not enough for this one, and from the updater's token dialog one comes to that of
-- the updater, which stays.
back_twice :
    (back replies [] (back replies [] (dialog_state (debug_peer [] [])))).dialog ≡ some debug
unfolding back
back_twice = refl

-- a group is left while another dialog is shown, which closes
abbrev left_group : DialogState
left_group =
    answer_leave_group 5 none (show_dialog friends (begin_dialog_action (dialog_state debug)).1)

leave_group_closes_other : left_group.dialog ≡ none
unfolding answer_leave_group show_dialog begin_dialog_action
leave_group_closes_other = refl

answer_load_stale_example :
    (begin_dialog_action (dialog_state debug)).0 ≡ some 5
    × (answer_load 5 (loaded (rooms [])) (
          change_all
            (beginning ∷ [])
            (change (showing friends) (change_all [] (begin_dialog_action (dialog_state debug)).1)))
        ≡ change_all
            (beginning ∷ [])
            (change (showing friends) (change_all [] (begin_dialog_action (dialog_state debug)).1)))
answer_load_stale_example =
    answer_load_stale (dialog_state debug) [] (beginning ∷ []) (showing friends) (loaded (rooms []))
      refl refl

abbrev dependencies : CommandDependencies
dependencies = record {
  groups = [];
  group_members = [];
  identity = some (record { peer_id = codes "me"; display_name = codes "Me" });
  muted_peers = [];
  muted_groups = [];
  peers = peer (codes "a") (some incoming) ∷ [];
  selected_group_id = none;
  selected_peer_id = some (codes "a");
  selection = none;
  has_files_settings = true;
  has_friends_inbox = false;
  now = 100;
}

mute_selected :
    run_command (codes "mute") dependencies
    ≡ shows (mute_timeout (some (codes "a")) none (codes "a")) ∷ []
unfolding run_command text_beq is_mute_active
mute_selected = refl
