-- ===== src/Tui/Commands.antt =====
-- tui/src/navigation.ts: the commands (`runCommand`). `now` is the clock in seconds, and the
-- mutes are given by the ids of the peers and groups.
pub mod Allowed
use mesh_talk.Common.{
  ℕ, Bool, true, false, not, ◌&&◌, ◌||◌, Option, none, some, List, [], ◌∷◌, ◌++◌, Text, codes,
  nat_beq, text_eq, is_given, ◌==◌, if◌then◌else◌,
}
use mesh_talk.Common.Int.{ℤ}
use mesh_talk.Common.Dict.{Dict, get, or_else}
use mesh_talk.Tui.Peers.{Peer, is_mute_active, has_outgoing}
use mesh_talk.Tui.Dialogs.{
  Dialog, control, rooms, group_detail, friends, notifications, accessibility, customisation,
  mute_timeout, unmute_confirm, add_friend, remove_friend, debug, file_send, file_list, about,
}

pub record Group : Type 0 where
  pub group_id : Text
  pub name : Text

pub record Identity : Type 0 where
  pub peer_id : Text
  pub display_name : Text

pub data Conversation : Type 0 where
  peer : Text → Conversation
  group : Text → Conversation

pub record CommandDependencies : Type 0 where
  pub groups : List Group
  pub group_members : Dict Text (List Text)
  pub identity : Option Identity
  pub muted_peers : Dict Text ℤ
  pub muted_groups : Dict Text ℤ
  pub peers : List Peer
  pub selected_group_id : Option Text
  pub selected_peer_id : Option Text
  pub selection : Option Conversation
  pub has_files_settings : Bool
  pub has_friends_inbox : Bool
  pub now : ℕ

pub data CommandEffect : Type 0 where
  shows : Dialog → CommandEffect
  says : Text → CommandEffect
  drafts : Text → CommandEffect
  errs : Text → CommandEffect
  names : Text → CommandEffect
  renames : CommandEffect
  loads_advanced_config : CommandEffect
  loads_debug_info : CommandEffect
  loads_files : CommandEffect
  loads_files_settings : CommandEffect
  loads_friend_requests : CommandEffect
  loads_group_details : Group → CommandEffect
  loads_rooms : CommandEffect
  opens_friends_inbox : CommandEffect

abbrev pub is_id : Text → Option Text → Bool
is_id id none = false
is_id id (some t) = id == t

unfoldable pub find_group : Option Text → List Group → Option Group
find_group id [] = none
find_group id (g ∷ gs) = if is_id g.group_id id then some g else find_group id gs

unfoldable pub find_peer : Option Text → List Peer → Option Peer
find_peer id [] = none
find_peer id (p ∷ ps) = if is_id p.peer_id id then some p else find_peer id ps

abbrev pub selects_group : Option Conversation → Bool
selects_group (some (group id)) = true
selects_group _ = false

abbrev pub own_name : Option Identity → Text
own_name none = []
own_name (some i) = i.display_name

abbrev pub is_own : Text → Option Identity → Bool
is_own id none = false
is_own id (some i) = id == i.peer_id

-- `command` is "mute" where `muting`, and "unmute" else
abbrev pub mute_word : Bool → Text
mute_word muting = if muting then codes "mute" else codes "unmute"

abbrev pub mute_found_group : CommandDependencies → Bool → Option Group → List CommandEffect
mute_found_group d muting none =
    says (codes "Select a group to " ++ mute_word muting ++ codes ".") ∷ []
mute_found_group d muting (some g) =
    let is_muted = is_mute_active (get g.group_id d.muted_groups) d.now in
    if muting && is_muted
    then says (g.name ++ codes " is already muted.") ∷ []
    else if not muting && not is_muted
    then says (g.name ++ codes " is not muted.") ∷ []
    else if muting
    then shows (mute_timeout none (some g.group_id) g.name) ∷ []
    else shows (unmute_confirm none (some g.group_id) g.name) ∷ []

abbrev pub mute_found_peer : CommandDependencies → Bool → Option Peer → List CommandEffect
mute_found_peer d muting none =
    says (codes "Select a peer to " ++ mute_word muting ++ codes ".") ∷ []
mute_found_peer d muting (some p) =
    let is_muted = is_mute_active (get p.peer_id d.muted_peers) d.now in
    if muting && is_own p.peer_id d.identity
    then says (codes "You cannot mute yourself.") ∷ []
    else if muting && nat_beq p.is_online 0
    then says (p.display_name ++ codes " is not online.") ∷ []
    else if muting && is_muted
    then says (p.display_name ++ codes " is already muted.") ∷ []
    else if not muting && not is_muted
    then says (p.display_name ++ codes " is not muted.") ∷ []
    else if muting
    then shows (mute_timeout (some p.peer_id) none p.display_name) ∷ []
    else shows (unmute_confirm (some p.peer_id) none p.display_name) ∷ []

unfoldable pub run_mute : CommandDependencies → Bool → List CommandEffect
unfolding find_group find_peer get is_mute_active
run_mute d muting =
    if selects_group d.selection
      || (not (is_given d.selected_peer_id) && is_given d.selected_group_id)
    then mute_found_group d muting (find_group d.selected_group_id d.groups)
    else mute_found_peer d muting (find_peer d.selected_peer_id d.peers)

-- `command` is "add-friend" where `adding`, and "remove-friend" else
abbrev pub befriend : Bool → Option Peer → List CommandEffect
befriend true none = says (codes "Select a peer to add as a friend.") ∷ []
befriend false none = says (codes "Select a friend to remove.") ∷ []
befriend true (some p) =
    if p.is_friend
    then says (p.display_name ++ codes " is already your friend.") ∷ []
    else if p.is_blocked
    then says (p.display_name ++ codes " is blocked. Unblock them in Settings > Friends > Block.")
      ∷ []
    else if has_outgoing p.friend_request
    then says (codes "Friend request to " ++ p.display_name ++ codes " is already pending.") ∷ []
    else drafts [] ∷ shows (add_friend p.peer_id p.display_name) ∷ []
befriend false (some p) =
    if not p.is_friend
    then says (p.display_name ++ codes " is not your friend.") ∷ []
    else shows (remove_friend p.peer_id p.display_name) ∷ []

abbrev pub show_group : CommandDependencies → Option Group → List CommandEffect
show_group d none = says (codes "Select a group first.") ∷ []
show_group d (some g) =
    shows (group_detail g.group_id (or_else (get g.group_id d.group_members) []))
    ∷ loads_group_details g
    ∷ []

abbrev pub send_file : Option Conversation → List CommandEffect
send_file none = says (codes "Select a peer or group before sending a file.") ∷ []
send_file (some c) = shows file_send ∷ []

-- a chain of `else if`: the effects of the first test that holds
abbrev pub first_of : List (Bool × List CommandEffect) → List CommandEffect
first_of [] = []
first_of ((test, effects) ∷ others) = let rest = first_of others in if test then effects else rest

abbrev pub commands : Text → CommandDependencies → List (Bool × List CommandEffect)
commands command d =
    (command == codes "control", shows (control false) ∷ [])
    ∷ (command == codes "rooms", shows (rooms []) ∷ loads_rooms ∷ [])
    ∷ (command == codes "group-details", show_group d (find_group d.selected_group_id d.groups))
    ∷ (
      command == codes "friends",
      (if d.has_friends_inbox then opens_friends_inbox ∷ [] else shows friends ∷ []),
    )
    ∷ (command == codes "notifications", shows notifications ∷ [])
    ∷ (command == codes "accessibility", shows accessibility ∷ [])
    ∷ (command == codes "customisation", shows customisation ∷ [])
    ∷ (command == codes "advanced", loads_advanced_config ∷ [])
    ∷ (
      command == codes "rename",
      renames ∷ names (own_name d.identity) ∷ drafts (own_name d.identity) ∷ errs [] ∷ [],
    )
    ∷ (command == codes "mute", run_mute d true)
    ∷ (command == codes "unmute", run_mute d false)
    ∷ (command == codes "add-friend", befriend true (find_peer d.selected_peer_id d.peers))
    ∷ (command == codes "remove-friend", befriend false (find_peer d.selected_peer_id d.peers))
    ∷ (command == codes "friend-requests", loads_friend_requests ∷ [])
    ∷ (command == codes "debug", shows debug ∷ loads_debug_info ∷ [])
    ∷ (command == codes "send-file", send_file d.selection)
    ∷ (
      command == codes "files",
      (if d.has_files_settings
          then loads_files_settings ∷ []
          else shows (file_list []) ∷ loads_files ∷ []),
    )
    ∷ (command == codes "about", shows about ∷ [])
    ∷ []

unfoldable pub run_command : Text → CommandDependencies → List CommandEffect
unfolding find_group find_peer get run_mute
run_command command d = first_of (commands command d)
