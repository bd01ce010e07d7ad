-- ===== src/Tui/Dialogs.antt =====
-- tui/src/types.ts: the dialogs; tui/src/useChatActions.ts: the dialog that is open, and the
-- actions that wait for an answer. What a dialog holds for its rendering only is one text, and the
-- things in the lists are their ids.
pub mod Answers
use mesh_talk.Common.{
  ℕ, ◌+◌, Bool, true, false, Option, none, some, List, [], Text, nat_beq, if◌then◌else◌,
}

pub data ReturnTo : Type 0 where
  files : ReturnTo
  file_confirm : ReturnTo

pub data Dialog : Type 0 where
  settings : Dialog
  control : Bool → Dialog
  control_custom : Bool → Dialog
  control_status : Text → Dialog
  advanced : Text → Dialog
  advanced_image_protocol : Text → Dialog
  advanced_ip_pinning : Text → Dialog
  advanced_control : Text → Dialog
  advanced_stun : Text → Dialog
  customisation : Dialog
  customisation_splash : Text → Dialog
  advanced_control_ip : Dialog
  advanced_stun_ip : Dialog
  rooms : List Text → Dialog
  room_create : Dialog
  room_join : Dialog
  room_created : Text → Dialog
  room_detail : Text → Dialog
  group_detail : Text → List Text → Dialog
  rename : Bool → Dialog
  mute_timeout : Option Text → Option Text → Text → Dialog
  unmute_confirm : Option Text → Option Text → Text → Dialog
  add_friend : Text → Text → Dialog
  remove_friend : Text → Text → Dialog
  friend_requests : List Text → Dialog
  friend_request_incoming : Text → Dialog
  friends : Dialog
  blocked : List Text → Dialog
  block_peer_pick : Dialog
  block_peer : Text → Text → Dialog
  cancel_friend_confirm : Text → Text → Dialog
  notifications : Dialog
  notification_enable : Bool → Dialog
  notification_confirm : Text → Bool → Dialog
  notification_fallback : Bool → Dialog
  notification_settings : Dialog
  notification_peer : Dialog
  accessibility : Dialog
  debug : Dialog
  debug_endpoints : Dialog
  debug_peer : Text → Text → Dialog
  file_send : Dialog
  confirm_files : Text → Dialog
  file_list : List Text → Dialog
  file_download : Text → Dialog
  image_view : Option ReturnTo → Option Text → Dialog
  delivery_details : List Text → Dialog
  files_dir : Text → Dialog
  storage_dir : Text → Dialog
  files_settings : Text → Dialog
  group_file_send : Dialog
  update : Text → Dialog
  update_directory : Text → Dialog
  update_token : Option Text → Dialog
  about : Dialog

pub record DialogState : Type 0 where
  pub dialog : Option Dialog
  pub action : ℕ
  pub busy_ref : Bool
  pub busy : Bool
  pub draft : Text
  pub error : Text

unfoldable pub close_dialog : DialogState → DialogState
close_dialog s = record {
  dialog = none;
  action = s.action + 1;
  busy_ref = false;
  busy = false;
  draft = [];
  error = [];
}

unfoldable pub show_dialog : Dialog → DialogState → DialogState
show_dialog next s = record {
  dialog = some next;
  action = s.action + 1;
  busy_ref = false;
  busy = false;
  draft = [];
  error = [];
}

-- `none` where another action is still waiting
unfoldable pub begin_dialog_action : DialogState → Option ℕ × DialogState
begin_dialog_action s = if s.busy_ref then (none, s) else (
  some (s.action + 1),
  record s { busy_ref = true; action = s.action + 1; busy = true; error = [] },
)

unfoldable pub finish_dialog_action : ℕ → DialogState → DialogState
finish_dialog_action action s =
    if nat_beq s.action action then record s { busy_ref = false; busy = false } else s

unfoldable pub fail_dialog_action : ℕ → Text → DialogState → DialogState
unfolding finish_dialog_action
fail_dialog_action action error s =
    if nat_beq s.action action then finish_dialog_action action (record s { error = error }) else s

-- the answer of the daemon: an error, or what the dialog is to show
pub data Answer : Type 0 where
  failed : Text → Answer
  loaded : Dialog → Answer

-- `loadAdvancedConfig`, `loadRooms` and `loadBlockedPeers` behind their await
unfoldable pub answer_load : ℕ → Answer → DialogState → DialogState
unfolding finish_dialog_action fail_dialog_action show_dialog
answer_load action (failed error) s =
    finish_dialog_action action (fail_dialog_action action error s)
answer_load action (loaded next) s =
    finish_dialog_action action (if nat_beq s.action action then show_dialog next s else s)

-- `leaveGroup` behind its await, with the daemon's error if there is one: where there is none, it
-- closes the dialog that is open then, whichever it is
unfoldable pub answer_leave_group : ℕ → Option Text → DialogState → DialogState
unfolding finish_dialog_action fail_dialog_action close_dialog
answer_leave_group action (some error) s =
    finish_dialog_action action (fail_dialog_action action error s)
answer_leave_group action none s = finish_dialog_action action (close_dialog s)
