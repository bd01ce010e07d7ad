-- ===== src/Tui/Navigation.antt =====
-- tui/src/navigation.ts: going back from a dialog.
pub mod Back
use mesh_talk.Common.{ℕ, Bool, true, false, Option, none, some, List, [], ◌∷◌, Text, if◌then◌else◌}
use mesh_talk.Tui.Dialogs.{
  ReturnTo, files, file_confirm, Dialog, settings, control, control_custom, control_status,
  advanced, advanced_image_protocol, advanced_ip_pinning, advanced_control, advanced_stun,
  customisation, customisation_splash, advanced_control_ip, advanced_stun_ip, rooms, room_create,
  room_join, room_created, room_detail, group_detail, rename, mute_timeout, unmute_confirm,
  add_friend, remove_friend, friend_requests, friend_request_incoming, friends, blocked,
  block_peer_pick, block_peer, cancel_friend_confirm, notifications, notification_enable,
  notification_confirm, notification_fallback, notification_settings, notification_peer,
  accessibility, debug, debug_endpoints, debug_peer, file_send, confirm_files, file_list,
  file_download, image_view, delivery_details, files_dir, storage_dir, files_settings,
  group_file_send, update, update_directory, update_token, about, Answer, failed, loaded,
  DialogState, close_dialog, show_dialog, begin_dialog_action, answer_load,
}

-- what navigation makes the client do
pub data Effect : Type 0 where
  closes : Effect
  shows : Dialog → Effect
  loads_advanced_config : Effect
  loads_rooms : Effect
  loads_blocked_peers : Effect

unfoldable pub dialog_uses_text_input : Dialog → Bool
dialog_uses_text_input (control_custom first_run) = true
dialog_uses_text_input advanced_control_ip = true
dialog_uses_text_input advanced_stun_ip = true
dialog_uses_text_input room_create = true
dialog_uses_text_input room_join = true
dialog_uses_text_input (rename first_run) = true
dialog_uses_text_input (add_friend id name) = true
dialog_uses_text_input file_send = true
dialog_uses_text_input (files_dir l) = true
dialog_uses_text_input (storage_dir l) = true
dialog_uses_text_input (files_settings l) = true
dialog_uses_text_input (file_download f) = true
dialog_uses_text_input (update_directory r) = true
dialog_uses_text_input (update_token r) = true
dialog_uses_text_input _ = false

unfoldable pub is_updater_dialog : Dialog → Bool
is_updater_dialog (update r) = true
is_updater_dialog (update_directory r) = true
is_updater_dialog (update_token r) = true
is_updater_dialog _ = false

-- a dialog of the first run is none
unfoldable pub is_first_level_settings_dialog : Dialog → Bool
is_first_level_settings_dialog settings = true
is_first_level_settings_dialog (rename false) = true
is_first_level_settings_dialog customisation = true
is_first_level_settings_dialog notifications = true
is_first_level_settings_dialog accessibility = true
is_first_level_settings_dialog (control false) = true
is_first_level_settings_dialog friends = true
is_first_level_settings_dialog (rooms rs) = true
is_first_level_settings_dialog (files_settings l) = true
is_first_level_settings_dialog (advanced c) = true
is_first_level_settings_dialog debug = true
is_first_level_settings_dialog about = true
is_first_level_settings_dialog (file_list fs) = true
is_first_level_settings_dialog file_send = true
is_first_level_settings_dialog group_file_send = true
is_first_level_settings_dialog _ = false

-- the branches behind the tests of the first level
abbrev back_to : Dialog → List Text → List Effect
back_to (image_view (some files) d) transfers = shows (file_list transfers) ∷ []
back_to (image_view (some file_confirm) (some d)) transfers = shows (confirm_files d) ∷ []
back_to (control_custom first_run) transfers = shows (control first_run) ∷ []
back_to (control_status c) transfers = shows (control false) ∷ []
back_to advanced_control_ip transfers = loads_advanced_config ∷ []
back_to advanced_stun_ip transfers = loads_advanced_config ∷ []
back_to (advanced_control c) transfers = loads_advanced_config ∷ []
back_to (advanced_stun c) transfers = loads_advanced_config ∷ []
back_to (advanced_ip_pinning c) transfers = loads_advanced_config ∷ []
back_to (advanced_image_protocol c) transfers = loads_advanced_config ∷ []
back_to (update_directory r) transfers = shows (update r) ∷ []
back_to (update_token (some r)) transfers = shows (update r) ∷ []
back_to (update_token none) transfers = shows about ∷ []
back_to (customisation_splash s) transfers = shows customisation ∷ []
back_to room_create transfers = shows (rooms []) ∷ loads_rooms ∷ []
back_to room_join transfers = shows (rooms []) ∷ loads_rooms ∷ []
back_to (room_created i) transfers = shows (rooms []) ∷ loads_rooms ∷ []
back_to (room_detail r) transfers = shows (rooms []) ∷ loads_rooms ∷ []
back_to (mute_timeout p g n) transfers = shows notifications ∷ []
back_to (unmute_confirm p g n) transfers = shows notifications ∷ []
back_to (friend_request_incoming r) transfers = shows friends ∷ []
back_to (friend_requests rs) transfers = shows friends ∷ []
back_to (add_friend p n) transfers = shows friends ∷ []
back_to (remove_friend p n) transfers = shows friends ∷ []
back_to (notification_enable false) transfers = shows notification_settings ∷ []
back_to (notification_confirm d false) transfers = shows notification_settings ∷ []
back_to (notification_fallback false) transfers = shows notification_settings ∷ []
back_to notification_settings transfers = shows notifications ∷ []
back_to notification_peer transfers = shows notifications ∷ []
back_to (blocked ps) transfers = shows friends ∷ []
back_to block_peer_pick transfers = shows (blocked []) ∷ loads_blocked_peers ∷ []
back_to (block_peer p n) transfers = shows (blocked []) ∷ loads_blocked_peers ∷ []
back_to (cancel_friend_confirm r n) transfers = shows friends ∷ []
back_to (debug_peer p n) transfers = shows debug_endpoints ∷ []
back_to debug_endpoints transfers = shows debug ∷ []
back_to (file_download f) transfers = shows (file_list transfers) ∷ []
back_to (files_dir l) transfers = shows (file_list transfers) ∷ []
back_to (storage_dir l) transfers = shows (file_list transfers) ∷ []
back_to _ transfers = closes ∷ []

abbrev is_update : Dialog → Bool
is_update (update r) = true
is_update _ = false

-- the dialogs that the first test closes
abbrev closes_at_once : Dialog → Bool
closes_at_once settings = true
closes_at_once (control first_run) = first_run
closes_at_once (rename first_run) = first_run
closes_at_once _ = false

unfoldable pub go_back : Option Dialog → List Text → List Effect
unfolding is_first_level_settings_dialog
go_back none transfers = closes ∷ []
go_back (some d) transfers =
    if closes_at_once d
    then closes ∷ []
    else if is_update d
    then []
    else if is_first_level_settings_dialog d
    then closes ∷ []
    else back_to d transfers

-- what the daemon answers
pub record Replies : Type 0 where
  pub config : Text
  pub room_ids : List Text
  pub blocked_ids : List Text

abbrev pub answered : Option ℕ × DialogState → Dialog → DialogState
answered (none, s) d = s
answered (some action, s) d = answer_load action (loaded d) s

module _ (replies : Replies) where
  -- an effect whose answer comes before the next one
  abbrev pub perform : Effect → DialogState → DialogState
  unfolding close_dialog show_dialog begin_dialog_action answer_load
  perform closes s = close_dialog s
  perform (shows d) s = show_dialog d s
  perform loads_advanced_config s = answered (begin_dialog_action s) (advanced replies.config)
  perform loads_rooms s = answered (begin_dialog_action s) (rooms replies.room_ids)
  perform loads_blocked_peers s = answered (begin_dialog_action s) (blocked replies.blocked_ids)

  unfoldable pub perform_all : List Effect → DialogState → DialogState
  unfolding perform
  perform_all [] s = s
  perform_all (e ∷ es) s = perform_all es (perform e s)

  unfoldable pub back : List Text → DialogState → DialogState
  unfolding go_back perform_all
  back transfers s = perform_all (go_back s.dialog transfers) s
