-- ===== src/Tui/Navigation/Back.antt =====
-- tui/src/navigation.ts: how often one goes back until no dialog is left.
use mesh_talk.Common.{
  ◌≡◌, refl, ap, ◌∙◌, arith, Bool, true, false, Option, none, some, List, [], ◌∷◌, Text,
}
use mesh_talk.Tui.Dialogs.{
  DialogState, Dialog, advanced, control, control_custom, rename, notification_enable,
  notification_confirm, notification_fallback, image_view, files, file_confirm, rooms, blocked,
  update, update_directory, update_token, close_dialog, show_dialog, begin_dialog_action,
  answer_load, finish_dialog_action,
}
use mesh_talk.Tui.Navigation.{
  Replies, Effect, closes, shows, loads_advanced_config, loads_rooms, loads_blocked_peers, answered,
  perform_all, go_back, back,
}

-- going back leads to the updater's dialog, which stays open
abbrev pub leads_to_update : Option Dialog → Bool
leads_to_update (some (update r)) = true
leads_to_update (some (update_directory r)) = true
leads_to_update (some (update_token (some r))) = true
leads_to_update _ = false

module _ (replies : Replies) where
  -- the dialog that the effects leave open
  abbrev target : Option Dialog → List Effect → Option Dialog
  target d [] = d
  target d (closes ∷ es) = target none es
  target d (shows next ∷ es) = target (some next) es
  target d (loads_advanced_config ∷ es) = target (some (advanced replies.config)) es
  target d (loads_rooms ∷ es) = target (some (rooms replies.room_ids)) es
  target d (loads_blocked_peers ∷ es) = target (some (blocked replies.blocked_ids)) es

  -- an action that nothing keeps waiting shows what it has loaded
  answered_lem :
      (s : DialogState) (d : Dialog)
      → s.busy_ref ≡ false
      → ((answered (begin_dialog_action s) d).dialog ≡ some d)
        × ((answered (begin_dialog_action s) d).busy_ref ≡ false)
  unfolding begin_dialog_action answer_load finish_dialog_action show_dialog
  answered_lem s d idle = ground (arith, idle)

  loaded-target :
      (es : List Effect) (s : DialogState) (d : Dialog)
      → s.busy_ref ≡ false
      → ((t : DialogState)
          → t.busy_ref ≡ false
          → ((perform_all replies es t).dialog ≡ target t.dialog es)
            × ((perform_all replies es t).busy_ref ≡ false))
      → ((perform_all replies es (answered (begin_dialog_action s) d)).dialog ≡ target (some d) es)
        × ((perform_all replies es (answered (begin_dialog_action s) d)).busy_ref ≡ false)
  loaded-target es s d idle ih =
      let now = answered_lem s d idle in
      let later = ih (answered (begin_dialog_action s) d) now.1 in
      (later.0 ∙ ap (λ x. target x es) now.0, later.1)

  perform_all-target :
      (es : List Effect) (s : DialogState)
      → s.busy_ref ≡ false
      → ((perform_all replies es s).dialog ≡ target s.dialog es)
        × ((perform_all replies es s).busy_ref ≡ false)
  unfolding perform_all close_dialog show_dialog
  perform_all-target [] s idle = (refl, idle)
  perform_all-target (closes ∷ es) s idle = perform_all-target es (close_dialog s) refl
  perform_all-target (shows next ∷ es) s idle = perform_all-target es (show_dialog next s) refl
  perform_all-target (loads_advanced_config ∷ es) s idle =
      loaded-target es s (advanced replies.config) idle (perform_all-target es)
  perform_all-target (loads_rooms ∷ es) s idle =
      loaded-target es s (rooms replies.room_ids) idle (perform_all-target es)
  perform_all-target (loads_blocked_peers ∷ es) s idle =
      loaded-target es s (blocked replies.blocked_ids) idle (perform_all-target es)

  thrice :
      (transfers : List Text) (d : Option Dialog)
      → leads_to_update d ≡ false
      → (let once = target d (go_back d transfers) in
          let twice = target once (go_back once transfers) in
          target twice (go_back twice transfers))
        ≡ none
  unfolding go_back
  thrice transfers none h = refl
  thrice transfers (some (control true)) h = refl
  thrice transfers (some (control false)) h = refl
  thrice transfers (some (control_custom true)) h = refl
  thrice transfers (some (control_custom false)) h = refl
  thrice transfers (some (rename true)) h = refl
  thrice transfers (some (rename false)) h = refl
  thrice transfers (some (notification_enable true)) h = refl
  thrice transfers (some (notification_enable false)) h = refl
  thrice transfers (some (notification_confirm d true)) h = refl
  thrice transfers (some (notification_confirm d false)) h = refl
  thrice transfers (some (notification_fallback true)) h = refl
  thrice transfers (some (notification_fallback false)) h = refl
  thrice transfers (some (image_view (some files) d)) h = refl
  thrice transfers (some (image_view (some file_confirm) none)) h = refl
  thrice transfers (some (image_view (some file_confirm) (some d))) h = refl
  thrice transfers (some (image_view none d)) h = refl
  thrice transfers (some (update r)) h = absurd (ground (arith, h))
  thrice transfers (some (update_directory r)) h = absurd (ground (arith, h))
  thrice transfers (some (update_token (some r))) h = absurd (ground (arith, h))
  thrice transfers (some (update_token none)) h = refl
  thrice transfers (some d) h = refl

  back-target :
      (transfers : List Text) (s : DialogState)
      → s.busy_ref ≡ false
      → ((back replies transfers s).dialog ≡ target s.dialog (go_back s.dialog transfers))
        × ((back replies transfers s).busy_ref ≡ false)
  unfolding back
  back-target transfers s idle = perform_all-target (go_back s.dialog transfers) s idle

  -- From every dialog, going back three times leaves no dialog open, unless the dialog is that of
  -- the updater, or one from which going back leads to it. No action must be waiting at the start,
  -- and what is loaded on the way is answered, without an error, before one goes back again.
  pub back_closes :
      (transfers : List Text) (s : DialogState)
      → s.busy_ref ≡ false
      → leads_to_update s.dialog ≡ false
      → (back replies transfers (back replies transfers (back replies transfers s))).dialog ≡ none
  back_closes transfers s idle other =
      let one = back-target transfers s idle in
      let two = back-target transfers (back replies transfers s) one.1 in
      let three = back-target transfers (back replies transfers (back replies transfers s)) two.1 in
      let go = λ (d : Option Dialog). target d (go_back d transfers) in
      three.0 ∙ ap go (two.0 ∙ ap go one.0) ∙ thrice transfers s.dialog other
