-- ===== src/Tui/Dialogs/Answers.antt =====
-- tui/src/useChatActions.ts: answers that come after the dialog was changed.
use mesh_talk.Common.{
  ℕ, ◌+◌, ◌≤◌, ◌<◌, ◌≡◌, refl, arith, Bool, true, false, Option, none, some, List, [], ◌∷◌, Text,
  nat_beq, if◌then◌else◌,
}
use mesh_talk.Tui.Dialogs.{
  Dialog, DialogState, close_dialog, show_dialog, begin_dialog_action, finish_dialog_action,
  fail_dialog_action, Answer, failed, loaded, answer_load, answer_leave_group,
}

-- what else may happen to the dialog
pub data Change : Type 0 where
  closing : Change
  showing : Dialog → Change
  beginning : Change
  finishing : ℕ → Change
  failing : ℕ → Text → Change
  answering : ℕ → Answer → Change
  leaving : ℕ → Option Text → Change

unfoldable pub change : Change → DialogState → DialogState
change closing s = close_dialog s
change (showing d) s = show_dialog d s
change beginning s = (begin_dialog_action s).1
change (finishing action) s = finish_dialog_action action s
change (failing action error) s = fail_dialog_action action error s
change (answering action answer) s = answer_load action answer s
change (leaving action error) s = answer_leave_group action error s

unfoldable pub change_all : List Change → DialogState → DialogState
unfolding change
change_all [] s = s
change_all (c ∷ cs) s = change_all cs (change c s)

-- the dialog is closed, or another one shown
abbrev pub is_replaced : Change → Bool
is_replaced closing = true
is_replaced (showing d) = true
is_replaced _ = false

finish_action : (action : ℕ) (s : DialogState) → (finish_dialog_action action s).action ≡ s.action
unfolding finish_dialog_action
finish_action action s = ground arith

fail_action :
    (action : ℕ) (error : Text) (s : DialogState)
    → (fail_dialog_action action error s).action ≡ s.action
unfolding fail_dialog_action finish_dialog_action
fail_action action error s = ground arith

change-le : (c : Change) (s : DialogState) → s.action ≤ (change c s).action
unfolding change close_dialog show_dialog begin_dialog_action
change-le closing s = omega arith
change-le (showing d) s = omega arith
change-le beginning s = ground arith
change-le (finishing action) s = omega (arith, finish_action action s)
change-le (failing action error) s = omega (arith, fail_action action error s)
change-le (answering action (failed error)) s =
    unfold answer_load in
    omega
      (arith, finish_action action (fail_dialog_action action error s), fail_action action error s)
change-le (answering action (loaded d)) s =
    unfold answer_load in
    ground (arith, finish_action action (if nat_beq s.action action then show_dialog d s else s))
change-le (leaving action (some error)) s =
    unfold answer_leave_group in
    omega
      (arith, finish_action action (fail_dialog_action action error s), fail_action action error s)
change-le (leaving action none) s =
    unfold answer_leave_group in omega (arith, finish_action action (close_dialog s))

change_all-le : (cs : List Change) (s : DialogState) → s.action ≤ (change_all cs s).action
unfolding change_all
change_all-le [] s = omega arith
change_all-le (c ∷ cs) s = omega (arith, change-le c s, change_all-le cs (change c s))

replaced-lt : (c : Change) (s : DialogState) → is_replaced c ≡ true → s.action < (change c s).action
unfolding change close_dialog show_dialog
replaced-lt closing s h = omega arith
replaced-lt (showing d) s h = omega arith
replaced-lt beginning s h = absurd (ground (arith, h))
replaced-lt (finishing action) s h = absurd (ground (arith, h))
replaced-lt (failing action error) s h = absurd (ground (arith, h))
replaced-lt (answering action answer) s h = absurd (ground (arith, h))
replaced-lt (leaving action error) s h = absurd (ground (arith, h))

stale_answer :
    (action : ℕ) (answer : Answer) (s : DialogState)
    → action < s.action
    → answer_load action answer s ≡ s
unfolding answer_load finish_dialog_action fail_dialog_action
stale_answer action (failed error) s h =
    let other : nat_beq s.action action ≡ false = ground arith in rw other (rw other refl)
stale_answer action (loaded d) s h =
    let other : nat_beq s.action action ≡ false = ground arith in rw other (rw other refl)

-- Of the three actions that load a dialog with one await and a test of the current action behind it
-- (the advanced settings, the rooms, the blocked peers), and of no other: an answer is ignored
-- when the dialog has been closed or replaced since the action began, whatever else happened
-- before and after that, the end of such loads and of leaving a group included; neither the dialog
-- nor its error, nor the state of the other actions changes. The action must have begun, with no
-- other one waiting.
pub answer_load_stale :
    (s : DialogState) (before after : List Change) (c : Change) (answer : Answer)
    → s.busy_ref ≡ false
    → is_replaced c ≡ true
    → (begin_dialog_action s).0 ≡ some (s.action + 1)
      × (answer_load
            (s.action + 1)
            answer
            (change_all after (change c (change_all before (begin_dialog_action s).1)))
          ≡ change_all after (change c (change_all before (begin_dialog_action s).1)))
answer_load_stale s before after c answer idle replaced =
    let begun = (begin_dialog_action s).1 in
    let first = change_all before begun in
    let starts : begun.action ≡ s.action + 1 = unfold begin_dialog_action in ground (arith, idle) in
    (
      unfold begin_dialog_action in ground (arith, idle),
      stale_answer (s.action + 1) answer (change_all after (change c first)) (
          omega (
            arith,
            starts,
            change_all-le before begun,
            replaced-lt c first replaced,
            change_all-le after (change c first),
          )),
    )
