-- ===== src/Control/Rooms/Delivery.antt =====
-- control/src/worker.ts: whom the broadcasts and signals of a room reach.
use mesh_talk.Common.{
  ℕ, ◌+◌, ◌-◌, ◌≤◌, ◌≡◌, refl, subst, ap, sym, ◌∙◌, arith, true, false, not, ◌||◌, Option, some,
  List, [], ◌∷◌, ◌++◌, map, Text, ltb, nat_eq, text_eq, length, contains, keep, if◌then◌else◌, inl,
  inr, Bool-cases, All,
}
use mathlib.Core.List.{append-nil, append_assoc}
use mesh_talk.Common.Dict.{put}
use mesh_talk.Common.Exec.{ok, pure, gets, for_each, bind-ok, for_each-cons, modify, ◌>>=◌}
use mesh_talk.Control.State.{
  Socket, ControlRoom, Platform, M, update, Frame, signal, Output, sent, write_output,
  write_retained, write_client, send,
}
use mesh_talk.Control.Rooms.{
  members_of, is_empty, is_socket, signal_length, broadcast_room, signal_room,
}

-- the sockets that a broadcast reaches
abbrev pub receivers : Option Socket → List Socket → List Socket
receivers except = keep (λ m. not (is_socket except m))

abbrev pub told : Frame → List Socket → List Output
told frame = map (λ m. sent m frame)

abbrev pub with_output : ControlRoom → List Output → ControlRoom
with_output r o = record r { output = r.output ++ o }

-- No send to these sockets throws.
abbrev pub IsWhole : Platform → List Socket → Type 0
IsWhole p = All (λ m. p.broken m ≡ false)

pub send-ok :
    (p : Platform) (s : Socket) (f : Frame) (r : ControlRoom)
    → p.broken s ≡ false
    → send p s f r ≡ (ok tt, with_output r (sent s f ∷ []))
unfolding send write_output
send-ok p s f r h = rw h refl

abbrev tell : Platform → Frame → Option Socket → Socket → M (Unit {0})
tell p frame x m = if is_socket x m then pure tt else send p m frame

for_each-tell :
    (p : Platform) (frame : Frame) (x : Option Socket) (ms : List Socket) (r : ControlRoom)
    → IsWhole p (receivers x ms)
    → for_each ms (tell p frame x) r ≡ (ok tt, with_output r (told frame (receivers x ms)))
unfolding keep pure for_each
for_each-tell p frame x [] r h =
    ap (λ o. (ok tt, record r { output = o })) (sym (append-nil r.output))
for_each-tell p frame x (m ∷ ms) r h = elim (Bool-cases (is_socket x m)) [
  | inl t ↦
      for_each-cons m ms (tell p frame x) {s = r} {s' = r} (rw t refl)
      ∙ rw t (
          for_each-tell p frame x ms r
            (subst (λ b. IsWhole p (if not b then m ∷ receivers x ms else receivers x ms)) t h))
  | inr f ↦
      let h' : (p.broken m ≡ false) × IsWhole p (receivers x ms) =
        subst (λ b. IsWhole p (if not b then m ∷ receivers x ms else receivers x ms)) f h in
      for_each-cons m ms (tell p frame x) {s = r} {s' = with_output r (sent m frame ∷ [])}
        (rw f (send-ok p m frame r h'.0))
      ∙ rw f (
          for_each-tell p frame x ms (with_output r (sent m frame ∷ [])) h'.1
          ∙ ap (λ o. (ok tt, record r { output = o }))
              (append_assoc r.output (sent m frame ∷ []) (told frame (receivers x ms))))
]

pub broadcast_room-eq :
    (p : Platform) (id : Text) (frame : Frame) (x : Option Socket) (r : ControlRoom)
    → IsWhole p (receivers x (members_of r id))
    → broadcast_room p id frame x r
      ≡ (ok tt, with_output r (told frame (receivers x (members_of r id))))
unfolding broadcast_room gets
broadcast_room-eq p id frame x r h =
    bind-ok (gets (λ (s : ControlRoom). members_of s id)) _ {s = r} refl
    ∙ for_each-tell p frame x (members_of r id) r h

ltb-eq-false : {a b : ℕ} → a ≤ b → ltb b a ≡ false
ltb-eq-false h = ground arith

-- the state after a signal is retained
abbrev pub retained : Socket → Text → Text → ControlRoom → ControlRoom
retained s id payload r = record r {
  retained_bytes = r.retained_bytes - signal_length id (r.objects s) + length payload;
  objects =
      update r.objects s (record (r.objects s) { signals = put id payload (r.objects s).signals });
}

-- A signal of a member of a room, of 1 to 8192 units, for which the service has storage: where no
-- send to the other members throws, the handler returns, retains the payload in place of the
-- member's last one, and sends it once to each other member of the room, in their order, and to
-- no one else.
pub signal_room-eq :
    (p : Platform) (s : Socket) (id payload : Text) (r : ControlRoom)
    → contains id (r.objects s).rooms ≡ true
    → (is_empty payload || ltb 8192 (length payload)) ≡ false
    → r.retained_bytes - signal_length id (r.objects s) + length payload ≤ 67_108_864
    → IsWhole p (receivers (some s) (members_of r id))
    → signal_room p s id payload r ≡ (
      ok tt,
      with_output
          (retained s id payload r)
          (told (signal id payload) (receivers (some s) (members_of r id))),
    )
unfolding signal_room gets write_retained write_client members_of modify ◌>>=◌
signal_room-eq p s id payload r member fits stored whole =
    rw (member, fits, ltb-eq-false stored)
      (broadcast_room-eq p id (signal id payload) (some s) (retained s id payload r) whole)
