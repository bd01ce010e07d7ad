-- ===== src/Control/Rooms/Secret.antt =====
-- control/src/worker.ts: who joins a room.
use mesh_talk.Common.{
  ◌<◌, ◌≡◌, ◌⊎◌, inl, inr, refl, subst, ap, sym, ◌∙◌, arith, Bool, true, false, not, ◌||◌, some,
  Text, leb, text_eq, length, contains,
}
use mesh_talk.Common.Dict.{get}
use mesh_talk.Common.Exec.{Result, ok, err, throw_if}
use mesh_talk.Common.Exec.Triple.{
  Outcome, Triple, Triple-gets, Triple-pure, Triple-throw_if, Triple-if, Triple-with_some,
  Triple-fact, Triple-bind, Triple-before, Triple-const,
}
use mesh_talk.Control.Config.{room_id_test, room_auth_test}
use mesh_talk.Control.Wire.{from_hex, timing_safe_equal}
use mesh_talk.Control.Wire.Hex.{room_auth_equal_iff}
use mesh_talk.Control.State.{Socket, ClientData, RoomState, ControlRoom, ControlError, Platform}
use mesh_talk.Control.Rooms.{find_room, join_room}

-- What a join that is let in has shown.
pub record IsAdmitted (id auth : Text) (room : RoomState) (d : ClientData) : Type 0 where
  pub room_id : room_id_test id ≡ true
  pub secret : room.auth ≡ auth
  pub space : length room.members < 64
  pub few : length d.rooms < 32

-- A join that throws and changes nothing, or one that has shown what it must.
abbrev pub IsGuarded :
    Text
    → Text
    → RoomState
    → ClientData
    → ControlRoom
    → Result ControlError (Unit {0}) × ControlRoom
    → Type 0
IsGuarded id auth room d r o = ((x : ControlError) × (o ≡ (err x, r))) ⊎ IsAdmitted id auth room d

module _ (p : Platform) (s : Socket) (id auth : Text) (room : RoomState) (r₀ : ControlRoom)
    (exists : get id r₀.rooms ≡ some room) (valid : room_auth_test room.auth ≡ true)
    (out : contains id (r₀.objects s).rooms ≡ false) where
  abbrev Admitted : Type 0
  Admitted = IsAdmitted id auth room (r₀.objects s)

  -- what a throw leaves
  abbrev Guarded : ControlRoom → Type 0
  Guarded r = (r ≡ r₀) ⊎ Admitted

  abbrev Untouched : ControlRoom → Type 0
  Untouched r = r ≡ r₀

  find_room-found :
      Triple {E = ControlError} Guarded Untouched
        (find_room id auth)
        (λ found r. (r ≡ r₀) × (found ≡ room))
  unfolding find_room
  find_room-found = Triple-bind Guarded _ _ (Triple-gets Guarded _) (λ rooms.
      Triple-with_some Guarded (get id rooms) _ _
        (λ found e.
          Triple-pure Guarded found (λ r h.
            (h.0, ground (arith, e, exists, ap (λ x. get id x.rooms) h.0, ap (get id) h.1))))
        (λ e. record {
          run = λ r h.
              absurd (ground (arith, e, exists, ap (λ x. get id x.rooms) h.0, ap (get id) h.1));
        }))

  admitted :
      (not (room_id_test id) || not (room_auth_test auth)) ≡ false
      → leb 32 (length (r₀.objects s).rooms) ≡ false
      → not (timing_safe_equal (from_hex room.auth) (from_hex auth)) ≡ false
      → leb 64 (length room.members) ≡ false
      → Admitted
  admitted tests few same space = record {
    room_id = ground (arith, tests);
    secret =
        (room_auth_equal_iff room.auth auth valid (ground (arith, tests))).0 (ground (arith, same));
    space = ground (arith, space);
    few = ground (arith, few);
  }

  -- a guard, before which nothing has been written
  guard :
      (b : Bool) (x : ControlError)
      → Triple Guarded Untouched (throw_if b x) (λ _ r. (r ≡ r₀) × (b ≡ false))
  guard b x = Triple-throw_if Guarded b x (λ r h. inl h)

  join-Triple :
      Triple {E = ControlError} Guarded Untouched (join_room p s id auth) (λ _ _. Admitted)
  unfolding join_room
  join-Triple = Triple-bind Guarded _ _ (guard _ _) (λ _. Triple-fact Guarded _ (λ tests.
      Triple-bind Guarded _ _ (Triple-gets Guarded _) (λ d.
        Triple-before Guarded (λ r. (r ≡ r₀) × (d ≡ r₀.objects s)) _
          (λ r h. (h.0, sym h.1 ∙ ap (λ x. x.objects s) h.0))
          (Triple-fact Guarded _ (λ same.
            Triple-if Guarded (contains id d.rooms) _ _
              (λ t. absurd (ground (arith, t, out, ap (λ x. contains id x.rooms) same)))
              (λ _. Triple-bind Guarded _ _ (guard _ _) (λ _. Triple-fact Guarded _ (λ few.
                Triple-bind Guarded _ _ find_room-found (λ found. Triple-fact Guarded _ (λ it.
                  Triple-bind Guarded _ _ (guard _ _) (λ _. Triple-fact Guarded _ (λ opens.
                    Triple-bind Guarded _ _ (guard _ _) (λ _. Triple-fact Guarded _ (λ space.
                      let let_in =
                        admitted tests (subst (λ x. leb 32 (length x.rooms) ≡ false) same few)
                          (subst
                            (λ x. not (timing_safe_equal (from_hex x.auth) (from_hex auth)) ≡ false)
                            it opens)
                          (subst (λ x. leb 64 (length x.members) ≡ false) it space) in
                      Triple-const Guarded _ let_in (λ r. inr let_in)))))))))))))))

  IsGuarded-of_outcome :
      (o : Result ControlError (Unit {0})) (r : ControlRoom)
      → Outcome Guarded (λ _ _. Admitted) o r
      → IsGuarded id auth room (r₀.objects s) r₀ (o, r)
  IsGuarded-of_outcome (ok a) r h = inr h
  IsGuarded-of_outcome (err x) r (inl same) = inl (x, ap (λ t. (err x, t)) same)
  IsGuarded-of_outcome (err x) r (inr h) = inr h

  -- For a client that is not in the room: a join of a room that exists, whose stored secret has
  -- the form of one, throws and leaves the whole state as it was, unless the room's id has the
  -- form of one, the secret is the one that the room was made with, the room had fewer than 64
  -- members, and the client was in fewer than 32 rooms.
  pub join_room-IsGuarded : IsGuarded id auth room (r₀.objects s) r₀ (join_room p s id auth r₀)
  join_room-IsGuarded =
      IsGuarded-of_outcome (join_room p s id auth r₀).0 (join_room p s id auth r₀).1
        (join-Triple.run r₀ refl)
