-- ===== src/Control/Rooms/Bounds.antt =====
-- control/src/worker.ts: how many rooms there are, how many members a room has, and how many rooms
-- a client joins.
use mesh_talk.Common.{
  ℕ, ◌≤◌, ◌≡◌, refl, ap, sym, ◌∙◌, arith, true, false, Option, some, List, Text, leb, nat_beq,
  nat_eq, text_eq, length, remove, ◌++◌, [], ◌∷◌, length-remove, if◌then◌else◌, inl, inr, beq-cases,
}
use mesh_talk.Common.Dict.{Dict, get, put, delete, get-put, get-delete, length-put, length-delete}
use mesh_talk.Common.Exec.Keeps.{Keeps, Keeps-if, Keeps-throw, Keeps-modify, keeps_rules}
use mesh_talk.Common.Exec.Triple.{
  Triple, Triple-gets, Triple-pure, Triple-modify, Triple-with_some, Triple-Keeps, Triple-bind,
  Keeps-Triple,
}
use mesh_talk.Control.Config.{room_auth_test}
use mesh_talk.Control.State.{
  Socket, ClientData, RoomState, ControlRoom, ControlError, Platform, Frame, write_rooms,
  write_client, Output, sent, send_failed, write_retained, write_output, send,
}
use mesh_talk.Control.Rooms.{broadcast_room, refresh_room, leave_room}

-- The bounds of the rooms, each of which is kept by a secret of the form of one.
pub record IsHoused (r : ControlRoom) : Type 0 where
  pub rooms : length r.rooms ≤ 10_000
  pub members :
      (id : Text) (room : RoomState) → get id r.rooms ≡ some room → length room.members ≤ 64
  pub joined : (s : Socket) → length (r.objects s).rooms ≤ 32
  pub secrets :
      (id : Text) (room : RoomState) → get id r.rooms ≡ some room → room_auth_test room.auth ≡ true

pub put-IsHoused :
    (r : ControlRoom) (id : Text) (old room : RoomState)
    → get id r.rooms ≡ some old
    → length room.members ≤ 64
    → room.auth ≡ old.auth
    → IsHoused r
    → IsHoused (record r { rooms = put id room r.rooms })
put-IsHoused r id old room found small kept h = record {
  rooms = ground (arith, length-put id room r.rooms, found, h.rooms);
  members = λ j new e. elim (beq-cases id j) [
    | inl (t, p) ↦ ground (arith, get-put id j room r.rooms, t, e, small)
    | inr f ↦ h.members j new (ground (arith, get-put id j room r.rooms, f, e))
  ];
  joined = h.joined;
  secrets = λ j new e. elim (beq-cases id j) [
    | inl (t, p) ↦ ground (arith, get-put id j room r.rooms, t, e, kept, h.secrets id old found)
    | inr f ↦ h.secrets j new (ground (arith, get-put id j room r.rooms, f, e))
  ];
}

pub delete_room-IsHoused :
    (r : ControlRoom) (id : Text) → IsHoused r → IsHoused (record r { rooms = delete id r.rooms })
delete_room-IsHoused r id h = record {
  rooms = omega (arith, length-delete id r.rooms, h.rooms);
  members = λ j new e. elim (beq-cases id j) [
    | inl (t, p) ↦ absurd (ground (arith, get-delete id j r.rooms, t, e))
    | inr f ↦ h.members j new (ground (arith, get-delete id j r.rooms, f, e))
  ];
  joined = h.joined;
  secrets = λ j new e. elim (beq-cases id j) [
    | inl (t, p) ↦ absurd (ground (arith, get-delete id j r.rooms, t, e))
    | inr f ↦ h.secrets j new (ground (arith, get-delete id j r.rooms, f, e))
  ];
}

pub with_client-IsHoused :
    (r : ControlRoom) (s : Socket) (d : ClientData)
    → length d.rooms ≤ 32
    → IsHoused r
    → IsHoused (record r { objects = λ j. if nat_beq s j then d else r.objects j })
with_client-IsHoused r s d small h = record {
  rooms = h.rooms;
  members = h.members;
  joined = λ j. ground (arith, h.joined j);
  secrets = h.secrets;
}

pub rooms_kept :
    (r r' : ControlRoom)
    → r'.rooms ≡ r.rooms
    → ((j : Socket) → (r'.objects j).rooms ≡ (r.objects j).rooms)
    → IsHoused r
    → IsHoused r'
rooms_kept r r' same joins h = record {
  rooms = ground (arith, same, h.rooms);
  members = λ id room e. h.members id room (ap (get id) (sym same) ∙ e);
  joined = λ j. ground (arith, joins j, h.joined j);
  secrets = λ id room e. h.secrets id room (ap (get id) (sym same) ∙ e);
}

-- writes of clients that leave their rooms alone, and those that leave one
pub client-IsHoused :
    (s : Socket) (f : ClientData → ClientData)
    → ((d : ClientData) → (f d).rooms ≡ d.rooms)
    → Keeps IsHoused (write_client s f)
unfolding write_client
client-IsHoused s f same = record {
  at = λ r h.
      with_client-IsHoused r s (f (r.objects s)) (ground (arith, same (r.objects s), h.joined s)) h;
}

pub leave-IsHoused :
    (s : Socket) (id : Text)
    → Keeps IsHoused (write_client s (λ d. record d { rooms = remove id d.rooms }))
unfolding write_client
leave-IsHoused s id = record {
  at = λ r h.
      with_client-IsHoused r s (record (r.objects s) { rooms = remove id (r.objects s).rooms })
        (omega (arith, length-remove id (r.objects s).rooms, h.joined s)) h;
}

pub delete_signal-IsHoused :
    (s : Socket) (id : Text)
    → Keeps IsHoused (write_client s (λ d. record d { signals = delete id d.signals }))
delete_signal-IsHoused s id = client-IsHoused s _ (λ d. refl)

pub retained-IsHoused : (f : ℕ → ℕ) → Keeps IsHoused (write_retained f)
unfolding write_retained
retained-IsHoused f = record { at = λ r h. rooms_kept r _ refl (λ j. refl) h }

pub delete-IsHoused : (id : Text) → Keeps IsHoused (write_rooms (delete id))
unfolding write_rooms
delete-IsHoused id = record { at = λ r h. delete_room-IsHoused r id h }

module _ {P : ControlRoom → Type 0}
    (out : (r : ControlRoom) (o : Output)
      → P r
      → P (record r { output = r.output ++ o ∷ [] })) where
  pub send-Keeps : (p : Platform) (s : Socket) (f : Frame) → Keeps P (send p s f)
  unfolding send write_output
  send-Keeps p s f =
      Keeps-if (p.broken s) _ _ (Keeps-throw send_failed)
        (Keeps-modify _ (λ r h. out r (sent s f) h))

  pub broadcast-Keeps :
      (p : Platform) (id : Text) (f : Frame) (x : Option Socket) → Keeps P (broadcast_room p id f x)
  unfolding broadcast_room
  broadcast-Keeps p id f x = search (keeps_rules, send-Keeps)

  pub refresh-Keeps : (p : Platform) (id : Text) → Keeps P (refresh_room p id)
  unfolding refresh_room
  refresh-Keeps p id = search (keeps_rules, broadcast-Keeps)

pub output-IsHoused :
    (r : ControlRoom) (o : Output)
    → IsHoused r
    → IsHoused (record r { output = r.output ++ o ∷ [] })
output-IsHoused r o h = rooms_kept r _ refl (λ j. refl) h

pub put_left :
    (id : Text) (room : RoomState) (members : List Socket)
    → length members ≤ length room.members
    → (found : Option RoomState) → found ≡ some room
    → Triple {E = ControlError} IsHoused
        (λ r. IsHoused r × (get id r.rooms ≡ found))
        (write_rooms (put id (record room { members = members })))
        (λ _. IsHoused)
unfolding write_rooms
put_left id room members fewer found e = Triple-modify IsHoused _ (λ r h.
    put-IsHoused r id room (record room { members = members }) (h.1 ∙ e)
      (omega (arith, fewer, h.0.members id room (h.1 ∙ e))) refl h.0)

pub new-IsHoused :
    (id auth : Text) (rooms : Dict Text RoomState) (r : ControlRoom)
    → r.rooms ≡ rooms
    → leb 10_000 (length rooms) ≡ false
    → room_auth_test auth ≡ true
    → IsHoused r
    → IsHoused (record r { rooms = put id (record { auth = auth; members = [] }) r.rooms })
new-IsHoused id auth rooms r same few valid h = record {
  rooms = ground (arith, length-put id (record { auth = auth; members = [] }) r.rooms, same, few);
  members = λ j new e. elim (beq-cases id j) [
    | inl (t, p) ↦ ground (arith, get-put id j (record { auth = auth; members = [] }) r.rooms, t, e)
    | inr f ↦
        h.members j new
          (ground (arith, get-put id j (record { auth = auth; members = [] }) r.rooms, f, e))
  ];
  joined = h.joined;
  secrets = λ j new e. elim (beq-cases id j) [
    | inl (t, p) ↦
        ground (arith, get-put id j (record { auth = auth; members = [] }) r.rooms, t, e, valid)
    | inr f ↦
        h.secrets j new
          (ground (arith, get-put id j (record { auth = auth; members = [] }) r.rooms, f, e))
  ];
}

pub leave_room-IsHoused :
    (p : Platform) (s : Socket) (id : Text) → Keeps IsHoused (leave_room p s id)
unfolding leave_room
leave_room-IsHoused p s id = Keeps-Triple IsHoused _ (
    Triple-bind IsHoused _ _ (Triple-gets IsHoused _) (λ found.
      Triple-with_some IsHoused found _ _
        (λ room e.
          Triple-bind IsHoused {R = λ _. IsHoused} _ _
            (put_left id room (remove s room.members) (length-remove s room.members) found e)
            (λ _.
              Triple-Keeps IsHoused _
                (search
                  (
                    keeps_rules, leave-IsHoused, retained-IsHoused, delete_signal-IsHoused,
                    delete-IsHoused, refresh-Keeps, output-IsHoused,
                  )
                  depth 14)
                (λ r h. h)))
        (λ e. Triple-pure IsHoused tt (λ r h. h.0))))
