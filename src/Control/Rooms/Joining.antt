-- ===== src/Control/Rooms/Joining.antt =====
-- control/src/worker.ts: the bounds of the rooms while a client joins one.
use mesh_talk.Common.{
  ℕ, ◌≡◌, refl, ap, ◌∙◌, arith, true, false, some, List, Text, leb, nat_eq, text_eq, length,
  contains, add, ◌++◌, [], ◌∷◌, length-add,
}
use mesh_talk.Common.Dict.{get, put, get-put_self}
use mesh_talk.Common.Exec.{pure, gets, for_each, with_some, modify, ◌>>=◌, ◌>>◌}
use mesh_talk.Common.Exec.Keeps.{Keeps, keeps_rules}
use mesh_talk.Common.Exec.Triple.{
  Triple, Triple-gets, Triple-pure, Triple-modify, Triple-throw_if, Triple-if, Triple-with_some,
  Triple-fact, Triple-Keeps, Triple-bind, Keeps-Triple,
}
use mesh_talk.Control.Config.{room_auth_test}
use mesh_talk.Control.State.{
  Socket, ClientData, RoomState, ControlRoom, ControlError, Platform, M, signal, joined,
  write_rooms, write_client, Output, send,
}
use mesh_talk.Control.Rooms.{signal_of, refresh_room, find_room, join_room}
use mesh_talk.Control.Rooms.Bounds.{
  IsHoused, put-IsHoused, with_client-IsHoused, send-Keeps, refresh-Keeps, output-IsHoused,
  new-IsHoused,
}

-- the state of a join: the client's rooms, and the room that is found or made
record IsJoining (s : Socket) (id : Text) (d : ClientData) (room : RoomState) (r : ControlRoom)
    : Type 0 where
  pub housed : IsHoused r
  pub client : (r.objects s).rooms ≡ d.rooms
  pub found : get id r.rooms ≡ some room

find_room-IsJoining :
    (s : Socket) (id auth : Text) (d : ClientData)
    → room_auth_test auth ≡ true
    → Triple IsHoused
        (λ r. IsHoused r × (r.objects s ≡ d))
        (find_room id auth)
        (λ room. IsJoining s id d room)
unfolding find_room write_rooms modify
find_room-IsJoining s id auth d valid = Triple-bind IsHoused _ _ (Triple-gets IsHoused _) (λ rooms.
    Triple-with_some IsHoused (get id rooms) _ _
      (λ room e. Triple-pure IsHoused room (λ r h. record {
        housed = h.0.0;
        client = ap (λ x. x.rooms) h.0.1;
        found = ap (get id) h.1 ∙ e;
      }))
      (λ e. Triple-bind IsHoused _ _ (Triple-throw_if IsHoused _ _ (λ r h. h.0.0)) (λ _.
        Triple-bind IsHoused {R = λ _. IsJoining s id d (record { auth = auth; members = [] })} _ _
          (Triple-modify IsHoused _ (λ r h. record {
            housed = new-IsHoused id auth rooms r h.0.1 h.1 valid h.0.0.0;
            client = ap (λ x. x.rooms) h.0.0.1;
            found = get-put_self id (record { auth = auth; members = [] }) r.rooms;
          }))
          (λ _. Triple-pure IsHoused _ (λ r h. h)))))

IsJoining-output :
    (s : Socket) (id : Text) (d : ClientData) (room : RoomState) (r : ControlRoom) (o : Output)
    → IsJoining s id d room r
    → IsJoining s id d room (record r { output = r.output ++ o ∷ [] })
IsJoining-output s id d room r o h = record {
  housed = output-IsHoused r o h.housed;
  client = h.client;
  found = h.found;
}

enter_room :
    (s : Socket) (id : Text) (d : ClientData) (room : RoomState)
    → leb 64 (length room.members) ≡ false
    → Triple {E = ControlError} IsHoused
        (IsJoining s id d room)
        (write_rooms (put id (record room { members = add s room.members })))
        (λ _ r. IsHoused r × ((r.objects s).rooms ≡ d.rooms))
unfolding write_rooms
enter_room s id d room small = Triple-modify IsHoused _ (λ r h. (
  put-IsHoused r id room (record room { members = add s room.members }) h.found
      (ground (arith, length-add s room.members, small)) refl h.housed,
  h.client,
))

enter_client :
    (s : Socket) (id : Text) (d : ClientData)
    → leb 32 (length d.rooms) ≡ false
    → Triple {E = ControlError} IsHoused
        (λ r. IsHoused r × ((r.objects s).rooms ≡ d.rooms))
        (write_client s (λ d'. record d' { rooms = add id d'.rooms }))
        (λ _. IsHoused)
unfolding write_client
enter_client s id d few = Triple-modify IsHoused _ (λ r h.
    with_client-IsHoused r s (record (r.objects s) { rooms = add id (r.objects s).rooms })
      (ground (arith, length-add id (r.objects s).rooms, h.1, few)) h.0)

abbrev show_signals : Platform → Socket → Text → List Socket → M (Unit {0})
show_signals p s id members = for_each members (λ member. do
  payload ← gets (λ (r : ControlRoom). signal_of r id member)
  with_some payload (λ t. send p s (signal id t)) (pure tt))

show_signals-IsJoining :
    (p : Platform) (s : Socket) (id : Text) (d : ClientData) (room : RoomState)
    → Triple IsHoused
        (IsJoining s id d room)
        (show_signals p s id room.members)
        (λ _. IsJoining s id d room)
show_signals-IsJoining p s id d room =
    Triple-Keeps IsHoused _ (search (keeps_rules, send-Keeps, IsJoining-output)) (λ r h. h.housed)

tell_joined :
    (p : Platform) (s : Socket) (id : Text) (n : ℕ)
    → Keeps IsHoused (send p s (joined id n) >> refresh_room p id)
tell_joined p s id n = search (keeps_rules, send-Keeps, refresh-Keeps, output-IsHoused)

pub join_room-IsHoused :
    (p : Platform) (s : Socket) (id auth : Text) → Keeps IsHoused (join_room p s id auth)
unfolding join_room
join_room-IsHoused p s id auth =
    let housed =
      λ (d : ClientData) (room : RoomState) (r : ControlRoom) (h : IsJoining s id d room r).
        h.housed in
    Keeps-Triple IsHoused _ (
      Triple-bind IsHoused _ _ (Triple-throw_if IsHoused _ _ (λ r h. h)) (λ _.
        Triple-fact IsHoused _ (λ tests. Triple-bind IsHoused _ _ (Triple-gets IsHoused _) (λ d.
          Triple-if IsHoused (contains id d.rooms) _ _ (λ _. Triple-pure IsHoused tt (λ r h. h.0))
            (λ _. Triple-bind IsHoused _ _ (Triple-throw_if IsHoused _ _ (λ r h. h.0)) (λ _.
              Triple-fact IsHoused _ (λ few.
                Triple-bind IsHoused _ _ (find_room-IsJoining s id auth d (ground (arith, tests)))
                  (λ room.
                    Triple-bind IsHoused _ _ (Triple-throw_if IsHoused _ _ (housed d room)) (λ _.
                      Triple-fact IsHoused _ (λ _.
                        Triple-bind IsHoused _ _ (Triple-throw_if IsHoused _ _ (housed d room))
                          (λ _. Triple-fact IsHoused _ (λ small.
                            Triple-bind IsHoused _ _ (show_signals-IsJoining p s id d room) (λ _.
                              Triple-bind IsHoused _ _ (enter_room s id d room small) (λ _.
                                Triple-bind IsHoused _ _ (enter_client s id d few) (λ _.
                                  Triple-Keeps IsHoused _ (tell_joined p s id _)
                                    (λ r h. h))))))))))))))))
