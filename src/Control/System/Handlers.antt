-- ===== src/Control/System/Handlers.antt =====
-- control/src/worker.ts: the handlers of messages and the books of the queue.
use mesh_talk.Common.{Option, List, Text}
use mesh_talk.Common.Exec.Keeps.{Keeps, keeps_rules}
use mesh_talk.Control.State.{
  Socket, Field, string, number, undefined, other, ControlMessage, PendingMessage, Platform, M,
}
use mesh_talk.Control.Rooms.{join_room, leave_room, signal_room, fetch_peers}
use mesh_talk.Control.Relay.{relay_datagram}
use mesh_talk.Control.Register.{
  Registration, begin_registration, replace_session, commit_registration, finish_registration,
}
use mesh_talk.Control.Messages.{dispatch, handle_message, with_text}
use mesh_talk.Control.System.Books.{
  join_room_books, leave_books, signal_books, fetch_books, relay_books, begin_books,
}
use mesh_talk.Control.System.Flight.{
  Booked, Booked-of_books, send-Booked, output-Booked, identify-Booked, sockets-Booked,
  limits-Booked, handle_close-Booked, reject_client-Booked,
}

module _ (ip : Socket → Text) (held : List PendingMessage) where
  with_text-Booked :
      (f : Field) (k : Text → M (Unit {0}))
      → ((t : Text) → Keeps (Booked ip held) (k t))
      → Keeps (Booked ip held) (with_text f k)
  with_text-Booked (string s) k h = h s
  with_text-Booked (number n) k h = search keeps_rules
  with_text-Booked undefined k h = search keeps_rules
  with_text-Booked other k h = search keeps_rules

  join-Booked :
      (p : Platform) (s : Socket) (id t : Text) → Keeps (Booked ip held) (join_room p s id t)
  join-Booked p s id t = Booked-of_books ip held _ (λ r. join_room_books r p s id t)

  leave-Booked :
      (p : Platform) (s : Socket) (id : Text) → Keeps (Booked ip held) (leave_room p s id)
  leave-Booked p s id = Booked-of_books ip held _ (λ r. leave_books r p s id)

  signal-Booked :
      (p : Platform) (s : Socket) (id t : Text) → Keeps (Booked ip held) (signal_room p s id t)
  signal-Booked p s id t = Booked-of_books ip held _ (λ r. signal_books r p s id t)

  fetch-Booked :
      (p : Platform) (s : Socket) (id : Text) → Keeps (Booked ip held) (fetch_peers p s id)
  fetch-Booked p s id = Booked-of_books ip held _ (λ r. fetch_books r p s id)

  relay-Booked :
      (p : Platform) (s : Socket) (id t : Text) → Keeps (Booked ip held) (relay_datagram p s id t)
  relay-Booked p s id t = Booked-of_books ip held _ (λ r. relay_books r p s id t)

  pub begin-Booked :
      (p : Platform) (s : Socket) (m : ControlMessage)
      → Keeps (Booked ip held) (begin_registration p s m)
  begin-Booked p s m = Booked-of_books ip held _ (λ r. begin_books r p s m)

  dispatch-Booked :
      (p : Platform) (s : Socket) (m : ControlMessage) → Keeps (Booked ip held) (dispatch p s m)
  unfolding dispatch
  dispatch-Booked p s m =
      search
        (
          keeps_rules, with_text-Booked, join-Booked, leave-Booked, signal-Booked, fetch-Booked,
          relay-Booked,
        )
        depth 10

  pub handle_message-Booked :
      (p : Platform) (s : Socket) (m : ControlMessage)
      → Keeps (Booked ip held) (handle_message p s m)
  unfolding handle_message
  handle_message-Booked p s m = search (keeps_rules, dispatch-Booked, reject_client-Booked) depth 8

  replace-Booked :
      (p : Platform) (s : Socket) (o : Option Socket)
      → Keeps (Booked ip held) (replace_session p s o)
  unfolding replace_session
  replace-Booked p s o = search (keeps_rules, handle_close-Booked, output-Booked) depth 8

  commit-Booked :
      (p : Platform) (s : Socket) (id : Text) → Keeps (Booked ip held) (commit_registration p s id)
  unfolding commit_registration
  commit-Booked p s id =
      search
        (keeps_rules, identify-Booked, sockets-Booked, limits-Booked, replace-Booked, send-Booked)
        depth 10

  pub finish-Booked :
      (p : Platform) (s : Socket) (g : Registration)
      → Keeps (Booked ip held) (finish_registration p s g)
  unfolding finish_registration
  finish-Booked p s g = search (keeps_rules, commit-Booked) depth 10
