-- ===== src/Control/System/Flight.antt =====
-- control/src/worker.ts: the queue in the whole service, and the messages in flight.
use mesh_talk.Common.{
  ℕ, ◌≤◌, ◌≡◌, sym, subst, Bool, true, not, some, List, ◌++◌, Text, arith, nat_eq, keep, remove,
}
use mesh_talk.Common.Dict.{Dict}
use mesh_talk.Common.Exec.{modify, ◌>>=◌}
use mesh_talk.Common.Exec.Keeps.{Keeps, keeps_rules}
use mesh_talk.Control.Config.{
  max_pending_messages, max_pending_message_bytes, max_pending_messages_per_client,
  max_pending_message_bytes_per_client, max_pending_messages_per_ip,
  max_pending_message_bytes_per_ip,
}
use mesh_talk.Control.State.{
  Socket, ControlError, PendingMessage, PendingCount, ControlRoom, Platform, M, Frame, Output,
  DeviceLimit, send, write_output, write_client, write_sockets, write_limits,
}
use mesh_talk.Control.Rooms.{leave_room}
use mesh_talk.Control.Pending.{is_of}
use mesh_talk.Control.Pending.Accounts.{tally, is_from, IsAccounted, IsAccounted-tally}
use mesh_talk.Control.Pending.Tally.{tally-parts, tally-keep-le, release_all}
use mesh_talk.Control.Close.{
  drop_queued, unregister, forget_connection, handle_close, reject_client,
}
use mesh_talk.Control.System.{held_by}
use mesh_talk.Control.System.Books.{
  SameBooks, SameBooks-refl, SameBooks-IsAccounted, send_books, sockets_books, limits_books,
  identify_books, output_books, forget_books, remove_books, leave_books, unregister_books,
}

abbrev pub Fits : PendingCount → ℕ → ℕ → Type 0
Fits c messages bytes = (c.messages ≤ messages) × (c.bytes ≤ bytes)

-- the limits on the messages in flight: in all, of a client, of an address
pub record IsCapped (ip : Socket → Text) (flight : List PendingMessage) : Type 0 where
  pub total : Fits (tally (λ _. true) flight) max_pending_messages max_pending_message_bytes
  pub clients :
      (s : Socket)
      → Fits
          (tally (is_of s) flight)
          max_pending_messages_per_client
          max_pending_message_bytes_per_client
  pub accounts :
      (a : Text)
      → Fits
          (tally (is_from ip a) flight)
          max_pending_messages_per_ip
          max_pending_message_bytes_per_ip

pub record Booked (ip : Socket → Text) (held : List PendingMessage) (r : ControlRoom) : Type 0 where
  pub accounted : IsAccounted ip (held ++ r.queue) r
  pub capped : IsCapped ip (held ++ r.queue)
  pub phase : held_by r.phase ≡ held

module _ (ip : Socket → Text) (held : List PendingMessage) where
  pub SameBooks-Booked :
      (r₀ r : ControlRoom) → SameBooks r₀ r → Booked ip held r₀ → Booked ip held r
  SameBooks-Booked r₀ r b h = record {
    accounted =
        subst (λ q. IsAccounted ip (held ++ q) r) (sym b.queue)
          (SameBooks-IsAccounted ip (held ++ r₀.queue) r₀ r b h.accounted);
    capped = rw b.queue h.capped;
    phase = rw b.phase h.phase;
  }

  pub Booked-of_books :
      {A : Type 0} (m : M A)
      → ((r₀ : ControlRoom) → Keeps (SameBooks r₀) m)
      → Keeps (Booked ip held) m
  Booked-of_books m k = record {
    at = λ r h. SameBooks-Booked r (m r).1 ((k r).at r (SameBooks-refl r)) h;
  }

  IsCapped-keep :
      (q : PendingMessage → Bool) (es : List PendingMessage)
      → IsCapped ip (held ++ es)
      → IsCapped ip (held ++ keep q es)
  IsCapped-keep q es c = record {
    total = omega (arith, c.total, tally-keep-le (λ _. true) q held es);
    clients = λ s. omega (arith, c.clients s, tally-keep-le (is_of s) q held es);
    accounts = λ a. omega (arith, c.accounts a, tally-keep-le (is_from ip a) q held es);
  }

  drop_queued-Booked : (s : Socket) → Keeps (Booked ip held) (drop_queued s)
  unfolding drop_queued ◌>>=◌
  drop_queued-Booked s = record {
    at = λ r h.
        let left = keep (λ e. not (is_of s e)) r.queue in
        let (r', done, a, same) = release_all ip (keep (is_of s) r.queue) (held ++ left) r (
          IsAccounted-tally ip (held ++ r.queue) (keep (is_of s) r.queue ++ (held ++ left)) r
            (λ p. tally-parts p (is_of s) held r.queue) h.accounted) in
        rw done (record {
          accounted = record {
            addresses = a.addresses;
            total = a.total;
            clients = a.clients;
            accounts = a.accounts;
          };
          capped = IsCapped-keep (λ e. not (is_of s e)) r.queue h.capped;
          phase = rw same h.phase;
        });
  }

  pub sockets-Booked :
      (f : Dict Text Socket → Dict Text Socket) → Keeps (Booked ip held) (write_sockets f)
  sockets-Booked f = Booked-of_books _ (λ r₀. sockets_books r₀ f)

  pub limits-Booked :
      (f : Dict Text DeviceLimit → Dict Text DeviceLimit) → Keeps (Booked ip held) (write_limits f)
  limits-Booked f = Booked-of_books _ (λ r₀. limits_books r₀ f)

  pub identify-Booked :
      (s : Socket) (id : Text)
      → Keeps (Booked ip held) (write_client s (λ d. record d { peer_id = some id }))
  identify-Booked s id = Booked-of_books _ (λ r₀. identify_books r₀ s id)

  pub send-Booked : (p : Platform) (s : Socket) (f : Frame) → Keeps (Booked ip held) (send p s f)
  send-Booked p s f = Booked-of_books _ (λ r₀. send_books r₀ p s f)

  pub output-Booked : (o : Output) → Keeps (Booked ip held) (write_output o)
  output-Booked o = Booked-of_books _ (λ r₀. output_books r₀ o)

  forget-Booked :
      (a : Text) → Keeps {E = ControlError} (Booked ip held) (modify (forget_connection a))
  forget-Booked a = Booked-of_books _ (λ r₀. forget_books r₀ a)

  remove-Booked :
      (j : Socket)
      → Keeps {E = ControlError}
          (Booked ip held)
          (modify (λ r. record r { clients = remove j r.clients }))
  remove-Booked j = Booked-of_books _ (λ r₀. remove_books r₀ j)

  leave-Booked :
      (p : Platform) (s : Socket) (id : Text) → Keeps (Booked ip held) (leave_room p s id)
  leave-Booked p s id = Booked-of_books _ (λ r₀. leave_books r₀ p s id)

  unregister-Booked : (s : Socket) (id : Text) → Keeps (Booked ip held) (unregister s id)
  unregister-Booked s id = Booked-of_books _ (λ r₀. unregister_books r₀ s id)

  -- The end of a connection, whatever fails on the way.
  pub handle_close-Booked : (p : Platform) (s : Socket) → Keeps (Booked ip held) (handle_close p s)
  unfolding handle_close
  handle_close-Booked p s =
      search
        (
          keeps_rules, drop_queued-Booked, forget-Booked, remove-Booked, leave-Booked,
          unregister-Booked,
        )
        depth 12

  pub reject_client-Booked :
      (p : Platform) (s : Socket) (e : ControlError) → Keeps (Booked ip held) (reject_client p s e)
  unfolding reject_client
  reject_client-Booked p s e =
      search (keeps_rules, handle_close-Booked, send-Booked, output-Booked) depth 8
