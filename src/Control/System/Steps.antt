-- ===== src/Control/System/Steps.antt =====
-- control/src/worker.ts: the queue's books and limits over all events.
use mesh_talk.Common.{
  ◌+◌, ◌/◌, ◌≡◌, ◌≢◌, refl, sym, subst, true, List, [], ◌∷◌, ◌++◌, Text, inl, inr, arith, nat_eq,
  nat_beq_iff, text_eq, Bool-cases, All, leb,
}
use mesh_talk.Common.Dict.{get, or_else}
use mesh_talk.Control.Config.{max_connections, max_connections_per_ip}
use mesh_talk.Common.Exec.{modify, ◌>>=◌}
use mesh_talk.Common.Exec.Keeps.{Keeps, keeps_rules}
use mesh_talk.Control.State.{
  Socket, ClientData, PendingMessage, ControlRoom, Platform, Phase, idle, verifying, settled, sent,
  device_challenge, update, send, write_output,
}
use mesh_talk.Control.Pending.{is_of, no_messages, release_client, release_ip}
use mesh_talk.Control.Pending.Accounts.{
  tally, is_from, IsAccounted, release_pending-eq, released-IsAccounted,
}
use mesh_talk.Control.Pending.Tally.{tally-tail-le}
use mesh_talk.Control.Messages.{
  register_client, new_client, connect, handle_registration, set_phase, run_entry, take_entry,
  shift_queue, drain_next, resume_phase, resume, settle_phase, settle,
}
use mesh_talk.Control.System.{
  held_by, IsFresh, Step, accept, receive, drain, resumed, release, failed, close, init, Reach,
  start, next,
}
use mesh_talk.Control.System.Flight.{
  IsCapped, Booked, output-Booked, handle_close-Booked, reject_client-Booked,
}
use mesh_talk.Control.System.Admission.{admit_message-Booked}
use mesh_talk.Control.System.Handlers.{handle_message-Booked, begin-Booked, finish-Booked}

-- The books of the state as it stands.
abbrev pub IsBooked : ControlRoom → Type 0
IsBooked r = (ip : Socket → Text) × Booked ip (held_by r.phase) r

IsBooked-of_held :
    (ip : Socket → Text) (held : List PendingMessage) (r : ControlRoom)
    → Booked ip held r
    → IsBooked r
IsBooked-of_held ip held r h = (ip, subst (λ es. Booked ip es r) (sym h.phase) h)

module _ (ip : Socket → Text) (e : PendingMessage) where
  verifying-Booked : Keeps (Booked ip (e ∷ [])) (set_phase (verifying e))
  unfolding modify
  verifying-Booked = record {
    at = λ r h. record {
      accounted = record {
        addresses = h.accounted.addresses;
        total = h.accounted.total;
        clients = h.accounted.clients;
        accounts = h.accounted.accounts;
      };
      capped = h.capped;
      phase = refl;
    };
  }

  settled-Booked : Keeps (Booked ip (e ∷ [])) (set_phase (settled e))
  unfolding modify
  settled-Booked = record {
    at = λ r h. record {
      accounted = record {
        addresses = h.accounted.addresses;
        total = h.accounted.total;
        clients = h.accounted.clients;
        accounts = h.accounted.accounts;
      };
      capped = h.capped;
      phase = refl;
    };
  }

  registration-Booked : (p : Platform) → Keeps (Booked ip (e ∷ [])) (handle_registration p e)
  unfolding handle_registration
  registration-Booked p =
      search (keeps_rules, begin-Booked, reject_client-Booked, verifying-Booked) depth 10

  run_entry-Booked : (p : Platform) → Keeps (Booked ip (e ∷ [])) (run_entry p e)
  unfolding run_entry
  run_entry-Booked p =
      search (keeps_rules, registration-Booked, handle_message-Booked, reject_client-Booked) depth 8

  resume-Booked : (p : Platform) → Keeps (Booked ip (e ∷ [])) (resume_phase p (verifying e))
  resume-Booked p =
      search (keeps_rules, settled-Booked, finish-Booked, reject_client-Booked) depth 10

  -- the entry leaves the queue for the drain
  take-Booked :
      (queue : List PendingMessage) (r : ControlRoom)
      → r.queue ≡ e ∷ queue
      → Booked ip [] r
      → Booked ip (e ∷ []) (take_entry e queue r)
  unfolding take_entry
  take-Booked queue r q h = record {
    accounted =
        let a = subst (λ es. IsAccounted ip es r) q h.accounted in
        record {
          addresses = a.addresses;
          total = a.total;
          clients = a.clients;
          accounts = a.accounts;
        };
    capped = subst (IsCapped ip) q h.capped;
    phase = refl;
  }

  IsCapped-tail : (flight : List PendingMessage) → IsCapped ip (e ∷ flight) → IsCapped ip flight
  IsCapped-tail flight c = record {
    total = omega (arith, c.total, tally-tail-le (λ _. true) e flight);
    clients = λ s. omega (arith, c.clients s, tally-tail-le (is_of s) e flight);
    accounts = λ a. omega (arith, c.accounts a, tally-tail-le (is_from ip a) e flight);
  }

module _ (ip : Socket → Text) (p : Platform) where
  shift-IsBooked :
      (r : ControlRoom) (phase : Phase) (queue : List PendingMessage)
      → r.phase ≡ phase
      → r.queue ≡ queue
      → Booked ip (held_by r.phase) r
      → IsBooked (shift_queue phase queue p r).1
  unfolding ◌>>=◌
  shift-IsBooked r idle (e ∷ queue) ph q h =
      let taken = take-Booked ip e queue r q (subst (λ x. Booked ip (held_by x) r) ph h) in
      IsBooked-of_held ip (e ∷ []) _ ((run_entry-Booked ip e p).at (take_entry e queue r) taken)
  shift-IsBooked r idle [] ph q h = (ip, h)
  shift-IsBooked r (verifying e) queue ph q h = (ip, h)
  shift-IsBooked r (settled e) queue ph q h = (ip, h)

  resume-IsBooked :
      (r : ControlRoom) (phase : Phase)
      → r.phase ≡ phase
      → Booked ip (held_by r.phase) r
      → IsBooked (resume_phase p phase r).1
  unfolding ◌>>=◌
  resume-IsBooked r (verifying e) ph h =
      IsBooked-of_held ip (e ∷ []) _
        ((resume-Booked ip e p).at r (subst (λ x. Booked ip (held_by x) r) ph h))
  resume-IsBooked r idle ph h = (ip, h)
  resume-IsBooked r (settled e) ph h = (ip, h)

settle-IsBooked :
    (ip : Socket → Text) (r : ControlRoom) (phase : Phase)
    → r.phase ≡ phase
    → Booked ip (held_by r.phase) r
    → IsBooked (settle_phase phase r).1
unfolding ◌>>=◌ release_client release_ip
settle-IsBooked ip r (settled e) ph h =
    let h' = subst (λ x. Booked ip (held_by x) r) ph h in
    let r₁ = record r { phase = idle } in
    let a : IsAccounted ip (e ∷ r.queue) r₁ = record {
      addresses = h'.accounted.addresses;
      total = h'.accounted.total;
      clients = h'.accounted.clients;
      accounts = h'.accounted.accounts;
    } in
    let b = released-IsAccounted ip e r.queue r₁ a in
    rw (release_pending-eq ip e r.queue r₁ a)
      (ip, record { accounted = b; capped = IsCapped-tail ip e r.queue h'.capped; phase = refl })
settle-IsBooked ip r idle ph h = (ip, h)
settle-IsBooked ip r (verifying e) ph h = (ip, h)

-- A new socket has no message in flight, so that it does not matter for the tallies.
module _ (s : Socket) (a : Text) where
  tally-unused :
      (flight : List PendingMessage)
      → All (λ e. e.socket ≢ s) flight
      → tally (is_of s) flight ≡ no_messages
  unfolding tally
  tally-unused [] h = refl
  tally-unused (e ∷ flight) h = ground (arith, h.0, nat_beq_iff e.socket s, tally-unused flight h.1)

  tally-is_from :
      (ip : Socket → Text) (b : Text) (flight : List PendingMessage)
      → All (λ e. e.socket ≢ s) flight
      → tally (is_from (update ip s a) b) flight ≡ tally (is_from ip b) flight
  unfolding tally
  tally-is_from ip b [] h = refl
  tally-is_from ip b (e ∷ flight) h =
      ground (arith, h.0, nat_beq_iff s e.socket, tally-is_from ip b flight h.1)

  accept-IsBooked :
      (ip : Socket → Text) (p : Platform) (r : ControlRoom) (d : ClientData)
      → d.ip ≡ a
      → d.pending_messages ≡ 0
      → d.pending_bytes ≡ 0
      → All (λ e. e.socket ≢ s) (held_by r.phase ++ r.queue)
      → Booked ip (held_by r.phase) r
      → Booked (update ip s a) (held_by r.phase) (register_client s d r)
  unfolding register_client
  accept-IsBooked ip p r d ia im ib u h =
      let flight = held_by r.phase ++ r.queue in
      record {
        accounted = record {
          addresses = λ j. ground (arith, h.accounted.addresses j, nat_beq_iff s j);
          total = h.accounted.total;
          clients =
              λ j. ground (arith, h.accounted.clients j, nat_beq_iff s j, tally-unused flight u);
          accounts = λ b. rw (tally-is_from ip b flight u) (h.accounted.accounts b);
        };
        capped = record {
          total = h.capped.total;
          clients = h.capped.clients;
          accounts = λ b. rw (tally-is_from ip b flight u) (h.capped.accounts b);
        };
        phase = refl;
      }

connect-IsBooked :
    (ip : Socket → Text) (p : Platform) (s : Socket) (a cid ch : Text) (r : ControlRoom)
    → IsFresh s r
    → Booked ip (held_by r.phase) r
    → IsBooked (connect p s a cid ch r).1
unfolding connect ◌>>=◌ send register_client write_output
connect-IsBooked ip p s a cid ch r f h = elim (Bool-cases (leb max_connections r.connections)) [
  | inl full ↦ rw full (ip, h)
  | inr room ↦
      rw room
        (elim (Bool-cases (leb max_connections_per_ip (or_else (get a r.connections_by_ip) 0))) [
          | inl many ↦ rw many (ip, h)
          | inr few ↦ rw few (elim (Bool-cases (p.broken s)) [
            | inl b ↦ rw b (update ip s a, accepted)
            | inr w ↦ rw w (
                IsBooked-of_held (update ip s a) (held_by r.phase) _ (
                  (output-Booked (update ip s a) (held_by r.phase)
                      (sent s (device_challenge cid ch (p.now / 1000 + 60)))).at
                    (register_client s (new_client p.now a cid ch) r) accepted))
          ])
        ])
]
  where
    accepted :
        Booked (update ip s a) (held_by r.phase) (register_client s (new_client p.now a cid ch) r)
    accepted =
        accept-IsBooked s a ip p r (new_client p.now a cid ch) (unfold new_client in refl)
          (unfold new_client in refl) (unfold new_client in refl) f.unused h

-- Every event keeps the books and the limits of the queue.
pub Step-IsBooked : {r r' : ControlRoom} → Step r r' → IsBooked r → IsBooked r'
unfolding drain_next resume settle ◌>>=◌
Step-IsBooked (accept p s a cid ch r f) (ip, h) = connect-IsBooked ip p s a cid ch r f h
Step-IsBooked (receive p s raw r) (ip, h) =
    IsBooked-of_held ip (held_by r.phase) _
      ((admit_message-Booked ip (held_by r.phase) p s raw).at r h)
Step-IsBooked (drain p r) (ip, h) = shift-IsBooked ip p r r.phase r.queue refl refl h
Step-IsBooked (resumed p r) (ip, h) = resume-IsBooked ip p r r.phase refl h
Step-IsBooked (release r) (ip, h) = settle-IsBooked ip r r.phase refl h
Step-IsBooked (failed p s e r) (ip, h) =
    IsBooked-of_held ip (held_by r.phase) _
      ((reject_client-Booked ip (held_by r.phase) p s e).at r h)
Step-IsBooked (close p s r) (ip, h) =
    IsBooked-of_held ip (held_by r.phase) _ ((handle_close-Booked ip (held_by r.phase) p s).at r h)

IsBooked-init : IsBooked init
unfolding tally new_client get
IsBooked-init = (
  (λ s. []),
  record {
    accounted = record {
      addresses = λ s. refl;
      total = refl;
      clients = λ s. refl;
      accounts = λ a. refl;
    };
    capped = record {
      total = omega arith;
      clients = λ s. omega arith;
      accounts = λ a. omega arith;
    };
    phase = refl;
  },
)

-- In every state that the service reaches, by any order of connections, frames, drain rounds,
-- failures and ends of connections: the three kinds of pending counters equal the number and the
-- bytes of the messages in flight (the queued ones and the one being handled), and these are at
-- most 256 messages and 4 MiB in all, 16 and 256 KiB of one client, 32 and 512 KiB of one address.
pub Reach-IsBooked : {r : ControlRoom} → Reach r → IsBooked r
Reach-IsBooked start = IsBooked-init
Reach-IsBooked (next reach step) = Step-IsBooked step (Reach-IsBooked reach)
