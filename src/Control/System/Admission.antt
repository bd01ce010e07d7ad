-- ===== src/Control/System/Admission.antt =====
-- control/src/worker.ts: the admission of a message, its books and its limits.
use mathlib.Core.List.{append_assoc}
use mesh_talk.Common.{
  ℕ, ◌≡◌, sym, ap, subst, false, Option, none, some, List, [], ◌∷◌, ◌++◌, Text, inl, inr, arith,
  ltb, text_eq, nat_beq_iff, beq-cases, Bool-cases, if◌then◌else◌,
}
use mesh_talk.Common.Exec.{Result, ok, err, throw, modify, continue, with_some, ◌>>=◌}
use mesh_talk.Common.Exec.Keeps.{Keeps, Keeps-if, keeps_rules}
use mesh_talk.Control.Config.{max_control_message_bytes}
use mesh_talk.Control.State.{
  Socket, ControlMessage, ControlError, PendingMessage, ControlRoom, Platform, M,
  invalid_control_message,
}
use mesh_talk.Control.Limits.{check_rate_limit, check_relay_rate_limit}
use mesh_talk.Control.Pending.{Raw, data_of, other, is_relay, is_full, enqueue, admit_raw}
use mesh_talk.Control.Pending.Accounts.{tally-append_one, account, IsAccounted, enqueue-IsAccounted}
use mesh_talk.Control.Messages.{admit_message}
use mesh_talk.Control.System.Books.{SameBooks, SameBooks-refl, rate_books, relay_rate_books}
use mesh_talk.Control.System.Flight.{IsCapped, Booked, SameBooks-Booked, reject_client-Booked}

module _ (ip : Socket → Text) (flight : List PendingMessage) (r : ControlRoom) (s : Socket)
    (m : ControlMessage) (n : ℕ) where
  abbrev entry : PendingMessage
  entry = record { socket = s; message = m; bytes = n }

  -- One more message is within the limits where the test for a full queue fails.
  IsCapped-append :
      IsAccounted ip flight r
      → IsCapped ip flight
      → is_full r (r.objects s) (account (r.objects s).ip r) n ≡ false
      → IsCapped ip (flight ++ entry ∷ [])
  unfolding is_full
  IsCapped-append h c room = record {
    total = rw tally-append_one (ground (arith, h.total));
    clients = λ j.
        rw tally-append_one
          (ground (arith, h.clients s, h.clients j, c.clients j, nat_beq_iff s j));
    accounts = λ a. elim (beq-cases (ip s) a) [
      | inl (t, e) ↦
          rw (tally-append_one, t) (ground (arith, e, t, h.addresses s, h.accounts a, c.accounts a))
      | inr f ↦ rw tally-append_one (ground (arith, f, c.accounts a))
    ];
  }

module _ (ip : Socket → Text) (held : List PendingMessage) (s : Socket) (n : ℕ) where
  enqueue-Booked :
      (r r' : ControlRoom) (m : ControlMessage)
      → Booked ip held r
      → SameBooks r r'
      → is_full r (r.objects s) (account (r.objects s).ip r) n ≡ false
      → Booked ip held (enqueue s m n r')
  enqueue-Booked r r' m h b room =
      let h' = SameBooks-Booked ip held r r' b h in
      let e = entry ip r'.queue r' s m n in
      record {
        accounted =
            unfold enqueue in
            subst (λ es. IsAccounted ip es (enqueue s m n r')) (append_assoc held r'.queue (e ∷ []))
              (enqueue-IsAccounted ip (held ++ r'.queue) r' h'.accounted s m n);
        capped =
            unfold enqueue in
            subst (IsCapped ip) (ap (λ q. held ++ (q ++ e ∷ [])) (sym b.queue)) (
              subst (IsCapped ip) (append_assoc held r.queue (e ∷ []))
                (IsCapped-append ip (held ++ r.queue) r s m n h.accounted h.capped room));
        phase = unfold enqueue in h'.phase;
      }

  module _ (r : ControlRoom) (m : ControlMessage) (h : Booked ip held r)
      (room : is_full r (r.objects s) (account (r.objects s).ip r) n ≡ false) where
    continue-Booked :
        (res : Result ControlError (Unit {0})) (r' : ControlRoom)
        → SameBooks r r'
        → Booked ip held (continue res r' (λ _. modify (enqueue s m n))).1
    unfolding modify
    continue-Booked (ok t) r' b = enqueue-Booked r r' m h b room
    continue-Booked (err x) r' b = SameBooks-Booked ip held r r' b h

    check-Booked :
        (check : M (Unit {0}))
        → Keeps (SameBooks r) check
        → Booked ip held ((check >>= λ _. modify (enqueue s m n)) r).1
    unfolding ◌>>=◌
    check-Booked check k = continue-Booked (check r).0 (check r).1 (k.at r (SameBooks-refl r))

  parsed-Booked :
      (p : Platform) (r : ControlRoom) (parsed : Option ControlMessage)
      → Booked ip held r
      → is_full r (r.objects s) (account (r.objects s).ip r) n ≡ false
      → Booked ip held
          (with_some parsed
            (λ m.
              (if is_relay m then check_relay_rate_limit p s else check_rate_limit p s m.type)
              >>= λ _. modify (enqueue s m n))
            (throw invalid_control_message)
            r).1
  unfolding with_some throw
  parsed-Booked p r none h room = h
  parsed-Booked p r (some m) h room =
      check-Booked r m h room _ (search (Keeps-if, relay_rate_books, rate_books))

pub admit_raw-Booked :
    (ip : Socket → Text) (held : List PendingMessage) (p : Platform) (s : Socket) (raw : Raw)
    → Keeps (Booked ip held) (admit_raw p s raw)
unfolding admit_raw ◌>>=◌
admit_raw-Booked ip held p s other = record { at = λ r h. h }
admit_raw-Booked ip held p s (data_of len n parsed) = record {
  at = λ r h. elim (Bool-cases (ltb max_control_message_bytes len)) [
    | inl long ↦ rw long h
    | inr short ↦ rw short (elim (Bool-cases (ltb max_control_message_bytes n)) [
      | inl long ↦ rw long h
      | inr small ↦
          rw small (elim (Bool-cases (is_full r (r.objects s) (account (r.objects s).ip r) n)) [
            | inl full ↦ rw full h
            | inr room ↦ rw room (parsed-Booked ip held s n p r parsed h room)
          ])
    ])
  ];
}

-- `admitMessage` keeps the books and the limits, whatever it is sent.
pub admit_message-Booked :
    (ip : Socket → Text) (held : List PendingMessage) (p : Platform) (s : Socket) (raw : Raw)
    → Keeps (Booked ip held) (admit_message p s raw)
unfolding admit_message
admit_message-Booked ip held p s raw =
    search (keeps_rules, admit_raw-Booked, reject_client-Booked) depth 8
