-- ===== src/Control/Pending/Accounts.antt =====
-- control/src/worker.ts: what the three kinds of account of the queue stand for: tallies of the
-- messages in flight, the queued ones and the one that is being handled.
use mesh_talk.Common.{
  ℕ, ◌+◌, ◌-◌, ◌≡◌, refl, ◌∙◌, Bool, true, false, some, List, [], ◌∷◌, ◌++◌, Text, inl, inr, arith,
  nat_beq_iff, text_eq, ◌==◌, beq_refl, beq-cases, Option-cases, if◌then◌else◌,
}
use mesh_talk.Common.Dict.{get, or_else, get-put, get-put_self, get-delete}
use mesh_talk.Common.Exec.{ok, with_some, ◌>>=◌}
use mesh_talk.Control.State.{
  Socket, ControlMessage, ClientData, PendingMessage, PendingCount, ControlRoom,
}
use mesh_talk.Control.Pending.{
  no_messages, is_of, enqueue, release_client, release_ip, release_pending,
}

abbrev pub count_in : PendingMessage → PendingCount → PendingCount
count_in e c = record { messages = c.messages + 1; bytes = c.bytes + e.bytes }

-- the messages of a kind, and their bytes
unfoldable pub tally : (PendingMessage → Bool) → List PendingMessage → PendingCount
tally p [] = no_messages
tally p (e ∷ es) = if p e then count_in e (tally p es) else tally p es

abbrev pub account : Text → ControlRoom → PendingCount
account a r = or_else (get a r.pending_by_ip) no_messages

abbrev pub client_count : ClientData → PendingCount
client_count d = record { messages = d.pending_messages; bytes = d.pending_bytes }

abbrev pub room_count : ControlRoom → PendingCount
room_count r = record { messages = r.pending_messages; bytes = r.pending_bytes }

abbrev pub is_from : (Socket → Text) → Text → PendingMessage → Bool
is_from ip a e = ip e.socket == a

-- `ip` gives the address of each socket
pub record IsAccounted (ip : Socket → Text) (flight : List PendingMessage) (r : ControlRoom)
    : Type 0 where
  pub addresses : (s : Socket) → (r.objects s).ip ≡ ip s
  pub total : room_count r ≡ tally (λ _. true) flight
  pub clients : (s : Socket) → client_count (r.objects s) ≡ tally (is_of s) flight
  pub accounts : (a : Text) → account a r ≡ tally (is_from ip a) flight

pub tally-append_one :
    (p : PendingMessage → Bool) (es : List PendingMessage) (e : PendingMessage)
    → tally p (es ++ e ∷ []) ≡ (if p e then count_in e (tally p es) else tally p es)
unfolding tally
tally-append_one p [] e = refl
tally-append_one p (x ∷ es) e = ground (arith, tally-append_one p es e)

tally-zero :
    (p : PendingMessage → Bool) (es : List PendingMessage)
    → (tally p es).messages ≡ 0
    → tally p es ≡ no_messages
unfolding tally
tally-zero p [] h = refl
tally-zero p (x ∷ es) h = ground (arith, tally-zero p es)

module _ (ip : Socket → Text) (flight : List PendingMessage) (r : ControlRoom)
    (h : IsAccounted ip flight r) where
  module _ (s : Socket) (m : ControlMessage) (n : ℕ) where
    abbrev entry : PendingMessage
    entry = record { socket = s; message = m; bytes = n }

    enqueue_clients :
        (j : Socket)
        → client_count ((enqueue s m n r).objects j) ≡ tally (is_of j) (flight ++ entry ∷ [])
    unfolding enqueue
    enqueue_clients j =
        rw tally-append_one (ground (arith, h.clients s, h.clients j, nat_beq_iff s j))

    enqueue_accounts :
        (a : Text) → account a (enqueue s m n r) ≡ tally (is_from ip a) (flight ++ entry ∷ [])
    unfolding enqueue
    enqueue_accounts a = elim (beq-cases (ip s) a) [
      | inl (t, e) ↦ rw tally-append_one (
          ground (
            arith,
            t,
            e,
            h.addresses s,
            h.accounts a,
            get-put_self a (count_in entry (account a r)) r.pending_by_ip,
          ))
      | inr f ↦ rw tally-append_one (
          ground (
            arith,
            f,
            h.addresses s,
            h.accounts a,
            get-put (ip s) a (count_in entry (account (ip s) r)) r.pending_by_ip,
          ))
    ]

    pub enqueue-IsAccounted : IsAccounted ip (flight ++ entry ∷ []) (enqueue s m n r)
    unfolding enqueue
    enqueue-IsAccounted = record {
      addresses = λ j. ground (arith, h.addresses j, h.addresses s, nat_beq_iff s j);
      total = rw tally-append_one (ground (arith, h.total));
      clients = enqueue_clients;
      accounts = enqueue_accounts;
    }

pub IsAccounted-tally :
    (ip : Socket → Text) (es fs : List PendingMessage) (r : ControlRoom)
    → ((p : PendingMessage → Bool) → tally p es ≡ tally p fs)
    → IsAccounted ip es r
    → IsAccounted ip fs r
IsAccounted-tally ip es fs r same h = record {
  addresses = h.addresses;
  total = h.total ∙ same (λ _. true);
  clients = λ s. h.clients s ∙ same (is_of s);
  accounts = λ a. h.accounts a ∙ same (is_from ip a);
}

module _ (ip : Socket → Text) (e : PendingMessage) (flight : List PendingMessage) (r : ControlRoom)
    (h : IsAccounted ip (e ∷ flight) r) where
  -- the account of the address before the release, and the state after it
  abbrev pub before : PendingCount
  before = count_in e (tally (is_from ip (ip e.socket)) flight)

  abbrev pub released : ControlRoom
  released = release_ip (ip e.socket) before e.bytes (release_client e r)

  before_lem : account (ip e.socket) r ≡ before
  unfolding tally
  before_lem = ground (arith, h.accounts (ip e.socket), beq_refl (ip e.socket))

  before-some : get (ip e.socket) r.pending_by_ip ≡ some before
  before-some = elim (Option-cases (get (ip e.socket) r.pending_by_ip)) [
    | inl missing ↦ ground (arith, missing, before_lem)
    | inr (c, found) ↦ ground (arith, found, before_lem)
  ]

  pub release_pending-eq : release_pending e r ≡ (ok tt, released)
  unfolding release_pending release_client ◌>>=◌ with_some
  release_pending-eq = ground (arith, h.addresses e.socket, before-some)

  released_clients : (j : Socket) → client_count (released.objects j) ≡ tally (is_of j) flight
  unfolding release_client release_ip tally
  released_clients j = ground (arith, h.clients e.socket, h.clients j, nat_beq_iff e.socket j)

  -- what is left on the account of the address
  abbrev left : PendingCount
  left = record { messages = before.messages - 1; bytes = before.bytes - e.bytes }

  left_lem : left ≡ tally (is_from ip (ip e.socket)) flight
  left_lem = ground arith

  account_of_address : account (ip e.socket) released ≡ tally (is_from ip (ip e.socket)) flight
  unfolding release_client release_ip
  account_of_address = ground (
    arith,
    left_lem,
    beq_refl (ip e.socket),
    get-delete (ip e.socket) (ip e.socket) r.pending_by_ip,
    get-put_self (ip e.socket) left r.pending_by_ip,
    tally-zero (is_from ip (ip e.socket)) flight,
  )

  account_of_other :
      (a : Text) → (ip e.socket == a) ≡ false → account a released ≡ tally (is_from ip a) flight
  unfolding release_client release_ip tally
  account_of_other a f = ground (
    arith,
    h.accounts a,
    get-delete (ip e.socket) a r.pending_by_ip,
    get-put (ip e.socket) a left r.pending_by_ip,
  )

  released_accounts : (a : Text) → account a released ≡ tally (is_from ip a) flight
  released_accounts a = elim (beq-cases (ip e.socket) a) [
    | inl (t, same) ↦ rw (← same) account_of_address
    | inr f ↦ account_of_other a f
  ]

  pub released-IsAccounted : IsAccounted ip flight released
  released-IsAccounted = record {
    addresses =
        unfold release_client release_ip in
        λ j. ground (arith, h.addresses j, h.addresses e.socket, nat_beq_iff e.socket j);
    total = unfold release_client release_ip tally in ground (arith, h.total);
    clients = released_clients;
    accounts = released_accounts;
  }
