-- ===== src/Ipc/Client/Accounting.antt =====
-- common/ipc-client.ts: requests and their answers.
pub mod Requests
pub mod Runs
use mesh_talk.Common.{
  ℕ, suc, ◌+◌, ◌≤◌, ◌<◌, ◌≡◌, refl, ap, ◌∙◌, subst, inl, inr, arith, Bool, true, false, ◌&&◌,
  Option, none, some, List, [], ◌∷◌, ◌++◌, Text, ltb, nat_beq, nat_eq, ◌==◌, contains, add, remove,
  sum_by, sum_by-append, Bool-cases, Option-cases, if◌then◌else◌,
}
use mesh_talk.Common.Strings.{trim, is_empty_text, take_lines}
use mesh_talk.Ipc.Client.{
  IpcClient, Response, SocketKind, unix, tcp, Output, opened, destroyed, wrote_token, wrote_request,
  connect_resolved, connect_rejected, send_rejected, resolved, resolved_closed, called,
  called_disconnect, emit, settle_all, calls,
}

abbrev pub one_if : Bool → ℕ
one_if true = 1
one_if false = 0

-- an output that answers the request
abbrev pub answers : ℕ → Output → ℕ
answers k (resolved id r) = one_if (nat_beq id k)
answers k (resolved_closed id) = one_if (nat_beq id k)
answers k o = 0

-- how often the promise of a request was resolved
unfoldable pub times_resolved : ℕ → List Output → ℕ
unfolding sum_by
times_resolved k out = sum_by (answers k) out

-- how often a request stands among the pending ones
unfoldable pub times_pending : ℕ → List ℕ → ℕ
unfolding sum_by
times_pending k ids = sum_by (λ id. one_if (nat_beq id k)) ids

-- every request has been answered once or is pending once
abbrev pub IsAccounted : IpcClient → Type 0
IsAccounted c = (k : ℕ) → times_resolved k c.out + times_pending k c.pending ≡ one_if (ltb k c.id)

times_resolved-append :
    (k : ℕ) (a b : List Output)
    → times_resolved k (a ++ b) ≡ times_resolved k a + times_resolved k b
unfolding times_resolved
times_resolved-append k a b = sum_by-append (answers k) a b

times_resolved_one : (k : ℕ) (o : Output) → times_resolved k (o ∷ []) ≡ answers k o
unfolding times_resolved
times_resolved_one k o = omega arith

times_resolved-settle_all :
    (k : ℕ) (ids : List ℕ) → times_resolved k (settle_all ids) ≡ times_pending k ids
unfolding times_resolved times_pending settle_all
times_resolved-settle_all k [] = refl
times_resolved-settle_all k (id ∷ ids) = omega (arith, times_resolved-settle_all k ids)

times_resolved-calls :
    (k : ℕ) (faults : ℕ → Bool) (call : ℕ → Output)
    → ((h : ℕ) → answers k (call h) ≡ 0)
    → (hs : List ℕ) → times_resolved k (calls faults call hs) ≡ 0
unfolding times_resolved calls
times_resolved-calls k faults call silent [] = refl
times_resolved-calls k faults call silent (h ∷ hs) = elim (Bool-cases (faults h)) [
  | inl e ↦ rw e (omega (arith, silent h))
  | inr e ↦ rw e (omega (arith, silent h, times_resolved-calls k faults call silent hs))
]

times_pending-contains : (k : ℕ) (ids : List ℕ) → one_if (contains k ids) ≤ times_pending k ids
unfolding times_pending contains
times_pending-contains k [] = omega arith
times_pending-contains k (id ∷ ids) = ground (arith, times_pending-contains k ids)

times_pending_absent : (k : ℕ) (ids : List ℕ) → contains k ids ≡ false → times_pending k ids ≡ 0
unfolding times_pending contains
times_pending_absent k [] h = refl
times_pending_absent k (id ∷ ids) h = ground (arith, times_pending_absent k ids)

times_pending-append :
    (k id : ℕ) (ids : List ℕ)
    → times_pending k (ids ++ id ∷ []) ≡ times_pending k ids + one_if (nat_beq id k)
unfolding times_pending
times_pending-append k id ids =
    omega (arith, sum_by-append (λ id. one_if (nat_beq id k)) ids (id ∷ []))

times_pending-remove :
    (k id : ℕ) (ids : List ℕ)
    → times_pending k (remove id ids) ≡ (if nat_beq id k then 0 else times_pending k ids)
unfolding times_pending remove
times_pending-remove k id [] = ground arith
times_pending-remove k id (j ∷ ids) = ground (arith, times_pending-remove k id ids)

times_pending_nil : (k : ℕ) → times_pending k [] ≡ 0
unfolding times_pending
times_pending_nil k = refl

emit-IsAccounted :
    (o : Output) (c : IpcClient)
    → ((k : ℕ) → answers k o ≡ 0)
    → IsAccounted c
    → IsAccounted (emit o c)
emit-IsAccounted o c silent h k =
    omega (arith, h k, silent k, times_resolved_one k o, times_resolved-append k c.out (o ∷ []))
