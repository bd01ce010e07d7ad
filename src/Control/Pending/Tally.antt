-- ===== src/Control/Pending/Tally.antt =====
-- control/src/worker.ts: tallies of parts of the queue, and the release of several messages.
use mesh_talk.Common.{◌+◌, ◌≤◌, ◌≡◌, refl, ◌∙◌, Bool, not, List, [], ◌∷◌, ◌++◌, Text, arith, keep}
use mesh_talk.Common.Exec.{ok, for_each, bind-ok}
use mesh_talk.Control.State.{Socket, PendingMessage, PendingCount, ControlRoom}
use mesh_talk.Control.Pending.{release_client, release_ip, release_pending}
use mesh_talk.Control.Pending.Accounts.{
  tally, IsAccounted, released, release_pending-eq, released-IsAccounted,
}

abbrev plus : PendingCount → PendingCount → PendingCount
plus c d = record { messages = c.messages + d.messages; bytes = c.bytes + d.bytes }

module _ (p : PendingMessage → Bool) where
  tally-append : (es fs : List PendingMessage) → tally p (es ++ fs) ≡ plus (tally p es) (tally p fs)
  unfolding tally
  tally-append [] fs = ground arith
  tally-append (e ∷ es) fs = ground (arith, tally-append es fs)

  tally-keep :
      (q : PendingMessage → Bool) (es : List PendingMessage)
      → plus (tally p (keep q es)) (tally p (keep (λ e. not (q e)) es)) ≡ tally p es
  unfolding tally keep
  tally-keep q [] = ground arith
  tally-keep q (e ∷ es) = ground (arith, tally-keep q es)

  -- a queue taken apart by a test has the same tallies
  pub tally-parts :
      (q : PendingMessage → Bool) (held es : List PendingMessage)
      → tally p (held ++ es) ≡ tally p (keep q es ++ (held ++ keep (λ e. not (q e)) es))
  tally-parts q held es = ground (
    arith,
    tally-append held es,
    tally-append held (keep (λ e. not (q e)) es),
    tally-append (keep q es) (held ++ keep (λ e. not (q e)) es),
    tally-keep q es,
  )

  -- a part of the queue has at most its tally
  pub tally-keep-le :
      (q : PendingMessage → Bool) (held es : List PendingMessage)
      → ((tally p (held ++ keep q es)).messages ≤ (tally p (held ++ es)).messages)
        × ((tally p (held ++ keep q es)).bytes ≤ (tally p (held ++ es)).bytes)
  tally-keep-le q held es =
      ground (arith, tally-append held es, tally-append held (keep q es), tally-keep q es)

  pub tally-tail-le :
      (e : PendingMessage) (es : List PendingMessage)
      → ((tally p es).messages ≤ (tally p (e ∷ es)).messages)
        × ((tally p es).bytes ≤ (tally p (e ∷ es)).bytes)
  unfolding tally
  tally-tail-le e es = ground arith

-- Releasing messages in flight does not throw, and leaves the accounts of the others.
pub release_all :
    (ip : Socket → Text) (es flight : List PendingMessage) (r : ControlRoom)
    → IsAccounted ip (es ++ flight) r
    → (r' : ControlRoom) × (for_each es release_pending r ≡ (ok tt, r'))
      × IsAccounted ip flight r'
      × (r'.phase ≡ r.phase)
unfolding for_each release_client release_ip
release_all ip [] flight r h = (r, refl, h, refl)
release_all ip (e ∷ es) flight r h =
    let h' = released-IsAccounted ip e (es ++ flight) r h in
    let (r', done, a, q) = release_all ip es flight (released ip e (es ++ flight) r h) h' in
    (
      r',
      bind-ok (release_pending e) (λ _. for_each es release_pending) {s = r}
            (release_pending-eq ip e (es ++ flight) r h)
          ∙ done,
      a,
      q,
    )
