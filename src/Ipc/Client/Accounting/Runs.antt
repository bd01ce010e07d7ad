-- ===== src/Ipc/Client/Accounting/Runs.antt =====
-- common/ipc-client.ts: the account of the requests over any sequence of events.
use mesh_talk.Common.{
  ℕ, ◌+◌, ◌<◌, ◌≡◌, refl, ◌∙◌, inl, inr, arith, Bool, true, false, Option, List, [], ◌∷◌, Text, ltb,
  nat_eq, Bool-cases,
}
use mesh_talk.Ipc.Client.{
  IpcClient, Response, new_client, connect, authenticate, close, send, on_close, on_event,
  off_event, on_disconnect, off_disconnect, answer_connect, settle_connect, settle_pending,
  call_disconnect, Event, connecting, connected, failing, receiving, sending, closing, lost,
  listening, leaving, watching, unwatching, step, run,
}
use mesh_talk.Ipc.Client.Accounting.{
  one_if, times_resolved, times_pending, times_pending_nil, IsAccounted,
}
use mesh_talk.Ipc.Client.Accounting.Requests.{
  open_first-IsAccounted, answer_token-IsAccounted, on_error-IsAccounted, destroy-IsAccounted,
  send_on-IsAccounted, on_data-IsAccounted, settle_connect-IsAccounted, settle_pending-IsAccounted,
  call_disconnect-IsAccounted,
}

answer_connect_id :
    (intended resolve : Bool) (c : IpcClient) → (answer_connect intended resolve c).id ≡ c.id
answer_connect_id false resolve c = refl
answer_connect_id true false c = refl
answer_connect_id true true c = refl

settle_connect_id : (c : IpcClient) → (settle_connect c).id ≡ c.id
unfolding settle_connect
settle_connect_id c = elim (Bool-cases c.connect_reject) [
  | inl e ↦ simp e (
      answer_connect_id c.intentionally_closed c.connect_resolve
        (record c { connect_resolve = false; connect_reject = false }))
  | inr e ↦ simp e refl
]

module _ (breaks : ℕ → Bool) where
  call_disconnect_id : (c : IpcClient) → (call_disconnect breaks c).id ≡ c.id
  unfolding call_disconnect
  call_disconnect_id c = elim (Bool-cases c.intentionally_closed) [
    | inl e ↦ simp e refl
    | inr e ↦ simp e refl
  ]

  on_close_id : (c : IpcClient) → (on_close breaks c).id ≡ c.id
  unfolding on_close settle_pending
  on_close_id c = elim (Bool-cases c.closed) [
    | inl e ↦ simp e refl
    | inr e ↦
        let first = record c { closed = true } in
        simp e
          (call_disconnect_id (settle_pending (settle_connect first)) ∙ settle_connect_id first)
  ]

  on_close-IsAccounted : (c : IpcClient) → IsAccounted c → IsAccounted (on_close breaks c)
  unfolding on_close
  on_close-IsAccounted c h = elim (Bool-cases c.closed) [
    | inl e ↦ simp e h
    | inr e ↦
        let first = record c { closed = true } in
        simp e (
          call_disconnect-IsAccounted breaks (settle_pending (settle_connect first)) (
            settle_pending-IsAccounted (settle_connect first) (settle_connect-IsAccounted first h)))
  ]

  -- nothing is pending after it
  on_close_pending : (c : IpcClient) → c.closed ≡ false → (on_close breaks c).pending ≡ []
  unfolding on_close settle_pending call_disconnect
  on_close_pending c e =
      elim (Bool-cases (settle_connect (record c { closed = true })).intentionally_closed) [
        | inl f ↦ simp (e, f) refl
        | inr f ↦ simp (e, f) refl
      ]

module _ (parse : Text → Option Response) (faults : ℕ → Response → Bool) (breaks : ℕ → Bool) where
  step-IsAccounted :
      (e : Event) (c : IpcClient) → IsAccounted c → IsAccounted (step parse faults breaks e c)
  unfolding step connect authenticate close send on_event off_event on_disconnect off_disconnect
  step-IsAccounted (connecting s) c h = open_first-IsAccounted s s.forced_port _ h
  step-IsAccounted (connected s) c h = answer_token-IsAccounted s.token c h
  step-IsAccounted (failing s kind) c h = on_error-IsAccounted s kind c h
  step-IsAccounted (receiving text) c h = on_data-IsAccounted faults parse text c h
  step-IsAccounted (sending action) c h = send_on-IsAccounted c.socket action c h
  step-IsAccounted closing c h =
      destroy-IsAccounted c.socket (record c { intentionally_closed = true }) h
  step-IsAccounted lost c h = on_close-IsAccounted breaks c h
  step-IsAccounted (listening handler) c h = h
  step-IsAccounted (leaving handler) c h = h
  step-IsAccounted (watching handler) c h = h
  step-IsAccounted (unwatching handler) c h = h

  run-IsAccounted :
      (es : List Event) (c : IpcClient) → IsAccounted c → IsAccounted (run parse faults breaks es c)
  unfolding run
  run-IsAccounted [] c h = h
  run-IsAccounted (e ∷ es) c h =
      run-IsAccounted es (step parse faults breaks e c) (step-IsAccounted e c h)

  new_client-IsAccounted : IsAccounted new_client
  unfolding times_resolved times_pending
  new_client-IsAccounted k = ground arith

  -- After any events, a request that was sent was resolved once and is not pending, or it is
  -- pending once and was not resolved; and no promise is resolved for a request that was not sent.
  pub run-resolved_once :
      (events : List Event) (k : ℕ)
      → times_resolved k (run parse faults breaks events new_client).out
          + times_pending k (run parse faults breaks events new_client).pending
        ≡ one_if (ltb k (run parse faults breaks events new_client).id)
  run-resolved_once events k = run-IsAccounted events new_client new_client-IsAccounted k

  -- When the connection ends, whatever the events before, every request that was sent has been
  -- resolved, and only once: by its response, or now by the end of the connection. The connection
  -- must not have ended before.
  pub on_close-resolved :
      (events : List Event)
      → (run parse faults breaks events new_client).closed ≡ false
      → (k : ℕ) → k < (run parse faults breaks events new_client).id
      → times_resolved k (on_close breaks (run parse faults breaks events new_client)).out ≡ 1
  on_close-resolved events is_open k sent =
      let c = run parse faults breaks events new_client in
      ground (
        arith,
        on_close-IsAccounted breaks c (run-IsAccounted events new_client new_client-IsAccounted) k,
        on_close_pending breaks c is_open,
        on_close_id breaks c,
        times_pending_nil k,
      )
