-- ===== src/Ipc/Client/Accounting/Requests.antt =====
-- common/ipc-client.ts: every event keeps the account of the requests.
use mesh_talk.Common.{
  ℕ, ◌≡◌, refl, inl, inr, arith, Bool, true, false, ◌&&◌, Option, none, some, List, [], ◌∷◌, ◌++◌,
  Text, nat_eq, contains, add, Bool-cases, Option-cases,
}
use mesh_talk.Common.Strings.{trim, is_empty_text, take_lines}
use mesh_talk.Ipc.Client.{
  IpcClient, Response, Surroundings, SocketKind, unix, tcp, Output, opened, destroyed, wrote_token,
  wrote_request, connect_resolved, connect_rejected, send_rejected, resolved, called,
  called_disconnect, emit, settle_all, calls, not_connected, cannot_connect, cannot_authenticate,
  socket_failed, closed_early, open_port, open_first, write_token, answer_token, on_error, destroy,
  send_on, resolve_id, on_response, on_line, on_lines, on_data, answer_connect, settle_connect,
  settle_pending, call_disconnect,
}
use mesh_talk.Ipc.Client.Accounting.{
  answers, IsAccounted, times_resolved-append, times_resolved_one, times_resolved-settle_all,
  times_resolved-calls, times_pending-contains, times_pending-append, times_pending-remove,
  emit-IsAccounted, times_pending_nil,
}

calls-IsAccounted :
    (faults : ℕ → Bool) (call : ℕ → Output)
    → ((k h : ℕ) → answers k (call h) ≡ 0)
    → (hs : List ℕ) (c : IpcClient) → IsAccounted c
    → IsAccounted (record c { out = c.out ++ calls faults call hs })
calls-IsAccounted faults call silent hs c h k = omega (
  arith,
  h k,
  times_resolved-append k c.out (calls faults call hs),
  times_resolved-calls k faults call (silent k) hs,
)

open_port-IsAccounted :
    (port : Option ℕ) (c : IpcClient) → IsAccounted c → IsAccounted (open_port port c)
open_port-IsAccounted none c h = emit-IsAccounted (connect_rejected cannot_connect) c (λ k. refl) h
open_port-IsAccounted (some port) c h =
    emit-IsAccounted (opened (tcp port)) (record c { socket = some (tcp port) }) (λ k. refl) h

pub open_first-IsAccounted :
    (s : Surroundings) (forced : Option ℕ) (c : IpcClient)
    → IsAccounted c
    → IsAccounted (open_first s forced c)
open_first-IsAccounted s (some port) c h = open_port-IsAccounted (some port) c h
open_first-IsAccounted s none c h = elim (Bool-cases s.is_windows) [
  | inl e ↦ rw e (open_port-IsAccounted s.port_file c h)
  | inr e ↦ rw e (emit-IsAccounted (opened unix) (record c { socket = some unix }) (λ k. refl) h)
]

write_token-IsAccounted :
    (socket : Option SocketKind) (token : Text) (c : IpcClient)
    → IsAccounted c
    → IsAccounted (write_token socket token c)
write_token-IsAccounted none token c h = h
write_token-IsAccounted (some kind) token c h = emit-IsAccounted (wrote_token token) c (λ k. refl) h

pub answer_token-IsAccounted :
    (token : Option Text) (c : IpcClient) → IsAccounted c → IsAccounted (answer_token token c)
answer_token-IsAccounted none c h =
    emit-IsAccounted (connect_rejected cannot_authenticate) c (λ k. refl) h
answer_token-IsAccounted (some token) c h = write_token-IsAccounted c.socket token c h

pub on_error-IsAccounted :
    (s : Surroundings) (kind : SocketKind) (c : IpcClient)
    → IsAccounted c
    → IsAccounted (on_error s kind c)
unfolding on_error
on_error-IsAccounted s unix c h =
    open_port-IsAccounted s.port_file (emit destroyed c)
      (emit-IsAccounted destroyed c (λ k. refl) h)
on_error-IsAccounted s (tcp port) c h =
    emit-IsAccounted (connect_rejected socket_failed) c (λ k. refl) h

pub destroy-IsAccounted :
    (socket : Option SocketKind) (c : IpcClient) → IsAccounted c → IsAccounted (destroy socket c)
destroy-IsAccounted none c h = h
destroy-IsAccounted (some kind) c h = emit-IsAccounted destroyed c (λ k. refl) h

pub send_on-IsAccounted :
    (socket : Option SocketKind) (action : Text) (c : IpcClient)
    → IsAccounted c
    → IsAccounted (send_on socket action c)
unfolding add
send_on-IsAccounted none action c h k =
    emit-IsAccounted (send_rejected not_connected) c (λ k. refl) h k
send_on-IsAccounted (some kind) action c h k =
    let fresh : contains c.id c.pending ≡ false =
      ground (arith, h c.id, times_pending-contains c.id c.pending) in
    rw fresh (
      ground (
        arith,
        h k,
        times_pending-append k c.id c.pending,
        times_resolved-append k c.out (wrote_request c.id action ∷ []),
        times_resolved_one k (wrote_request c.id action),
      ))

module _ (faults : ℕ → Response → Bool) (parse : Text → Option Response) where
  resolve_id-IsAccounted :
      (id : Option ℕ) (r : Response) (c : IpcClient)
      → IsAccounted c
      → IsAccounted (resolve_id parse faults id r c)
  resolve_id-IsAccounted none r c h k = h k
  resolve_id-IsAccounted (some id) r c h k = elim (Bool-cases (contains id c.pending)) [
    | inl e ↦ rw e (
        ground (
          arith,
          h k,
          h id,
          times_pending-contains id c.pending,
          e,
          times_pending-remove k id c.pending,
          times_resolved-append k c.out (resolved id r ∷ []),
          times_resolved_one k (resolved id r),
          (nat_eq.beq_iff id k),
        ))
    | inr e ↦ rw e (h k)
  ]

  on_response-IsAccounted :
      (r : Response) (c : IpcClient) → IsAccounted c → IsAccounted (on_response parse faults r c)
  unfolding on_response
  on_response-IsAccounted r c h k = elim (Bool-cases (r.authenticated && c.connect_resolve)) [
    | inl e ↦ rw e (emit-IsAccounted connect_resolved c (λ k. refl) h k)
    | inr e ↦ elim (Bool-cases r.is_event) [
      | inl f ↦
          rw (e, f)
            (calls-IsAccounted (λ h. faults h (record r { is_event = true }))
              (λ h. called h (record r { is_event = true })) (λ k h. refl) c.event_handlers c h k)
      | inr f ↦ rw (e, f) (resolve_id-IsAccounted r.id (record r { is_event = false }) c h k)
    ]
  ]

  on_line-IsAccounted :
      (line : Text) (c : IpcClient) → IsAccounted c → IsAccounted (on_line parse faults line c)
  unfolding on_line
  on_line-IsAccounted line c h = elim (Bool-cases (is_empty_text (trim line))) [
    | inl e ↦ rw e h
    | inr e ↦ elim (Option-cases (parse line)) [
      | inl n ↦ rw (e, n) h
      | inr (r, n) ↦ rw (e, n) (on_response-IsAccounted r c h)
    ]
  ]

  on_lines-IsAccounted :
      (lines : List Text) (c : IpcClient)
      → IsAccounted c
      → IsAccounted (on_lines parse faults lines c)
  unfolding on_lines
  on_lines-IsAccounted [] c h = h
  on_lines-IsAccounted (line ∷ lines) c h =
      on_lines-IsAccounted lines (on_line parse faults line c) (on_line-IsAccounted line c h)

  pub on_data-IsAccounted :
      (text : Text) (c : IpcClient) → IsAccounted c → IsAccounted (on_data parse faults text c)
  unfolding on_data
  on_data-IsAccounted text c h =
      let cut = take_lines (c.buffer ++ text) in
      on_lines-IsAccounted cut.0 (record c { buffer = cut.1 }) h

answer_connect-IsAccounted :
    (intended resolve : Bool) (c : IpcClient)
    → IsAccounted c
    → IsAccounted (answer_connect intended resolve c)
answer_connect-IsAccounted false resolve c h =
    emit-IsAccounted (connect_rejected closed_early) c (λ k. refl) h
answer_connect-IsAccounted true false c h = h
answer_connect-IsAccounted true true c h = emit-IsAccounted connect_resolved c (λ k. refl) h

pub settle_connect-IsAccounted : (c : IpcClient) → IsAccounted c → IsAccounted (settle_connect c)
unfolding settle_connect
settle_connect-IsAccounted c h = elim (Bool-cases c.connect_reject) [
  | inl e ↦ rw e (
      answer_connect-IsAccounted c.intentionally_closed c.connect_resolve
        (record c { connect_resolve = false; connect_reject = false }) h)
  | inr e ↦ rw e h
]

pub settle_pending-IsAccounted : (c : IpcClient) → IsAccounted c → IsAccounted (settle_pending c)
unfolding settle_pending
settle_pending-IsAccounted c h k = omega (
  arith,
  h k,
  times_resolved-append k c.out (settle_all c.pending),
  times_resolved-settle_all k c.pending,
  times_pending_nil k,
)

pub call_disconnect-IsAccounted :
    (breaks : ℕ → Bool) (c : IpcClient) → IsAccounted c → IsAccounted (call_disconnect breaks c)
unfolding call_disconnect
call_disconnect-IsAccounted breaks c h = elim (Bool-cases c.intentionally_closed) [
  | inl e ↦ simp e h
  | inr e ↦
      simp e (calls-IsAccounted breaks called_disconnect (λ k h. refl) c.disconnect_handlers c h)
]
