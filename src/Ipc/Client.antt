-- ===== src/Ipc/Client.antt =====
-- common/ipc-client.ts: `IPCClient`. A promise of `send` is named by the id of its request, and
-- what the client does to the outside is appended to `out`. Handlers are numbers; `faults` says
-- which of them throw on an event, and none of them calls the client while it runs. JSON.parse is
-- the parameter `parse`, `none` where it or a reading of the result's fields throws.
pub mod Framing
pub mod Accounting
use mesh_talk.Common.{
  ℕ, ◌+◌, Bool, true, false, not, ◌&&◌, ◌||◌, Option, none, some, List, [], ◌∷◌, ◌++◌, Text, nat_eq,
  add, remove, contains, if◌then◌else◌,
}
use mesh_talk.Common.Strings.{trim, is_empty_text, take_lines}

-- the fields of a response that are read, and the whole of it as text
pub record Response : Type 0 where
  pub authenticated : Bool
  pub is_event : Bool
  pub id : Option ℕ
  pub body : Text

pub data Reason : Type 0 where
  not_connected : Reason
  cannot_authenticate : Reason
  cannot_connect : Reason
  socket_failed : Reason
  closed_early : Reason

pub data SocketKind : Type 0 where
  unix : SocketKind
  tcp : ℕ → SocketKind

pub data Output : Type 0 where
  opened : SocketKind → Output
  destroyed : Output
  wrote_token : Text → Output
  wrote_request : ℕ → Text → Output
  connect_resolved : Output
  connect_rejected : Reason → Output
  send_rejected : Reason → Output
  resolved : ℕ → Response → Output
  resolved_closed : ℕ → Output
  called : ℕ → Response → Output
  called_disconnect : ℕ → Output

pub record IpcClient : Type 0 where
  pub socket : Option SocketKind
  pub buffer : Text
  pub pending : List ℕ
  pub id : ℕ
  pub event_handlers : List ℕ
  pub disconnect_handlers : List ℕ
  pub intentionally_closed : Bool
  pub closed : Bool
  pub connect_resolve : Bool
  pub connect_reject : Bool
  pub out : List Output

-- what `connect` finds: the forced port, the platform, the port and token files
pub record Surroundings : Type 0 where
  pub forced_port : Option ℕ
  pub is_windows : Bool
  pub port_file : Option ℕ
  pub token : Option Text

abbrev pub new_client : IpcClient
new_client = record {
  socket = none;
  buffer = [];
  pending = [];
  id = 0;
  event_handlers = [];
  disconnect_handlers = [];
  intentionally_closed = false;
  closed = false;
  connect_resolve = false;
  connect_reject = false;
  out = [];
}

abbrev pub emit : Output → IpcClient → IpcClient
emit o c = record c { out = c.out ++ o ∷ [] }

abbrev pub open_socket : SocketKind → IpcClient → IpcClient
open_socket kind c = emit (opened kind) (record c { socket = some kind })

abbrev pub open_port : Option ℕ → IpcClient → IpcClient
open_port none c = emit (connect_rejected cannot_connect) c
open_port (some port) c = open_socket (tcp port) c

unfoldable pub connect_tcp : Surroundings → IpcClient → IpcClient
connect_tcp s c = open_port s.port_file c

abbrev pub open_first : Surroundings → Option ℕ → IpcClient → IpcClient
open_first s (some port) c = open_socket (tcp port) c
open_first s none c = if s.is_windows then open_port s.port_file c else open_socket unix c

unfoldable pub connect : Surroundings → IpcClient → IpcClient
connect s c = open_first s s.forced_port (record c {
  intentionally_closed = false;
  closed = false;
  connect_resolve = true;
  connect_reject = true;
})

-- a write goes to the socket, if there is one
abbrev pub write_token : Option SocketKind → Text → IpcClient → IpcClient
write_token none token c = c
write_token (some kind) token c = emit (wrote_token token) c

abbrev pub answer_token : Option Text → IpcClient → IpcClient
answer_token none c = emit (connect_rejected cannot_authenticate) c
answer_token (some token) c = write_token c.socket token c

-- the socket has connected
unfoldable pub authenticate : Surroundings → IpcClient → IpcClient
authenticate s c = answer_token s.token c

-- the error of a socket: of the UNIX socket, the port is tried next
unfoldable pub on_error : Surroundings → SocketKind → IpcClient → IpcClient
unfolding connect_tcp
on_error s unix c = connect_tcp s (emit destroyed c)
on_error s (tcp port) c = emit (connect_rejected socket_failed) c

abbrev pub destroy : Option SocketKind → IpcClient → IpcClient
destroy none c = c
destroy (some kind) c = emit destroyed c

unfoldable pub close : IpcClient → IpcClient
close c = destroy c.socket (record c { intentionally_closed = true })

abbrev pub send_on : Option SocketKind → Text → IpcClient → IpcClient
send_on none action c = emit (send_rejected not_connected) c
send_on (some kind) action c =
    emit (wrote_request c.id action) (record c { id = c.id + 1; pending = add c.id c.pending })

unfoldable pub send : Text → IpcClient → IpcClient
unfolding add
send action c = send_on c.socket action c

-- the handlers in turn, up to one that throws
unfoldable pub calls : (ℕ → Bool) → (ℕ → Output) → List ℕ → List Output
calls faults call [] = []
calls faults call (h ∷ hs) = call h ∷ (if faults h then [] else calls faults call hs)

module _ (parse : Text → Option Response) (faults : ℕ → Response → Bool) where
  abbrev pub resolve_id : Option ℕ → Response → IpcClient → IpcClient
  resolve_id none r c = c
  resolve_id (some id) r c =
      if contains id c.pending
      then emit (resolved id r) (record c { pending = remove id c.pending })
      else c

  -- The handlers that it calls are outputs: the requests that they send are events of their own,
  -- behind this one, where the source has them within it.
  unfoldable pub on_response : Response → IpcClient → IpcClient
  unfolding contains remove calls
  on_response r c =
      if r.authenticated && c.connect_resolve
      then emit connect_resolved (record c { connect_resolve = false; connect_reject = false })
      else if r.is_event
      then record c { out = c.out ++ calls (λ h. faults h r) (λ h. called h r) c.event_handlers }
      else resolve_id r.id r c

  abbrev pub on_parsed : Option Response → IpcClient → IpcClient
  unfolding on_response
  on_parsed none c = c
  on_parsed (some r) c = on_response r c

  unfoldable pub on_line : Text → IpcClient → IpcClient
  unfolding on_response trim
  on_line line c = if is_empty_text (trim line) then c else on_parsed (parse line) c

  unfoldable pub on_lines : List Text → IpcClient → IpcClient
  unfolding on_line
  on_lines [] c = c
  on_lines (line ∷ lines) c = on_lines lines (on_line line c)

  -- The piece is decoded: the source decodes the bytes of each piece on their own.
  unfoldable pub on_data : Text → IpcClient → IpcClient
  unfolding on_lines take_lines
  on_data text c =
      let cut = take_lines (c.buffer ++ text) in on_lines cut.0 (record c { buffer = cut.1 })

abbrev pub answer_connect : Bool → Bool → IpcClient → IpcClient
answer_connect false resolve c = emit (connect_rejected closed_early) c
answer_connect true false c = c
answer_connect true true c = emit connect_resolved c

unfoldable pub settle_connect : IpcClient → IpcClient
settle_connect c =
    if c.connect_reject
    then answer_connect c.intentionally_closed c.connect_resolve
        (record c { connect_resolve = false; connect_reject = false })
    else c

unfoldable pub settle_all : List ℕ → List Output
settle_all [] = []
settle_all (id ∷ ids) = resolved_closed id ∷ settle_all ids

unfoldable pub settle_pending : IpcClient → IpcClient
unfolding settle_all
settle_pending c = record c { pending = []; out = c.out ++ settle_all c.pending }

unfoldable pub call_disconnect : (ℕ → Bool) → IpcClient → IpcClient
unfolding calls
call_disconnect faults c =
    if c.intentionally_closed
    then c
    else record c { out = c.out ++ calls faults called_disconnect c.disconnect_handlers }

unfoldable pub on_close : (ℕ → Bool) → IpcClient → IpcClient
unfolding settle_pending settle_connect call_disconnect
on_close faults c =
    if c.closed
    then c
    else call_disconnect faults (settle_pending (settle_connect (record c { closed = true })))

unfoldable pub on_event : ℕ → IpcClient → IpcClient
unfolding add
on_event handler c = record c { event_handlers = add handler c.event_handlers }

unfoldable pub off_event : ℕ → IpcClient → IpcClient
unfolding remove
off_event handler c = record c { event_handlers = remove handler c.event_handlers }

unfoldable pub on_disconnect : ℕ → IpcClient → IpcClient
unfolding add
on_disconnect handler c = record c { disconnect_handlers = add handler c.disconnect_handlers }

unfoldable pub off_disconnect : ℕ → IpcClient → IpcClient
unfolding remove
off_disconnect handler c = record c { disconnect_handlers = remove handler c.disconnect_handlers }

-- what can happen to the client
pub data Event : Type 0 where
  connecting : Surroundings → Event
  connected : Surroundings → Event
  failing : Surroundings → SocketKind → Event
  receiving : Text → Event
  sending : Text → Event
  closing : Event
  lost : Event
  listening : ℕ → Event
  leaving : ℕ → Event
  watching : ℕ → Event
  unwatching : ℕ → Event

module _ (parse : Text → Option Response) (faults : ℕ → Response → Bool) (breaks : ℕ → Bool) where
  unfoldable pub step : Event → IpcClient → IpcClient
  step (connecting s) c = connect s c
  step (connected s) c = authenticate s c
  step (failing s kind) c = on_error s kind c
  step (receiving text) c = on_data parse faults text c
  step (sending action) c = send action c
  step closing c = close c
  step lost c = on_close breaks c
  step (listening h) c = on_event h c
  step (leaving h) c = off_event h c
  step (watching h) c = on_disconnect h c
  step (unwatching h) c = off_disconnect h c

  -- one after the other
  unfoldable pub run : List Event → IpcClient → IpcClient
  unfolding step
  run [] c = c
  run (e ∷ es) c = run es (step e c)
