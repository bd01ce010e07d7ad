-- ===== src/Lib.antt =====
-- MeshTalk: a verification library of its rendezvous and relay service, of the client of its
-- daemon, of the choice of updates, and of the pure parts of its terminal client.
--
-- The service (control/src/worker.ts) runs as one object that owns every WebSocket connection.
-- Its state is one record, `ControlRoom` of Control/State.antt: rooms with their secrets and
-- members, the client of each socket with its joined rooms, retained signals, windows of the rate
-- limits and pending counters, the devices that are registered with their sockets and their
-- bandwidth limits, and the queue of admitted messages. A handler is a function of the state that
-- returns or throws, and keeps what it wrote before a throw (`M`, from Common/Exec.antt).
--
-- Which file models what:
--   Common.antt          shared names; Common/Tests.antt Boolean tests and equality, Common/Lists.antt
--                        lists, Common/Dict.antt `Map`, Common/Int.antt signed integers,
--                        Common/Decimal.antt numbers as text, Common/Sorting.antt `sort`,
--                        Common/Strings.antt white space and lines,
--                        Common/Bits.antt bit operations, Common/Exec.antt handlers and
--                        Common/Exec/Keeps.antt and Common/Exec/Triple.antt what handlers leave,
--                        Common/Exec/Sim.antt handlers over two states
--   Control/Config.antt  control/src/config.ts: the limits and the patterns
--   Control/Wire.antt    toHex, fromHex, timingSafeEqual
--   Control/State.antt   the types, the state and `send`
--   Control/Limits.antt  checkRateLimit, checkRelayRateLimit
--   Control/Rooms.antt   joinRoom, leaveRoom, signalRoom, fetchPeers and the broadcasts
--   Control/Relay.antt   peersShareRoom, reserveRelayBandwidth, relayDatagram
--   Control/Pending.antt the queue: admitMessage up to the queue, releasePending
--   Control/Close.antt   handleClose, rejectClient
--   Control/Register.antt registerDevice, in two parts around its awaits
--   Control/Messages.antt fetch, admitMessage, handleMessage, the rounds of drainQueue
--   Control/System.antt  all events of the object as steps, in any order
--   Control/Bun.antt     control/src/index.ts, the Bun server, the other runtime of the same
--                        protocol: its state and handlers in Control/Bun/State.antt, Limits,
--                        Rooms, Relay, Close, Register and Messages; Control/Bun/View.antt reads its state off
--                        that of the Worker, and the modules after it compare the handlers
--   Updater/Versions.antt common/updater.ts: parseVersion, isNewerVersion
--   Updater/Releases.antt common/updater.ts: asRelease, newestUsable, checkForUpdate
--   Tui/Mentions.antt    tui/src/mentions.ts of the terminal client: updateSpansAfterEdit, on
--                        the mention spans of the composer's text
--   Tui/Tokens.antt      tui/src/mentions.ts: scanMentionContent, with renderMentionedContent and
--                        segmentMentionedContent
--   Tui/MentionIds.antt  tui/src/mentions.ts: parseMentions, payloadMentions, spansToTokens
--   Tui/Dialogs.antt     tui/src/types.ts, tui/src/useChatActions.ts: the dialogs, and the actions
--                        that wait for an answer (closeDialog up to failDialogAction, the three loads
--                        with one await, the end of leaveGroup)
--   Tui/Navigation.antt  tui/src/navigation.ts: goBack
--   Tui/Commands.antt    tui/src/navigation.ts: runCommand
--   Tui/Grouping.antt    tui/src/utils.ts: computeRenderTypes, the rows of a conversation
--   Tui/Width.antt       tui/src/utils.ts: terminalWidth, clipTextToWidth
--   Tui/Deliveries.antt  tui/src/utils.ts: groupDeliveryLabel, groupDeliveryStatusSummary
--   Tui/Peers.antt       tui/src/utils.ts: states of friendship, actions, peers that can be added
--   Tui/Retention.antt   tui/src/stateRetention.ts
--   Tui/PastedImage.antt tui/src/pastedImageDedup.ts
--   Tui/TerminalText.antt common/terminal-text.ts
--   Ipc/Client.antt      common/ipc-client.ts: IPCClient, the daemon's client, with its input
--                        (Ipc/Client/Framing.antt) and requests (Ipc/Client/Accounting.antt)
--
-- Modelling choices. A text is the list of its UTF-16 units. A socket is a number, and `objects`
-- is the heap of the ClientData objects, since closures and queue entries keep an object that the
-- map of clients has lost. Each handler is given a `Platform`: the clock, the sockets on which
-- `send` throws, the relay's setting, and the calls of the runtime (SHA-256, Ed25519, base64,
-- canonical JSON). A send to a broken socket throws in both servers; the send of Bun returns a
-- status in its place, which the source ignores. JSON parsing is outside: a frame comes with the
-- message that parsing makes of it; of the numbers in a message the natural ones are kept, and a
-- fractional one counts as of another type. The input of the daemon's client is decoded text: its
-- client decodes the bytes of each piece on their own, which is outside. The handlers that this
-- client calls are outputs, and what they send in turn are later events. Times of the service are natural numbers of milliseconds, those of the terminal client
-- of whole seconds; what its code leaves to the runtime (`localeCompare`, the day of a timestamp,
-- `Object.is`) is a parameter of the definitions that use it. Tokens of the relay's buckets are
-- integers in thousandths of a byte, so that the refill of each millisecond is exact; the source's
-- buckets are floating-point numbers. The queue is drained in rounds: a round takes an entry and
-- runs its handler up to its end or to its first await; the rest of a registration, and the
-- release of the entry, are steps of their own, between which any other event may come. Most loops
-- go over lists. The scan of a message (Tui/Tokens.antt) takes fuel, the length of the message and
-- one more, which suffices since each step goes on by one unit at least; so does the text of a
-- number (Common/Decimal.antt), by the number itself.
--
-- Not modelled: the interfaces of the clients with their other actions, the daemon, the installers
-- and the web site.
pub mod Common
pub mod Control
pub mod Ipc
pub mod Tui
pub mod Updater
