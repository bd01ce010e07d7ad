-- ===== src/Control/Bun/Tests.antt =====
-- control/src/index.ts against control/src/worker.ts at a concrete input.
use mesh_talk.Common.{codes, nat_eq, text_eq, Text, List, ℕ}
use mesh_talk.Control.State.{ControlMessage, string}
use mesh_talk.Control.System.Tests.{blank_message}
use mesh_talk.Control.Rooms.Tests.{room_id}
use mesh_talk.Control.Bun

abbrev a_signal : ControlMessage
a_signal = record blank_message {
  type = string (codes "signal");
  room_id = string room_id;
  payload = string (codes "hi");
}

abbrev decode : Text → List ℕ
decode t = t
