-- ===== src/Control/System/Books.antt =====
-- control/src/worker.ts: the books of the queue, and the handlers outside the admission, the release
-- and the end of a connection.
use mesh_talk.Common.{
  ℕ, ◌+◌, ◌≡◌, refl, ◌∙◌, Option, some, List, Text, arith, nat_beq_iff, nat_eq, text_eq, add,
  remove,
}
use mesh_talk.Common.Dict.{Dict, put, delete}
use mesh_talk.Common.Exec.{modify}
use mesh_talk.Common.Exec.Keeps.{Keeps, keeps_rules}
use mesh_talk.Control.State.{
  Socket, Field, ControlMessage, ControlError, ClientData, RoomState, DeviceLimit, RateLimit,
  PendingMessage, ControlRoom, Output, Platform, Frame, write_rooms, write_client, write_retained,
  write_sockets, write_limits, write_rates, write_output, send,
}
use mesh_talk.Control.Limits.{
  Budget, signals, peer_fetches, control, open_window, open_relay_window, count_message,
  check_rate_limit, check_relay_rate_limit,
}
use mesh_talk.Control.Rooms.{
  broadcast_room, refresh_room, leave_room, find_room, join_room, signal_room, fetch_peers,
}
use mesh_talk.Control.Relay.{write_limit, refill_device, reserve_relay_bandwidth, relay_datagram}
use mesh_talk.Control.Pending.Accounts.{client_count, room_count, IsAccounted}
use mesh_talk.Control.Close.{unregister, forget_connection}
use mesh_talk.Control.Register.{begin_registration}

pub record SameBooks (r₀ r : ControlRoom) : Type 0 where
  pub queue : r.queue ≡ r₀.queue
  pub phase : r.phase ≡ r₀.phase
  pub total : room_count r ≡ room_count r₀
  pub accounts : r.pending_by_ip ≡ r₀.pending_by_ip
  pub clients : (s : Socket) → client_count (r.objects s) ≡ client_count (r₀.objects s)
  pub addresses : (s : Socket) → (r.objects s).ip ≡ (r₀.objects s).ip

pub SameBooks-refl : (r : ControlRoom) → SameBooks r r
SameBooks-refl r = record {
  queue = refl;
  phase = refl;
  total = refl;
  accounts = refl;
  clients = λ s. refl;
  addresses = λ s. refl;
}

pub SameBooks-IsAccounted :
    (ip : Socket → Text) (flight : List PendingMessage) (r₀ r : ControlRoom)
    → SameBooks r₀ r
    → IsAccounted ip flight r₀
    → IsAccounted ip flight r
SameBooks-IsAccounted ip flight r₀ r b h = record {
  addresses = λ s. b.addresses s ∙ h.addresses s;
  total = b.total ∙ h.total;
  clients = λ s. b.clients s ∙ h.clients s;
  accounts = λ a. ground (arith, b.accounts, h.accounts a);
}

module _ (r₀ : ControlRoom) where
  -- writes outside the books
  rooms_books :
      (f : Dict Text RoomState → Dict Text RoomState) → Keeps (SameBooks r₀) (write_rooms f)
  unfolding write_rooms
  rooms_books f = record {
    at = λ s h. record {
      queue = h.queue;
      phase = h.phase;
      total = h.total;
      accounts = h.accounts;
      clients = h.clients;
      addresses = h.addresses;
    };
  }

  retained_books : (f : ℕ → ℕ) → Keeps (SameBooks r₀) (write_retained f)
  unfolding write_retained
  retained_books f = record {
    at = λ s h. record {
      queue = h.queue;
      phase = h.phase;
      total = h.total;
      accounts = h.accounts;
      clients = h.clients;
      addresses = h.addresses;
    };
  }

  pub sockets_books :
      (f : Dict Text Socket → Dict Text Socket) → Keeps (SameBooks r₀) (write_sockets f)
  unfolding write_sockets
  sockets_books f = record {
    at = λ s h. record {
      queue = h.queue;
      phase = h.phase;
      total = h.total;
      accounts = h.accounts;
      clients = h.clients;
      addresses = h.addresses;
    };
  }

  pub limits_books :
      (f : Dict Text DeviceLimit → Dict Text DeviceLimit) → Keeps (SameBooks r₀) (write_limits f)
  unfolding write_limits
  limits_books f = record {
    at = λ s h. record {
      queue = h.queue;
      phase = h.phase;
      total = h.total;
      accounts = h.accounts;
      clients = h.clients;
      addresses = h.addresses;
    };
  }

  rates_books :
      (f : Dict Text RateLimit → Dict Text RateLimit) → Keeps (SameBooks r₀) (write_rates f)
  unfolding write_rates
  rates_books f = record {
    at = λ s h. record {
      queue = h.queue;
      phase = h.phase;
      total = h.total;
      accounts = h.accounts;
      clients = h.clients;
      addresses = h.addresses;
    };
  }

  pub output_books : (o : Output) → Keeps (SameBooks r₀) (write_output o)
  unfolding write_output
  output_books o = record {
    at = λ s h. record {
      queue = h.queue;
      phase = h.phase;
      total = h.total;
      accounts = h.accounts;
      clients = h.clients;
      addresses = h.addresses;
    };
  }

  pub forget_books :
      (ip : Text) → Keeps {E = ControlError} (SameBooks r₀) (modify (forget_connection ip))
  unfolding modify forget_connection
  forget_books ip = record {
    at = λ s h. record {
      queue = h.queue;
      phase = h.phase;
      total = h.total;
      accounts = h.accounts;
      clients = h.clients;
      addresses = h.addresses;
    };
  }

  pub remove_books :
      (j : Socket)
      → Keeps {E = ControlError}
          (SameBooks r₀)
          (modify (λ r. record r { clients = remove j r.clients }))
  unfolding modify
  remove_books j = record {
    at = λ s h. record {
      queue = h.queue;
      phase = h.phase;
      total = h.total;
      accounts = h.accounts;
      clients = h.clients;
      addresses = h.addresses;
    };
  }

  client_books :
      (s : Socket) (f : ClientData → ClientData)
      → ((d : ClientData) → (client_count (f d) ≡ client_count d) × ((f d).ip ≡ d.ip))
      → Keeps (SameBooks r₀) (write_client s f)
  unfolding write_client
  client_books s f same = record {
    at = λ r h. record {
      queue = h.queue;
      phase = h.phase;
      total = h.total;
      accounts = h.accounts;
      clients = λ j. ground (arith, h.clients j, same (r.objects s), nat_beq_iff s j);
      addresses = λ j. ground (arith, h.addresses j, same (r.objects s), nat_beq_iff s j);
    };
  }

  -- the writes that the handlers make to a client
  join_books :
      (s : Socket) (id : Text)
      → Keeps (SameBooks r₀) (write_client s (λ d. record d { rooms = add id d.rooms }))
  join_books s id = client_books s _ (λ d. (refl, refl))

  remove_room_books :
      (s : Socket) (id : Text)
      → Keeps (SameBooks r₀) (write_client s (λ d. record d { rooms = remove id d.rooms }))
  remove_room_books s id = client_books s _ (λ d. (refl, refl))

  delete_signal_books :
      (s : Socket) (id : Text)
      → Keeps (SameBooks r₀) (write_client s (λ d. record d { signals = delete id d.signals }))
  delete_signal_books s id = client_books s _ (λ d. (refl, refl))

  put_signal_books :
      (s : Socket) (id t : Text)
      → Keeps (SameBooks r₀) (write_client s (λ d. record d { signals = put id t d.signals }))
  put_signal_books s id t = client_books s _ (λ d. (refl, refl))

  pub identify_books :
      (s : Socket) (id : Text)
      → Keeps (SameBooks r₀) (write_client s (λ d. record d { peer_id = some id }))
  identify_books s id = client_books s _ (λ d. (refl, refl))

  open_relay_books :
      (s : Socket) (now : ℕ) → Keeps (SameBooks r₀) (write_client s (open_relay_window now))
  unfolding open_relay_window
  open_relay_books s now = client_books s _ (λ d. ground arith)

  count_relay_books :
      (s : Socket)
      → Keeps
          (SameBooks r₀)
          (write_client s (λ d. record d { relay_frames_in_window = d.relay_frames_in_window + 1 }))
  count_relay_books s = client_books s _ (λ d. (refl, refl))

  count_same :
      (b : Budget) (now : ℕ) (d : ClientData)
      → (client_count (count_message b (open_window now d)) ≡ client_count d)
        × ((count_message b (open_window now d)).ip ≡ d.ip)
  unfolding count_message open_window
  count_same signals now d = ground arith
  count_same peer_fetches now d = ground arith
  count_same control now d = ground arith

  count_books :
      (s : Socket) (b : Budget) (now : ℕ)
      → Keeps (SameBooks r₀) (write_client s (λ d. count_message b (open_window now d)))
  count_books s b now = client_books s _ (count_same b now)

  ruleset writes = (
    keeps_rules, rooms_books, retained_books, sockets_books, limits_books, rates_books,
    output_books, forget_books, remove_books, join_books, remove_room_books, delete_signal_books,
    put_signal_books, identify_books, open_relay_books, count_relay_books, count_books,
  )

  pub send_books : (p : Platform) (s : Socket) (f : Frame) → Keeps (SameBooks r₀) (send p s f)
  unfolding send
  send_books p s f = search writes

  pub broadcast_books :
      (p : Platform) (id : Text) (f : Frame) (x : Option Socket)
      → Keeps (SameBooks r₀) (broadcast_room p id f x)
  unfolding broadcast_room
  broadcast_books p id f x = search (writes, send_books)

  pub refresh_books : (p : Platform) (id : Text) → Keeps (SameBooks r₀) (refresh_room p id)
  unfolding refresh_room
  refresh_books p id = search (writes, broadcast_books)

  pub leave_books :
      (p : Platform) (s : Socket) (id : Text) → Keeps (SameBooks r₀) (leave_room p s id)
  unfolding leave_room
  leave_books p s id = search (writes, refresh_books) depth 12

  find_books : (id auth : Text) → Keeps (SameBooks r₀) (find_room id auth)
  unfolding find_room
  find_books id auth = search writes

  pub join_room_books :
      (p : Platform) (s : Socket) (id auth : Text) → Keeps (SameBooks r₀) (join_room p s id auth)
  unfolding join_room
  join_room_books p s id auth = search (writes, find_books, send_books, refresh_books) depth 20

  pub signal_books :
      (p : Platform) (s : Socket) (id t : Text) → Keeps (SameBooks r₀) (signal_room p s id t)
  unfolding signal_room
  signal_books p s id t = search (writes, broadcast_books) depth 12

  pub fetch_books :
      (p : Platform) (s : Socket) (id : Text) → Keeps (SameBooks r₀) (fetch_peers p s id)
  unfolding fetch_peers
  fetch_books p s id = search (writes, send_books)

  pub rate_books :
      (p : Platform) (s : Socket) (f : Field) → Keeps (SameBooks r₀) (check_rate_limit p s f)
  unfolding check_rate_limit
  rate_books p s f = search writes depth 10

  pub relay_rate_books :
      (p : Platform) (s : Socket) → Keeps (SameBooks r₀) (check_relay_rate_limit p s)
  unfolding check_relay_rate_limit
  relay_rate_books p s = search writes depth 10

  refill_books : (p : Platform) (id : Text) → Keeps (SameBooks r₀) (refill_device p id)
  unfolding refill_device
  refill_books p id = search writes

  write_limit_books :
      (id : Text) (f : DeviceLimit → DeviceLimit) → Keeps (SameBooks r₀) (write_limit id f)
  unfolding write_limit
  write_limit_books id f = search writes

  reserve_books :
      (p : Platform) (id to : Text) (n : ℕ)
      → Keeps (SameBooks r₀) (reserve_relay_bandwidth p id to n)
  unfolding reserve_relay_bandwidth
  reserve_books p id to n = search (writes, refill_books, write_limit_books) depth 20

  pub relay_books :
      (p : Platform) (s : Socket) (id t : Text) → Keeps (SameBooks r₀) (relay_datagram p s id t)
  unfolding relay_datagram
  relay_books p s id t = search (writes, reserve_books, send_books) depth 20

  pub unregister_books : (s : Socket) (id : Text) → Keeps (SameBooks r₀) (unregister s id)
  unfolding unregister
  unregister_books s id = search writes

  pub begin_books :
      (p : Platform) (s : Socket) (m : ControlMessage)
      → Keeps (SameBooks r₀) (begin_registration p s m)
  unfolding begin_registration
  begin_books p s m = search writes depth 10
