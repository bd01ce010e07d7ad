-- ===== src/Control/Config.antt =====
-- control/src/config.ts: the limits of the protocol and the patterns of its identifiers.
use mesh_talk.Common.{ℕ, ◌*◌, Bool, true, ◌&&◌, ◌||◌, [], ◌∷◌, Text, leb, nat_beq, length}

abbrev pub max_room_members : ℕ
max_room_members = 64

abbrev pub max_rooms_per_client : ℕ
max_rooms_per_client = 32

abbrev pub max_signal_length : ℕ
max_signal_length = 8 * 1024

abbrev pub max_control_messages_per_minute : ℕ
max_control_messages_per_minute = 96

abbrev pub max_signals_per_minute : ℕ
max_signals_per_minute = 64

abbrev pub max_peer_fetches_per_minute : ℕ
max_peer_fetches_per_minute = 30

abbrev pub max_relay_frames_per_second : ℕ
max_relay_frames_per_second = 500

abbrev pub max_control_message_bytes : ℕ
max_control_message_bytes = 256 * 1024

abbrev pub max_pending_messages : ℕ
max_pending_messages = 256

abbrev pub max_pending_message_bytes : ℕ
max_pending_message_bytes = 4 * 1024 * 1024

abbrev pub max_pending_messages_per_client : ℕ
max_pending_messages_per_client = 16

abbrev pub max_pending_message_bytes_per_client : ℕ
max_pending_message_bytes_per_client = 256 * 1024

abbrev pub max_pending_messages_per_ip : ℕ
max_pending_messages_per_ip = 32

abbrev pub max_pending_message_bytes_per_ip : ℕ
max_pending_message_bytes_per_ip = 512 * 1024

abbrev pub max_connections : ℕ
max_connections = 10_000

abbrev pub max_connections_per_ip : ℕ
max_connections_per_ip = 32

abbrev pub max_rooms : ℕ
max_rooms = 10_000

abbrev pub max_retained_bytes : ℕ
max_retained_bytes = 64 * 1024 * 1024

abbrev pub max_relay_frame_length : ℕ
max_relay_frame_length = 1200

abbrev pub max_relay_peers_per_device : ℕ
max_relay_peers_per_device = 8

abbrev pub relay_peer_idle_ms : ℕ
relay_peer_idle_ms = 60_000

abbrev pub relay_bytes_per_second : ℕ
relay_bytes_per_second = 1024 * 1024

abbrev pub relay_burst_bytes : ℕ
relay_burst_bytes = 4 * 1024 * 1024

-- `[a-f0-9]`
unfoldable pub is_hex_digit : ℕ → Bool
is_hex_digit c = (leb b'0' c && leb c b'9') || (leb b'a' c && leb c b'f')

unfoldable pub all_hex : Text → Bool
unfolding is_hex_digit
all_hex [] = true
all_hex (c ∷ s) = is_hex_digit c && all_hex s

-- `^[a-f0-9]{n}$`
unfoldable pub is_hex : ℕ → Text → Bool
unfolding all_hex
is_hex n s = nat_beq (length s) n && all_hex s

abbrev pub room_id_test : Text → Bool
room_id_test = is_hex 32

abbrev pub room_auth_test : Text → Bool
room_auth_test = is_hex 64

abbrev pub peer_id_test : Text → Bool
peer_id_test = is_hex 64

abbrev pub hex_32_test : Text → Bool
hex_32_test = is_hex 64

abbrev pub hex_64_test : Text → Bool
hex_64_test = is_hex 128
