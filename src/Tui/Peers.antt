-- ===== src/Tui/Peers.antt =====
-- tui/src/utils.ts: peers, and what can be done about a friendship with them. `localeCompare` is
-- the runtime's, `compares_after`. Times are whole seconds; a mute of 0 or less has no end.
pub mod Friendship
use mesh_talk.Common.{
  ℕ, Bool, true, false, not, ◌&&◌, ◌||◌, Option, none, some, List, [], ◌∷◌, ◌++◌, map, Text, codes,
  ltb, nat_beq, text_eq, ◌==◌, keep, if◌then◌else◌,
}
use mesh_talk.Common.Int.{ℤ, pos, negsuc, ltb_ℤ}
use mesh_talk.Common.Sorting.{sort_by}

pub data FriendRequest : Type 0 where
  incoming : FriendRequest
  outgoing : FriendRequest
  both : FriendRequest

pub data Presence : Type 0 where
  active : Presence
  away : Presence
  offline : Presence

pub data Transport : Type 0 where
  lan_tcp : Transport
  remote_udp : Transport
  remote_derp : Transport

pub record Peer : Type 0 where
  pub peer_id : Text
  pub display_name : Text
  pub is_online : ℕ
  pub last_interaction : ℕ
  pub presence : Option Presence
  pub is_friend : Bool
  pub is_blocked : Bool
  pub friend_request : Option FriendRequest
  pub active_transport : Option Transport

unfoldable pub is_mute_active : Option ℤ → ℕ → Bool
is_mute_active none now = false
is_mute_active (some until) now = not (ltb_ℤ (pos 0) until) || ltb_ℤ (pos now) until

abbrev transport_name : Option Transport → Text
transport_name none = codes "No endpoint"
transport_name (some lan_tcp) = codes "LAN TCP"
transport_name (some remote_udp) = codes "Remote UDP"
transport_name (some remote_derp) = codes "MeshTalk Embedded Relay"

abbrev connection_name : Option Transport → Text
connection_name none = codes "No endpoint"
connection_name (some lan_tcp) = codes "Direct (TCP)"
connection_name (some remote_udp) = codes "Direct (UDP)"
connection_name (some remote_derp) = codes "MeshTalk Relay"

unfoldable pub peer_connection_label : Peer → Text
peer_connection_label peer =
    if nat_beq peer.is_online 0 then codes "Offline" else connection_name peer.active_transport

abbrev presence_or_offline : Option Presence → Presence
presence_or_offline none = offline
presence_or_offline (some p) = p

abbrev peer_presence : Peer → Presence
peer_presence peer = presence_or_offline peer.presence

abbrev has_incoming : Option FriendRequest → Bool
has_incoming (some incoming) = true
has_incoming (some both) = true
has_incoming _ = false

abbrev pub has_outgoing : Option FriendRequest → Bool
has_outgoing (some outgoing) = true
has_outgoing (some both) = true
has_outgoing _ = false

abbrev marker : Bool → ℕ → Text
marker shown c = if shown then c ∷ [] else []

abbrev spaced : Text → Text
spaced [] = []
spaced (c ∷ t) = b' ' ∷ c ∷ t

-- a heart for a friend, arrows for requests
unfoldable pub friend_markers : Peer → Text
friend_markers peer = spaced (
    marker peer.is_friend 0x2665
    ++ marker (has_incoming peer.friend_request) 0x2199
    ++ marker (has_outgoing peer.friend_request) 0x2197)

pub data FriendState : Type 0 where
  friend : FriendState
  requested : FriendRequest → FriendState
  blocked : FriendState
  stranger : FriendState

abbrev pub request_state : Option FriendRequest → FriendState
request_state none = stranger
request_state (some r) = requested r

unfoldable pub peer_friend_state : Peer → FriendState
peer_friend_state peer =
    if peer.is_blocked
    then blocked
    else if peer.is_friend
    then friend
    else request_state peer.friend_request

abbrev status_text : FriendState → Text
status_text friend = codes "Friends — messages go through."
status_text (requested incoming) = codes "They sent you a friend request."
status_text (requested outgoing) = codes "Friend request sent — waiting for them to accept."
status_text (requested both) = codes "You both sent requests — accept to become friends."
status_text blocked = codes "Blocked — their requests and messages are ignored."
status_text stranger = codes "You need to be friends to message."

unfoldable pub peer_friend_status_text : Peer → Text
unfolding peer_friend_state
peer_friend_status_text peer = status_text (peer_friend_state peer)

pub data InlineFriendAction : Type 0 where
  add : InlineFriendAction
  cancel : InlineFriendAction
  accept : InlineFriendAction
  decline : InlineFriendAction
  block : InlineFriendAction
  unblock : InlineFriendAction
  inbox : InlineFriendAction

pub record Choice : Type 0 where
  pub id : InlineFriendAction
  pub label : Text
  pub hint : Text

abbrev choice : InlineFriendAction → Text → Text → Choice
choice id label hint = record { id = id; label = label; hint = hint }

abbrev pub actions_of : FriendState → List Choice
actions_of friend = choice inbox (codes "Inbox") (codes "Alt+1") ∷ []
actions_of blocked =
    choice unblock (codes "Unblock") (codes "Alt+1")
    ∷ choice inbox (codes "Inbox") (codes "Alt+2")
    ∷ []
actions_of (requested incoming) =
    choice accept (codes "Accept") (codes "Alt+1")
    ∷ choice decline (codes "Decline") (codes "Alt+2")
    ∷ choice block (codes "Block") (codes "Alt+3")
    ∷ []
actions_of (requested outgoing) =
    choice cancel (codes "Cancel request") (codes "Alt+1")
    ∷ choice block (codes "Block") (codes "Alt+2")
    ∷ choice inbox (codes "Inbox") (codes "Alt+3")
    ∷ []
actions_of (requested both) =
    choice accept (codes "Accept") (codes "Alt+1")
    ∷ choice decline (codes "Decline") (codes "Alt+2")
    ∷ choice cancel (codes "Cancel mine") (codes "Alt+3")
    ∷ choice block (codes "Block") (codes "Alt+4")
    ∷ []
actions_of stranger =
    choice add (codes "Add friend") (codes "Alt+1")
    ∷ choice block (codes "Block") (codes "Alt+2")
    ∷ choice inbox (codes "Inbox") (codes "Alt+3")
    ∷ []

unfoldable pub inline_friend_actions : Peer → List Choice
unfolding peer_friend_state
inline_friend_actions peer = actions_of (peer_friend_state peer)

abbrev pub is_other : Option Text → Text → Bool
is_other none id = true
is_other (some self) id = not (id == self)

abbrev pub has_no_request : Option FriendRequest → Bool
has_no_request none = true
has_no_request (some r) = false

abbrev pub is_addable : Option Text → Peer → Bool
is_addable self peer =
    is_other self peer.peer_id
    && not peer.is_friend
    && not peer.is_blocked
    && has_no_request peer.friend_request

module _ (compares_after : Text → Text → Bool) where
  abbrev later_peer : Peer → Peer → Bool
  later_peer a b =
      ltb a.last_interaction b.last_interaction
      || (nat_beq a.last_interaction b.last_interaction
          && compares_after a.display_name b.display_name)

  unfoldable pub sort_peers_by_interaction : List Peer → List Peer
  unfolding sort_by
  sort_peers_by_interaction peers = sort_by later_peer peers

  unfoldable pub addable_peers : Option Text → List Peer → List Peer
  unfolding sort_by keep
  addable_peers self peers =
      sort_by (λ a b. compares_after a.display_name b.display_name) (keep (is_addable self) peers)
