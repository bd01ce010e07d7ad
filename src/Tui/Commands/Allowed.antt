-- ===== src/Tui/Commands/Allowed.antt =====
-- tui/src/navigation.ts: what the commands offer.
use mesh_talk.Common.{◌≡◌, true, false, none, some, Text, nat_beq, text_eq}
use mesh_talk.Common.Dict.{get}
use mesh_talk.Tui.Peers.{Peer, is_mute_active, has_outgoing}
use mesh_talk.Tui.Dialogs.{Dialog, mute_timeout, unmute_confirm, add_friend, remove_friend}
use mesh_talk.Tui.Commands.{
  Group, CommandDependencies, CommandEffect, shows, is_own, find_group, find_peer,
}

module _ (d : CommandDependencies) where
  -- the peer of the dialog is the selected one, and a mute of it can begin
  pub record MayMute (id : Text) : Type 0 where
    pub peer : Peer
    pub selected : find_peer d.selected_peer_id d.peers ≡ some peer
    pub same : peer.peer_id ≡ id
    pub other : is_own id d.identity ≡ false
    pub online : nat_beq peer.is_online 0 ≡ false
    pub audible : is_mute_active (get id d.muted_peers) d.now ≡ false

  pub record MayMuteGroup (id : Text) : Type 0 where
    pub group : Group
    pub selected : find_group d.selected_group_id d.groups ≡ some group
    pub same : group.group_id ≡ id
    pub audible : is_mute_active (get id d.muted_groups) d.now ≡ false

  pub record MayAdd (id : Text) : Type 0 where
    pub peer : Peer
    pub selected : find_peer d.selected_peer_id d.peers ≡ some peer
    pub same : peer.peer_id ≡ id
    pub no_friend : peer.is_friend ≡ false
    pub not_blocked : peer.is_blocked ≡ false
    pub not_asked : has_outgoing peer.friend_request ≡ false

  pub record MayRemove (id : Text) : Type 0 where
    pub peer : Peer
    pub selected : find_peer d.selected_peer_id d.peers ≡ some peer
    pub same : peer.peer_id ≡ id
    pub is_friend : peer.is_friend ≡ true

  abbrev pub MayShow : Dialog → Type 0
  MayShow (mute_timeout (some id) g n) = MayMute id
  MayShow (mute_timeout none (some id) n) = MayMuteGroup id
  MayShow (unmute_confirm (some id) g n) = is_mute_active (get id d.muted_peers) d.now ≡ true
  MayShow (unmute_confirm none (some id) n) = is_mute_active (get id d.muted_groups) d.now ≡ true
  MayShow (add_friend id n) = MayAdd id
  MayShow (remove_friend id n) = MayRemove id
  MayShow _ = Unit

  abbrev pub IsAllowed : CommandEffect → Type 0
  IsAllowed (shows dialog) = MayShow dialog
  IsAllowed _ = Unit
