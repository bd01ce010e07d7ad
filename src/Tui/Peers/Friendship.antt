-- ===== src/Tui/Peers/Friendship.antt =====
-- tui/src/utils.ts: who can be added as a friend.
use mathlib.Core.List.Perm
use mathlib.Core.List.{Perm}
use mesh_talk.Common.{
  ◌≡◌, refl, subst, inl, inr, Bool, true, false, not, ◌&&◌, ◌||◌, Option, none, some, List, [], ◌∷◌,
  Text, keep, text_eq, Bool-cases, if◌then◌else◌,
}
use mesh_talk.Common.Sorting.{insert_sorted, sort_by}
use mesh_talk.Tui.Peers.{
  Peer, friend, blocked, Choice, InlineFriendAction, add, peer_friend_state, inline_friend_actions,
  addable_peers, is_other, is_addable, actions_of, request_state, has_no_request, FriendRequest,
  incoming, outgoing, both,
}

module _ {A : Type 0} (after : A → A → Bool) where
  insert_sorted-perm : (x : A) (ys : List A) → Perm (insert_sorted after x ys) (x ∷ ys)
  unfolding insert_sorted
  insert_sorted-perm x [] = Perm.refl (x ∷ [])
  insert_sorted-perm x (y ∷ ys) = elim (Bool-cases (after x y)) [
    | inl e ↦ rw e (Perm.trans (Perm.cons y (insert_sorted-perm x ys)) (Perm.swap x y ys))
    | inr e ↦ rw e (Perm.refl (x ∷ y ∷ ys))
  ]

  sort_by-perm : (xs : List A) → Perm (sort_by after xs) xs
  unfolding sort_by
  sort_by-perm [] = Perm.refl []
  sort_by-perm (x ∷ xs) =
      Perm.trans (insert_sorted-perm x (sort_by after xs)) (Perm.cons x (sort_by-perm xs))

abbrev is_add : InlineFriendAction → Bool
is_add add = true
is_add _ = false

-- the choices offer to add the peer
abbrev pub offers_add : List Choice → Bool
offers_add [] = false
offers_add (c ∷ cs) = is_add c.id || offers_add cs

keep-eq : (p q : Peer → Bool) → ((a : Peer) → p a ≡ q a) → (xs : List Peer) → keep p xs ≡ keep q xs
unfolding keep
keep-eq p q h [] = refl
keep-eq p q h (x ∷ xs) = rw (h x, keep-eq p q h xs) refl

state_offers :
    (f b : Bool) (r : Option FriendRequest)
    → (not f && not b && has_no_request r)
      ≡ offers_add (actions_of (if b then blocked else if f then friend else request_state r))
state_offers true true r = refl
state_offers true false r = refl
state_offers false true r = refl
state_offers false false none = refl
state_offers false false (some incoming) = refl
state_offers false false (some outgoing) = refl
state_offers false false (some both) = refl

is_addable-offers :
    (self : Option Text) (p : Peer)
    → is_addable self p ≡ (is_other self p.peer_id && offers_add (inline_friend_actions p))
unfolding inline_friend_actions peer_friend_state
is_addable-offers self p = elim (Bool-cases (is_other self p.peer_id)) [
  | inl e ↦ rw e (state_offers p.is_friend p.is_blocked p.friend_request)
  | inr e ↦ rw e refl
]

-- The peers that can be added as friends are, up to their order, just those whose inline actions
-- offer to add them, without the own device.
pub addable_peers-perm :
    (compares_after : Text → Text → Bool) (self : Option Text) (peers : List Peer)
    → Perm
        (addable_peers compares_after self peers)
        (keep (λ p. is_other self p.peer_id && offers_add (inline_friend_actions p)) peers)
unfolding addable_peers
addable_peers-perm compares_after self peers =
    subst (Perm (addable_peers compares_after self peers))
      (keep-eq (is_addable self)
        (λ p. is_other self p.peer_id && offers_add (inline_friend_actions p))
        (is_addable-offers self) peers)
      (sort_by-perm (λ a b. compares_after a.display_name b.display_name)
        (keep (is_addable self) peers))
