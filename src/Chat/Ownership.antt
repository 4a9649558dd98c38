-- ===== src/Chat/Ownership.antt =====
-- A group has exactly one owner among its active participants: the queries of
-- crates/infrastructure/src/repositories/chat.rs that change participants keep it so.
pub mod Arrivals
pub mod Requests
pub mod Creations
pub mod Sequences
use mesty_api.Common.{
  ℕ, ◌<◌, ◌≤◌, ◌≡◌, ◌≢◌, ◌⊎◌, inl, inr, refl, sym, ◌∙◌, Bool, true, false, String, Option, none,
  some, List, [], ◌∷◌, ◌&&◌, ◌||◌, ◌==◌, is_none, is_some, not, any, find?, if◌then◌else◌,
  update_where, upsert, arith, Option-cases, Bool-cases, any-update_where, find?-eq-any,
  find?-holds,
}
use mathlib.Core.Option
use mesty_api.DomainError.{DomainError, Result, ok, err, Guarded}
use mesty_api.Preserves.{Preserves, Guarded-preserves}
use mesty_api.Chat.Role.{Role, member, admin, owner, rank, rank_le, same}
use mesty_api.Chat.Store.{ChatRow, Participant, Store, is_at, is_active, is_live, is_private}
use mesty_api.Chat.Chats.{delete_chat, joined_row, leave, mark_deleted}
use mesty_api.Chat.Participants.{
  ParticipantDetail, remove_participant, update_participant_role, transfer_ownership,
  add_participant, join_by_invite, set_invite_link, rotate_group_key, set_role, added, readded,
  joined, rejoined, new_slug,
}
use mesty_api.Chat.Participants.Roles.{
  role_in, role_of, role_in-remove, role_in-leave, role_in-set_active, role_in-set_role,
  role_in-upsert,
}
use mesty_api.Chat.Participants.Removal.{MayRemove, removed, remove_participant-Guarded}
use mesty_api.Chat.Participants.Promotion.{
  MaySetRole, promoted, update_participant_role-Guarded, MayTransfer, transferred,
  transfer_ownership-Guarded,
}
use mesty_api.Chat.Participants.Insertion.{admitted}
use mesty_api.Chat.Participants.Admission.{MayAdd, add_participant-Guarded}
use mesty_api.Chat.Participants.Joining.{MayJoin, join_by_invite-Guarded}
use mesty_api.Chat.Participants.Invites.{MayLink, relinked, set_invite_link-Guarded}
use mesty_api.Chat.Participants.Keys.{Rotated, MayRotate, rotate_group_key-Guarded}

-- a row of the chat is private
abbrev pub is_private_chat : ℕ → Store → Bool
is_private_chat c s = any (λ r. r.id == c && is_private r) s.chats

-- a row of the chat is there
abbrev pub has_chat : ℕ → Store → Bool
has_chat c s = any (λ r. r.id == c) s.chats

-- The chat is there, no row of it is private, and exactly one user is an active participant with the
-- owner's role.
pub record IsOwned (c : ℕ) (s : Store) : Type 0 where
  pub there : has_chat c s ≡ true
  pub kind : is_private_chat c s ≡ false
  pub head : ℕ
  pub holds : role_of c head s ≡ some owner
  pub only : (u : ℕ) → role_of c u s ≡ some owner → u ≡ head

-- the chat is there in both or in neither, and is of the same kind
abbrev pub SameKind : ℕ → Store → Store → Type 0
SameKind c s t = (has_chat c t ≡ has_chat c s) × (is_private_chat c t ≡ is_private_chat c s)

-- the same roles, and chats of the same kinds
pub same_roles :
    (c : ℕ) (s t : Store)
    → SameKind c s t
    → ((u : ℕ) → role_of c u t ≡ role_of c u s)
    → IsOwned c s
    → IsOwned c t
same_roles c s t kind roles h = record {
  there = kind.0 ∙ h.there;
  kind = kind.1 ∙ h.kind;
  head = h.head;
  holds = roles h.head ∙ h.holds;
  only = λ u e. h.only u (sym (roles u) ∙ e);
}

-- a user who is not the owner gets a role that is not the owner's, or leaves
pub changed_role :
    (c v : ℕ) (r : Option Role) (s t : Store)
    → (h : IsOwned c s) → v ≢ h.head
    → r ≢ some owner
    → SameKind c s t
    → ((u : ℕ) → role_of c u t ≡ (if v == u then r else role_of c u s))
    → IsOwned c t
changed_role c v r s t h other low kind roles = record {
  there = kind.0 ∙ h.there;
  kind = kind.1 ∙ h.kind;
  head = h.head;
  holds = ground (arith, roles h.head, h.holds);
  only = λ u e. ground (arith, roles u, h.only u);
}

module _ (c : ℕ) where
  pub remove_participant-IsOwned :
      (now d a t : ℕ) → Preserves (IsOwned c) (remove_participant now d a t)
  remove_participant-IsOwned now d a t s h =
      Guarded-preserves (IsOwned c) (remove_participant now d a t s)
        (remove_participant-Guarded now d a t s)
        (λ (r, r', e, e', why) x u (_, done). rw done (elim (Bool-cases (d == c)) [
          | inl here ↦
              changed_role c t none s (removed now d t s) h (λ eq. ground (arith, h.holds))
                (λ eq. ground arith) (refl, refl)
                (λ u. ground (arith, role_in-remove c u d t now s.participants))
          | inr elsewhere ↦
              same_roles c s (removed now d t s) (refl, refl)
                (λ u. ground (arith, role_in-remove c u d t now s.participants)) h
        ]))
        h

  pub update_participant_role-IsOwned :
      (d a t : ℕ) (new : Role) → Preserves (IsOwned c) (update_participant_role d a t new)
  update_participant_role-IsOwned d a t new s h =
      Guarded-preserves (IsOwned c) (update_participant_role d a t new s)
        (update_participant_role-Guarded d a t new s)
        (λ (r, r', e, e', low, low') x u (_, _, _, done). rw done (elim (Bool-cases (d == c)) [
          | inl here ↦
              changed_role c t (some new) s (promoted d t new s) h
                (λ eq. ground (arith, h.holds, rank_le r)) (λ eq. ground (arith, rank_le r))
                (refl, refl) (λ u. ground (arith, role_in-set_active c u d t new s.participants))
          | inr elsewhere ↦
              same_roles c s (promoted d t new s) (refl, refl)
                (λ u. ground (arith, role_in-set_active c u d t new s.participants)) h
        ]))
        h

  pub transfer_ownership-IsOwned : (d a t : ℕ) → Preserves (IsOwned c) (transfer_ownership d a t)
  transfer_ownership-IsOwned d a t s h =
      Guarded-preserves (IsOwned c) (transfer_ownership d a t s)
        (transfer_ownership-Guarded d a t s) (λ (r, e, e') x u done. rw done (handed_over r e e')) h
    where
      handed_over :
          (r : Role)
          → role_of d a s ≡ some owner
          → role_of d t s ≡ some r
          → IsOwned c (transferred d a t s)
      handed_over r e e' =
          let low = set_role d a admin s.participants in
          elim (Bool-cases (d == c)) [
            | inl here ↦ record {
              there = h.there;
              kind = h.kind;
              head = t;
              holds = ground (
                arith,
                role_in-set_role c t d t owner low,
                role_in-set_role c t d a admin s.participants,
              );
              only = λ u eq. ground (
                arith,
                role_in-set_role c u d t owner low,
                role_in-set_role c u d a admin s.participants,
                h.only u,
                h.only a,
              );
            }
            | inr elsewhere ↦
                same_roles c s (transferred d a t s) (refl, refl)
                  (λ u. ground (
                    arith,
                    role_in-set_role c u d t owner low,
                    role_in-set_role c u d a admin s.participants,
                  ))
                  h
          ]
