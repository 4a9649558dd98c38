-- ===== src/Chat/Ownership/Arrivals.antt =====
-- The owner of a group, when users join it, its link or key changes, or a member deletes it: the
-- queries of crates/infrastructure/src/repositories/chat.rs.
use mesty_api.Common.{
  ℕ, ◌≡◌, ◌≢◌, inl, inr, refl, false, String, Option, none, some, List, ◌&&◌, ◌||◌, ◌==◌, not, any,
  find?, if◌then◌else◌, update_where, arith, Option-cases, Bool-cases, any-update_where,
  find?-fails, ap, find?-eq-any, find?-holds,
}
use mesty_api.Preserves.{Preserves, Guarded-preserves}
use mesty_api.Chat.Role.{member, owner, same}
use mesty_api.Chat.Store.{ChatRow, Participant, Store, is_at, is_active, is_live, is_private}
use mesty_api.Chat.Chats.{delete_chat, joined_row, leave, mark_deleted}
use mesty_api.Chat.Participants.{
  add_participant, join_by_invite, set_invite_link, rotate_group_key, added, readded, joined,
  rejoined, new_slug,
}
use mesty_api.Chat.Participants.Roles.{role_of, role_in-leave, role_in-upsert}
use mesty_api.Chat.Participants.Insertion.{admitted}
use mesty_api.Chat.Participants.Admission.{add_participant-Guarded}
use mesty_api.Chat.Participants.Joining.{join_by_invite-Guarded}
use mesty_api.Chat.Participants.Invites.{relinked, set_invite_link-Guarded}
use mesty_api.Chat.Participants.Keys.{rotate_group_key-Guarded}
use mesty_api.Chat.Ownership.{IsOwned, SameKind, same_roles, changed_role}

module _ (c : ℕ) where
  -- an admission, by a link or by an admin, of a user who is not active in the chat
  admitted-IsOwned :
      (d v : ℕ) (new : Participant) (f : Participant → Participant)
      → (new.chat_id ≡ d) × (new.user_id ≡ v) × (new.role ≡ member) × (new.left_at ≡ none)
      → ((p : Participant)
          → ((f p).chat_id ≡ p.chat_id)
            × ((f p).user_id ≡ p.user_id)
            × ((f p).role ≡ member)
            × ((f p).left_at ≡ none))
      → (s : Store) → any (is_active d v) s.participants ≡ false
      → IsOwned c s
      → IsOwned c (admitted new f s)
  admitted-IsOwned d v new f row sets s absent h = elim (Bool-cases (d == c)) [
    | inl here ↦
        changed_role c v (some member) s (admitted new f s) h
          (λ eq. ground (arith, find?-eq-any (is_active d v) s.participants, h.holds))
          (λ eq. ground arith) (refl, refl)
          (λ u. ground (arith, row, role_in-upsert c u d v new f row sets s.participants))
    | inr elsewhere ↦
        same_roles c s (admitted new f s) (refl, refl)
          (λ u. ground (arith, row, role_in-upsert c u d v new f row sets s.participants)) h
  ]

  pub add_participant-IsOwned :
      (now d a v : ℕ) (k : Option String) → Preserves (IsOwned c) (add_participant now d a v k)
  add_participant-IsOwned now d a v k s h =
      Guarded-preserves (IsOwned c) (add_participant now d a v k s)
        (add_participant-Guarded now d a v k s)
        (λ (_, _, _, _, _, _, absent, _) x u (_, _, _, done). rw done (
          admitted-IsOwned d v (added now d a v k) (readded now a k) (refl, refl, refl, refl)
            (λ p. (refl, refl, refl, refl)) s absent h))
        h

  pub join_by_invite-IsOwned : (now d v : ℕ) → Preserves (IsOwned c) (join_by_invite now d v)
  join_by_invite-IsOwned now d v s h =
      Guarded-preserves (IsOwned c) (join_by_invite now d v s) (join_by_invite-Guarded now d v s)
        (λ (absent, _) x u (_, done). rw done (
          admitted-IsOwned d v (joined now d v) (rejoined now) (refl, refl, refl, refl)
            (λ p. (refl, refl, refl, refl)) s absent h))
        h

  -- an update of a chat that keeps ids and kinds
  pub updated_kind :
      (d : ℕ) (f : ChatRow → ChatRow)
      → ((r : ChatRow) → (f r).id ≡ r.id)
      → ((r : ChatRow) → is_private (f r) ≡ is_private r)
      → (s : Store) → SameKind c s (record s { chats = update_where (λ r. r.id == d) f s.chats })
  updated_kind d f id kind s = (
    any-update_where (λ r. r.id == c) (λ r. r.id == d) f (λ r. ground (arith, id r)) s.chats,
    any-update_where (λ r. r.id == c && is_private r) (λ r. r.id == d) f
        (λ r. ground (arith, id r, kind r)) s.chats,
  )

  pub set_invite_link-IsOwned :
      (now : ℕ) (random : String) (d a : ℕ) (slug : Option String)
      → Preserves (IsOwned c) (set_invite_link now random d a slug)
  unfolding is_private
  set_invite_link-IsOwned now random d a slug s h =
      Guarded-preserves (IsOwned c) (set_invite_link now random d a slug s)
        (set_invite_link-Guarded now random d a slug s)
        (λ _ x u (_, done). rw done (
          same_roles c s (relinked now d (new_slug random slug) s)
            (updated_kind d
              (λ r. record r { invite_link = some (new_slug random slug); updated_at = now })
              (λ r. refl) (λ r. refl) s)
            (λ u. refl) h))
        h

  pub rotate_group_key-IsOwned :
      (d a : ℕ) (keys : List (ℕ × String)) → Preserves (IsOwned c) (rotate_group_key d a keys)
  rotate_group_key-IsOwned d a keys s h =
      Guarded-preserves (IsOwned c) (rotate_group_key d a keys s)
        (rotate_group_key-Guarded d a keys s)
        (λ _ x u done.
          same_roles c s u
            (
              ap (any (λ r. r.id == c)) done.chats,
              ap (any (λ r. r.id == c && is_private r)) done.chats,
            )
            (λ v. done.roles c v) h)
        h

  delete_chat_lem :
      (now u d : ℕ) (s : Store)
      → (delete_chat now u d s).1 ≡ (elim (joined_row u d s) [
        | none ↦ s
        | some row ↦
            if is_private row || not (any (λ p. is_at d u p && same p.role owner) s.participants)
            then leave now d u s
            else mark_deleted now d s
      ])
  unfolding delete_chat
  delete_chat_lem now u d s = ground arith

  mark_deleted-IsOwned : (now d : ℕ) (s : Store) → IsOwned c s → IsOwned c (mark_deleted now d s)
  unfolding is_private
  mark_deleted-IsOwned now d s h =
      same_roles c s (mark_deleted now d s)
        (updated_kind d (λ r. record r { deleted_at = some now; updated_at = now }) (λ r. refl)
          (λ r. refl) s)
        (λ u. refl) h

  leave-IsOwned :
      (now d v : ℕ) (s : Store)
      → (d ≡ c → role_of d v s ≢ some owner)
      → IsOwned c s
      → IsOwned c (leave now d v s)
  leave-IsOwned now d v s low h = elim (Bool-cases (d == c)) [
    | inl here ↦
        changed_role c v none s (leave now d v s) h (λ eq. ground (arith, low, h.holds))
          (λ eq. ground arith) (refl, refl)
          (λ u. ground (arith, role_in-leave c u d v now s.participants))
    | inr elsewhere ↦
        same_roles c s (leave now d v s) (refl, refl)
          (λ u. ground (arith, role_in-leave c u d v now s.participants)) h
  ]

  -- a participant whose rows are no owner's
  not_owner :
      (v d : ℕ) (s : Store)
      → any (λ p. is_at d v p && same p.role owner) s.participants ≡ false
      → role_of d v s ≢ some owner
  not_owner v d s none_of e = elim (Option-cases (find? (is_active d v) s.participants)) [
    | inl gone ↦ ground arith
    | inr (p, here) ↦ ground (
      arith,
      find?-holds (is_active d v) s.participants p here,
      find?-fails (is_active d v) (λ p. is_at d v p && same p.role owner) s.participants p here
          none_of,
    )
  ]

  pub delete_chat-IsOwned : (now v d : ℕ) → Preserves (IsOwned c) (delete_chat now v d)
  delete_chat-IsOwned now v d s h = elim (Option-cases (joined_row v d s)) [
    | inl e ↦
        let unchanged : (delete_chat now v d s).1 ≡ s = ground (arith, delete_chat_lem now v d s) in
        rw unchanged h
    | inr (row, e) ↦
        let found =
          find?-holds (λ r. is_live d r && any (is_active d v) s.participants) s.chats row e in
        let kind =
          find?-fails (λ r. is_live d r && any (is_active d v) s.participants)
            (λ r. r.id == c && is_private r) s.chats row e h.kind in
        elim (Bool-cases
          (is_private row || not (any (λ p. is_at d v p && same p.role owner) s.participants))) [
            | inl left ↦
                let gone : (delete_chat now v d s).1 ≡ leave now d v s =
                  ground (arith, delete_chat_lem now v d s) in
                rw gone (
                  leave-IsOwned now d v s (λ here. not_owner v d s (ground (arith, found, kind))) h)
            | inr by_owner ↦
                let gone : (delete_chat now v d s).1 ≡ mark_deleted now d s =
                  ground (arith, delete_chat_lem now v d s) in
                rw gone (mark_deleted-IsOwned now d s h)
          ]
  ]
