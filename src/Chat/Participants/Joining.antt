-- ===== src/Chat/Participants/Joining.antt =====
-- Joining a chat by its invite link.
use mesty_api.Common.{
  ℕ, ◌≡◌, inl, inr, refl, true, false, ◌&&◌, not, any, if◌then◌else◌, arith, Bool-cases,
}
use mesty_api.DomainError.{validation, ok, err, Guarded, Guarded-ok, Guarded-err}
use mesty_api.Chat.Role.{member}
use mesty_api.Chat.Store.{Store, is_active, private_chat_is_full}
use mesty_api.Chat.Participants.{join_by_invite, insert_returning, joined, rejoined}
use mesty_api.Chat.Participants.Roles.{detail}
use mesty_api.Chat.Participants.Insertion.{
  fits, admitted, row_after, row_after_all, row_after-key, IsNewMember, insert_returning_lem,
}

join_by_invite_lem :
    (now c u : ℕ) (s : Store)
    → join_by_invite now c u s ≡ (
        if any (is_active c u) s.participants
        then (err (validation "already a member of this chat"), s)
        else insert_returning (joined now c u) (rejoined now) s)
unfolding join_by_invite
join_by_invite_lem now c u s = ground arith

abbrev pub MayJoin : ℕ → ℕ → Store → Type 0
MayJoin c u s = (any (is_active c u) s.participants ≡ false) × (fits c u s ≡ true)

-- `join_by_invite` succeeds exactly if the user is not active in the chat and the row fits; then the
-- user is a member. Otherwise nothing changes.
pub join_by_invite-Guarded :
    (now c u : ℕ) (s : Store)
    → Guarded s
        (MayJoin c u s)
        (λ d t. IsNewMember now c u d × (t ≡ admitted (joined now c u) (rejoined now) s))
        (join_by_invite now c u s)
join_by_invite-Guarded now c u s =
    elim (Bool-cases (not (any (is_active c u) s.participants) && fits c u s)) [
      | inl allowed ↦
          let new = joined now c u in
          let (user, chat) = row_after-key new (rejoined now) s (λ p. (refl, refl)) in
          Guarded-ok _ _ _ _ {a = detail (row_after new (rejoined now) s)}
            {t = admitted new (rejoined now) s} (ground (arith, L, I)) (ground arith)
            (
              (
                user,
                chat,
                row_after_all new (rejoined now) s (λ p. p.role ≡ member) refl (λ p. refl),
                row_after_all new (rejoined now) s (λ p. p.joined_at ≡ now) refl (λ p. refl),
              ),
              refl,
            )
      | inr refused ↦
          Guarded-err _ _ _ _ (λ d. ground (arith, L, I)) (ground (arith, L, I)) (λ m. ground arith)
    ]
  where
    L : join_by_invite now c u s ≡ (
        if any (is_active c u) s.participants
        then (err (validation "already a member of this chat"), s)
        else insert_returning (joined now c u) (rejoined now) s)
    L = join_by_invite_lem now c u s

    I : insert_returning (joined now c u) (rejoined now) s ≡ (
        if private_chat_is_full c s
        then (err (validation "Validation constraint failed"), s)
        else if fits c u s
        then (
          ok (detail (row_after (joined now c u) (rejoined now) s)),
          admitted (joined now c u) (rejoined now) s,
        )
        else (err (validation "Referenced resource not found"), s))
    I = insert_returning_lem (joined now c u) (rejoined now) s (λ p. (refl, refl))
