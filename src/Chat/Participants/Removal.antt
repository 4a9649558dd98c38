-- ===== src/Chat/Participants/Removal.antt =====
-- Who may change the participants of a chat, and what each operation does when it is allowed.
use mesty_api.Common.{
  ℕ, ◌<◌, ◌≡◌, ◌≢◌, ◌⊎◌, inl, inr, refl, true, none, some, ◌&&◌, ◌||◌, ◌==◌, not, if◌then◌else◌,
  update_where, arith, Option-cases, Bool-cases,
}
use mesty_api.DomainError.{
  validation, not_found, ok, err, unauthorized, Guarded, Guarded-ok, Guarded-err,
}
use mesty_api.Chat.Role.{Role, owner, rank, le, same}
use mesty_api.Chat.Store.{Store, is_active}
use mesty_api.Chat.Participants.{remove_participant}
use mesty_api.Chat.Participants.Roles.{role_of, get_participant_role_lem, actor_role_lem}

-- One may leave unless one is the owner, and remove those whom one outranks.
abbrev pub MayRemove : ℕ → ℕ → ℕ → Store → Type 0
MayRemove c actor target s =
    (r : Role) × (r' : Role) × (role_of c actor s ≡ some r)
    × (role_of c target s ≡ some r')
    × (((actor ≡ target) × (r ≢ owner)) ⊎ ((actor ≢ target) × (rank r' < rank r)))

abbrev pub removed : ℕ → ℕ → ℕ → Store → Store
removed now c target s = record s {
  participants =
      update_where (is_active c target) (λ p. record p { left_at = some now }) s.participants;
}

remove_participant_lem :
    (now c a t : ℕ) (s : Store) (r r' : Role)
    → role_of c a s ≡ some r
    → role_of c t s ≡ some r'
    → remove_participant now c a t s ≡ (
        if a == t && same r owner
        then (err (validation "owner must transfer ownership before leaving"), s)
        else if not (a == t) && le r r'
        then (err (unauthorized "insufficient role to remove this participant"), s)
        else (ok true, removed now c t s))
unfolding remove_participant
remove_participant_lem now c a t s r r' e e' =
    ground (arith, actor_role_lem a c s, get_participant_role_lem t c s)

remove_participant_stranger :
    (now c a t : ℕ) (s : Store)
    → role_of c a s ≡ none
    → remove_participant now c a t s ≡ (err (unauthorized "not a member of this chat"), s)
unfolding remove_participant
remove_participant_stranger now c a t s e = ground (arith, actor_role_lem a c s)

remove_participant_missing :
    (now c a t : ℕ) (s : Store) (r : Role)
    → role_of c a s ≡ some r
    → role_of c t s ≡ none
    → remove_participant now c a t s ≡ (err (not_found "target user is not a member"), s)
unfolding remove_participant
remove_participant_missing now c a t s r e e' =
    ground (arith, actor_role_lem a c s, get_participant_role_lem t c s)

pub remove_participant-Guarded :
    (now c a t : ℕ) (s : Store)
    → Guarded s
        (MayRemove c a t s)
        (λ x u. (x ≡ true) × (u ≡ removed now c t s))
        (remove_participant now c a t s)
remove_participant-Guarded now c a t s = elim (Option-cases (role_of c a s)) [
  | inl e ↦
      Guarded-err _ _ _ _ (λ x. ground (arith, remove_participant_stranger now c a t s e))
        (ground (arith, remove_participant_stranger now c a t s e)) (λ m. ground arith)
  | inr (r, e) ↦ elim (Option-cases (role_of c t s)) [
    | inl e' ↦
        Guarded-err _ _ _ _ (λ x. ground (arith, remove_participant_missing now c a t s r e e'))
          (ground (arith, remove_participant_missing now c a t s r e e')) (λ m. ground arith)
    | inr (r', e') ↦ elim (Bool-cases (a == t && same r owner || not (a == t) && le r r')) [
      | inl refused ↦
          Guarded-err _ _ _ _ (λ x. ground (arith, remove_participant_lem now c a t s r r' e e'))
            (ground (arith, remove_participant_lem now c a t s r r' e e')) (λ m. ground arith)
      | inr allowed ↦
          Guarded-ok _ _ _ _ {a = true} {t = removed now c t s}
            (ground (arith, remove_participant_lem now c a t s r r' e e'))
            (r, r', e, e', ground arith) (refl, refl)
    ]
  ]
]
