-- ===== src/Chat/Participants/Promotion.antt =====
-- Who may change the role of a participant, and the transfer of ownership.
use mesty_api.Common.{
  ℕ, ◌<◌, ◌≡◌, inl, inr, refl, none, some, List, [], ◌∷◌, ◌||◌, not, find?, if◌then◌else◌,
  update_where, arith, Option-cases, Bool-cases, find?-holds,
}
use mathlib.Core.Option
use mesty_api.DomainError.{not_found, ok, err, unauthorized, Guarded, Guarded-ok, Guarded-err}
use mesty_api.Chat.Role.{Role, admin, owner, rank, le, same}
use mesty_api.Chat.Store.{Participant, Store, is_active}
use mesty_api.Chat.Participants.{
  ParticipantDetail, set_role, update_participant_role, transfer_ownership,
}
use mesty_api.Chat.Participants.Roles.{
  role_of, get_participant_role_lem, actor_role_lem, detail, to_detail_lem,
}

-- The actor outranks both the present role of the target and the new one.
abbrev pub MaySetRole : ℕ → ℕ → ℕ → Role → Store → Type 0
MaySetRole c actor target new s =
    (r : Role) × (r' : Role) × (role_of c actor s ≡ some r)
    × (role_of c target s ≡ some r')
    × (rank r' < rank r)
    × (rank new < rank r)

abbrev pub promoted : ℕ → ℕ → Role → Store → Store
promoted c target new s = record s {
  participants = update_where (is_active c target) (λ p. record p { role = new }) s.participants;
}

abbrev with_role : Role → Participant → Participant
with_role new p = record p { role = new }

abbrev new_detail : Role → Participant → ParticipantDetail
new_detail new p = detail (with_role new p)

-- the first active row of a key, after its role is set
find?-promoted :
    (c t : ℕ) (new : Role) (ps : List Participant)
    → find? (is_active c t) (update_where (is_active c t) (with_role new) ps)
      ≡ Option.map (with_role new) (find? (is_active c t) ps)
find?-promoted c t new [] = refl
find?-promoted c t new (p ∷ ps) = ground (arith, find?-promoted c t new ps)

update_role_lem :
    (c a t : ℕ) (new : Role) (s : Store) (r : Role) (p : Participant)
    → role_of c a s ≡ some r
    → find? (is_active c t) s.participants ≡ some p
    → update_participant_role c a t new s ≡ (
        if le r p.role || le r new
        then (err (unauthorized "insufficient role to change this participant's role"), s)
        else (ok (new_detail new p), promoted c t new s))
unfolding update_participant_role
update_role_lem c a t new s r p e e' =
    let found : find? (is_active c t) (promoted c t new s).participants ≡ some (with_role new p) =
      rw (find?-promoted c t new s.participants) (rw e') in
    ground (
      arith,
      actor_role_lem a c s,
      get_participant_role_lem t c s,
      to_detail_lem (with_role new p) (promoted c t new s),
    )

update_role_stranger :
    (c a t : ℕ) (new : Role) (s : Store)
    → role_of c a s ≡ none
    → update_participant_role c a t new s ≡ (err (unauthorized "not a member of this chat"), s)
unfolding update_participant_role
update_role_stranger c a t new s e = ground (arith, actor_role_lem a c s)

update_role_missing :
    (c a t : ℕ) (new : Role) (s : Store) (r : Role)
    → role_of c a s ≡ some r
    → role_of c t s ≡ none
    → update_participant_role c a t new s ≡ (err (not_found "target user is not a member"), s)
unfolding update_participant_role
update_role_missing c a t new s r e e' =
    ground (arith, actor_role_lem a c s, get_participant_role_lem t c s)

-- `update_participant_role` succeeds exactly if the actor outranks the target's role and the new one;
-- then the target's active row has the new role and nothing else changes. Otherwise nothing does.
pub update_participant_role-Guarded :
    (c a t : ℕ) (new : Role) (s : Store)
    → Guarded s
        (MaySetRole c a t new s)
        (λ d u. (d.user_id ≡ t) × (d.chat_id ≡ c) × (d.role ≡ new) × (u ≡ promoted c t new s))
        (update_participant_role c a t new s)
update_participant_role-Guarded c a t new s = elim (Option-cases (role_of c a s)) [
  | inl e ↦
      Guarded-err _ _ _ _ (λ x. ground (arith, update_role_stranger c a t new s e))
        (ground (arith, update_role_stranger c a t new s e)) (λ m. ground arith)
  | inr (r, e) ↦ elim (Option-cases (find? (is_active c t) s.participants)) [
    | inl e' ↦
        let absent : role_of c t s ≡ none = rw e' in
        Guarded-err _ _ _ _ (λ x. ground (arith, update_role_missing c a t new s r e absent))
          (ground (arith, update_role_missing c a t new s r e absent)) (λ m. ground arith)
    | inr (p, e') ↦
        let present : role_of c t s ≡ some p.role = rw e' in
        elim (Bool-cases (le r p.role || le r new)) [
          | inl refused ↦
              Guarded-err _ _ _ _ (λ x. ground (arith, update_role_lem c a t new s r p e e'))
                (ground (arith, update_role_lem c a t new s r p e e')) (λ m. ground arith)
          | inr allowed ↦
              Guarded-ok _ _ _ _ {a = new_detail new p} {t = promoted c t new s}
                (ground (arith, update_role_lem c a t new s r p e e'))
                (r, p.role, e, present, ground arith, ground arith)
                (
                  ground (arith, find?-holds (is_active c t) s.participants p e'),
                  ground (arith, find?-holds (is_active c t) s.participants p e'),
                  refl,
                  refl,
                )
        ]
  ]
]

-- The present owner names another active participant.
abbrev pub MayTransfer : ℕ → ℕ → ℕ → Store → Type 0
MayTransfer c current new s =
    (r : Role) × (role_of c current s ≡ some owner) × (role_of c new s ≡ some r)

abbrev pub transferred : ℕ → ℕ → ℕ → Store → Store
transferred c current new s = record s {
  participants = set_role c new owner (set_role c current admin s.participants);
}

transfer_lem :
    (c a t : ℕ) (s : Store)
    → transfer_ownership c a t s ≡ (elim (role_of c a s) [
      | none ↦ (err (unauthorized "not a member of this chat"), s)
      | some r ↦
          if not (same r owner)
          then (err (unauthorized "only the owner can transfer ownership"), s)
          else elim (role_of c t s) [
            | none ↦ (err (not_found "new owner is not a member of this chat"), s)
            | some _ ↦ (ok tt, transferred c a t s)
          ]
    ])
unfolding transfer_ownership
transfer_lem c a t s = ground (arith, actor_role_lem a c s, get_participant_role_lem t c s)

-- `transfer_ownership` succeeds exactly if the actor is the owner and the other user is an active
-- participant; then the actor's rows become admin and after that the other user's owner.
pub transfer_ownership-Guarded :
    (c a t : ℕ) (s : Store)
    → Guarded s (MayTransfer c a t s) (λ _ u. u ≡ transferred c a t s) (transfer_ownership c a t s)
transfer_ownership-Guarded c a t s = elim (Option-cases (role_of c a s)) [
  | inl e ↦
      Guarded-err _ _ _ _ (λ x. ground (arith, transfer_lem c a t s))
        (ground (arith, transfer_lem c a t s)) (λ m. ground arith)
  | inr (r, e) ↦ elim (Option-cases (role_of c t s)) [
    | inl e' ↦
        Guarded-err _ _ _ _ (λ x. ground (arith, transfer_lem c a t s))
          (ground (arith, transfer_lem c a t s)) (λ m. ground arith)
    | inr (r', e') ↦ elim (Bool-cases (same r owner)) [
      | inl is ↦
          Guarded-ok _ _ _ _ {a = tt} {t = transferred c a t s}
            (ground (arith, transfer_lem c a t s)) (r', ground arith, e') refl
      | inr other ↦
          Guarded-err _ _ _ _ (λ x. ground (arith, transfer_lem c a t s))
            (ground (arith, transfer_lem c a t s)) (λ m. ground arith)
    ]
  ]
]
