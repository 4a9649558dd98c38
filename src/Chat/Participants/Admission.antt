-- ===== src/Chat/Participants/Admission.antt =====
-- Adding a participant.
use mesty_api.Common.{
  ℕ, ◌≤◌, ◌≡◌, ◌≢◌, inl, inr, refl, true, false, String, Option, none, some, ◌&&◌, not, any, find?,
  if◌then◌else◌, arith, Option-cases, Bool-cases,
}
use mesty_api.DomainError.{
  validation, not_found, ok, err, unauthorized, Guarded, Guarded-ok, Guarded-err,
}
use mesty_api.Chat.Role.{Role, member, admin, rank, lt, same}
use mesty_api.Chat.Store.{ChatRow, Participant, Store, is_active, is_live, is_private}
use mesty_api.Chat.Participants.{
  ParticipantDetail, add_participant, insert_returning, added, readded,
}
use mesty_api.Chat.Participants.Roles.{role_of, actor_role_lem, detail}
use mesty_api.Chat.Participants.Insertion.{
  fits, admitted, row_after, row_after_all, row_after-key, IsNewMember, insert_returning_lem,
}

add_participant_lem :
    (now c a u : ℕ) (k : Option String) (s : Store)
    → add_participant now c a u k s ≡ (elim (role_of c a s) [
      | none ↦ (err (unauthorized "not a member of this chat"), s)
      | some r ↦
          if lt r admin
          then (err (unauthorized "only admins and owners can add participants"), s)
          else elim (find? (is_live c) s.chats) [
            | none ↦ (err (not_found "chat not found"), s)
            | some chat ↦
                if is_private chat
                then (err (validation "cannot add participants to a private chat"), s)
                else if any (is_active c u) s.participants
                then (err (validation "user is already a member"), s)
                else insert_returning (added now c a u k) (readded now a k) s
          ]
    ])
unfolding add_participant
add_participant_lem now c a u k s = ground (arith, actor_role_lem a c s)

-- An admin or the owner adds to a live chat that is not private a user who is not active in it.
abbrev pub MayAdd : ℕ → ℕ → ℕ → Store → Type 0
MayAdd c actor user s =
    (r : Role) × (chat : ChatRow) × (role_of c actor s ≡ some r)
    × (rank admin ≤ rank r)
    × (find? (is_live c) s.chats ≡ some chat)
    × (is_private chat ≡ false)
    × (any (is_active c user) s.participants ≡ false)
    × (fits c user s ≡ true)

add_participant_refused :
    (now c a u : ℕ) (k : Option String) (s : Store)
    → ¬ MayAdd c a u s
    → ((d : ParticipantDetail) → (add_participant now c a u k s).0 ≢ ok d)
      × ((add_participant now c a u k s).1 ≡ s)
add_participant_refused now c a u k s n = elim (Option-cases (role_of c a s)) [
  | inl e ↦ (
    (λ d. ground (arith, add_participant_lem now c a u k s)),
    ground (arith, add_participant_lem now c a u k s),
  )
  | inr (r, e) ↦ elim (Option-cases (find? (is_live c) s.chats)) [
    | inl e' ↦ (
      (λ d. ground (arith, add_participant_lem now c a u k s)),
      ground (arith, add_participant_lem now c a u k s),
    )
    | inr (chat, e') ↦
        let L = add_participant_lem now c a u k s in
        let I = insert_returning_lem (added now c a u k) (readded now a k) s (λ p. (refl, refl)) in
        let no : (rank admin ≤ rank r)
            → is_private chat ≡ false
            → any (is_active c u) s.participants ≡ false
            → fits c u s ≡ true
            → ⊥ =
          λ p q x y. n (r, chat, e, p, e', q, x, y) in
        ((λ d. ground (arith, L, I, no)), ground (arith, L, I, no))
  ]
]

add_participant_allowed :
    (now c a u : ℕ) (k : Option String) (s : Store)
    → MayAdd c a u s
    → add_participant now c a u k s ≡ (
      ok (detail (row_after (added now c a u k) (readded now a k) s)),
      admitted (added now c a u k) (readded now a k) s,
    )
add_participant_allowed now c a u k s (r, chat, e, p, e', q, x, y) =
    let L = add_participant_lem now c a u k s in
    let I = insert_returning_lem (added now c a u k) (readded now a k) s (λ p. (refl, refl)) in
    ground (arith, L, I)

-- `add_participant` succeeds exactly if the actor is an admin or the owner, the chat is live and not
-- private and the user is not active in it; then the user is a member with the given key, added by
-- the actor. Otherwise nothing changes.
pub add_participant-Guarded :
    (now c a u : ℕ) (k : Option String) (s : Store)
    → Guarded s
        (MayAdd c a u s)
        (λ d t.
          IsNewMember now c u d
          × (d.encryption_key_enc ≡ k)
          × (d.added_by ≡ some a)
          × (t ≡ admitted (added now c a u k) (readded now a k) s))
        (add_participant now c a u k s)
add_participant-Guarded now c a u k s = elim (Option-cases (role_of c a s)) [
  | inl e ↦ refuse (λ m. ground arith)
  | inr (r, e) ↦ elim (Option-cases (find? (is_live c) s.chats)) [
    | inl e' ↦ refuse (λ m. ground arith)
    | inr (chat, e') ↦
        elim (Bool-cases (
          not (lt r admin)
          && not (is_private chat)
          && not (any (is_active c u) s.participants)
          && fits c u s)) [
            | inr refused ↦ refuse (λ m. ground arith)
            | inl allowed ↦
                let m : MayAdd c a u s =
                  (r, chat, e, ground arith, e', ground arith, ground arith, ground arith) in
                Guarded-ok _ _ _ _ {a = detail row} {t = admitted new f s}
                  (add_participant_allowed now c a u k s m) m
                  (
                    at_key,
                    row_after_all new f s (λ p. p.encryption_key_enc ≡ k) refl (λ p. refl),
                    row_after_all new f s (λ p. p.added_by ≡ some a) refl (λ p. refl),
                    refl,
                  )
          ]
  ]
]
  where
    new : Participant
    new = added now c a u k

    f : Participant → Participant
    f = readded now a k

    row : Participant
    row = row_after new f s

    at_key : IsNewMember now c u (detail row)
    at_key =
        let (user, chat) = row_after-key new f s (λ p. (refl, refl)) in
        (
          user,
          chat,
          row_after_all new f s (λ p. p.role ≡ member) refl (λ p. refl),
          row_after_all new f s (λ p. p.joined_at ≡ now) refl (λ p. refl),
        )

    refuse :
        ¬ MayAdd c a u s
        → Guarded s
            (MayAdd c a u s)
            (λ d t.
              IsNewMember now c u d
              × (d.encryption_key_enc ≡ k)
              × (d.added_by ≡ some a)
              × (t ≡ admitted (added now c a u k) (readded now a k) s))
            (add_participant now c a u k s)
    refuse n =
        let (fails, same) = add_participant_refused now c a u k s n in
        Guarded-err _ _ _ _ fails same n
