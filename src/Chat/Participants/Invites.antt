-- ===== src/Chat/Participants/Invites.antt =====
-- The invite link of a chat.
use mesty_api.Common.{
  ℕ, ◌≤◌, ◌≡◌, inl, inr, refl, Bool, true, String, Option, none, some, ◌&&◌, ◌==◌, not, any,
  if◌then◌else◌, update_where, arith, Option-cases, Bool-cases,
}
use mesty_api.DomainError.{
  validation, already_exists, ok, err, unauthorized, Guarded, Guarded-ok, Guarded-err,
}
use mesty_api.Chat.Role.{Role, admin, rank, lt}
use mesty_api.Chat.Store.{Store, is_private, has_link}
use mesty_api.Chat.Participants.{set_invite_link, new_slug}
use mesty_api.Chat.Handlers
use mesty_api.Chat.Handlers.{Body, Response, invite_link, invite_link_deleted}
use mesty_api.Chat.Participants.Roles.{role_of, actor_role_lem}

abbrev pub relinked : ℕ → ℕ → String → Store → Store
relinked now c link s = record s {
  chats =
      update_where (λ r. r.id == c) (λ r. record r { invite_link = some link; updated_at = now })
        s.chats;
}

-- the constraints on a link: no private chat has one, and no two chats share one
abbrev pub link_fits : ℕ → String → Store → Bool
link_fits c link s =
    not (any (λ r. r.id == c && is_private r) s.chats)
    && not (any (λ r. not (r.id == c) && has_link link r) s.chats)

abbrev pub MayLink : ℕ → ℕ → String → Store → Type 0
MayLink c actor link s =
    (r : Role) × (role_of c actor s ≡ some r) × (rank admin ≤ rank r) × (link_fits c link s ≡ true)

set_invite_link_lem :
    (now : ℕ) (random : String) (c a : ℕ) (slug : Option String) (s : Store)
    → let link = new_slug random slug in
      set_invite_link now random c a slug s ≡ (elim (role_of c a s) [
        | none ↦ (err (unauthorized "not a member of this chat"), s)
        | some r ↦
            if lt r admin
            then (err (unauthorized "only admins and owners can manage invite links"), s)
            else if any (λ r. r.id == c && is_private r) s.chats
            then (err (validation "Validation constraint failed"), s)
            else if any (λ r. not (r.id == c) && has_link link r) s.chats
            then (err (already_exists "Resource already exists"), s)
            else (ok (some link), relinked now c link s)
      ])
unfolding set_invite_link
set_invite_link_lem now random c a slug s = ground (arith, actor_role_lem a c s)

-- Whatever slug is asked for, an admin or the owner sets a link on every row of the chat: the slug, or
-- the random text if the slug is missing or empty. Otherwise nothing changes.
pub set_invite_link-Guarded :
    (now : ℕ) (random : String) (c a : ℕ) (slug : Option String) (s : Store)
    → let link = new_slug random slug in
      Guarded s
        (MayLink c a link s)
        (λ x t. (x ≡ some link) × (t ≡ relinked now c link s))
        (set_invite_link now random c a slug s)
set_invite_link-Guarded now random c a slug s =
    let link = new_slug random slug in
    let L = set_invite_link_lem now random c a slug s in
    elim (Option-cases (role_of c a s)) [
      | inl e ↦ Guarded-err _ _ _ _ (λ x. ground (arith, L)) (ground (arith, L)) (λ m. ground arith)
      | inr (r, e) ↦ elim (Bool-cases (not (lt r admin) && link_fits c link s)) [
        | inl allowed ↦
            Guarded-ok _ _ _ _ {a = some link} {t = relinked now c link s} (ground (arith, L))
              (r, e, ground arith, ground arith) (refl, refl)
        | inr refused ↦
            Guarded-err _ _ _ _ (λ x. ground (arith, L)) (ground (arith, L)) (λ m. ground arith)
      ]
    ]

-- Deleting the invite link succeeds exactly for an admin or the owner of a chat that may have a link,
-- and gives the chat a new random link: the state is the one that creating a link leaves. Otherwise
-- nothing changes.
pub delete_invite_link-Guarded :
    (now : ℕ) (random : String) (a c : ℕ) (s : Store)
    → Guarded s
        (MayLink c a random s)
        (λ x t.
          (x ≡ record { code = 200; body = invite_link_deleted true })
          × (t ≡ relinked now c random s)
          × (t ≡ (Handlers.create_invite_link now random a c s).1))
        (Handlers.delete_invite_link now random a c s)
unfolding new_slug Handlers.delete_invite_link Handlers.create_invite_link
delete_invite_link-Guarded now random a c s =
    let D = set_invite_link_lem now random c a (some "") s in
    let C = set_invite_link_lem now random c a none s in
    elim (Option-cases (role_of c a s)) [
      | inl e ↦ Guarded-err _ _ _ _ (λ x. ground (arith, D)) (ground (arith, D)) (λ m. ground arith)
      | inr (r, e) ↦ elim (Bool-cases (not (lt r admin) && link_fits c random s)) [
        | inl allowed ↦
            Guarded-ok _ _ _ _ {a = record { code = 200; body = invite_link_deleted true }}
              {t = relinked now c random s} (ground (arith, D)) (r, e, ground arith, ground arith)
              (refl, refl, ground (arith, C))
        | inr refused ↦
            Guarded-err _ _ _ _ (λ x. ground (arith, D)) (ground (arith, D)) (λ m. ground arith)
      ]
    ]
