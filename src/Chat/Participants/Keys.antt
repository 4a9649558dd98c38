-- ===== src/Chat/Participants/Keys.antt =====
-- The rotation of a group's key.
use mesty_api.Common.{
  ℕ, ◌+◌, ◌≤◌, ◌≡◌, ◌≢◌, inl, inr, refl, ◌∙◌, String, Option, none, some, List, [], ◌∷◌, ◌&&◌, ◌==◌,
  find?, count, if◌then◌else◌, update_where, arith, Option-cases, Bool-cases, coalesce,
  count-update_where,
}
use mathlib.Core.Option
use mesty_api.DomainError.{Guarded, Guarded-ok, Guarded-err}
use mesty_api.Chat.Role.{Role, admin, rank, lt}
use mesty_api.Chat.Store.{Participant, Store, is_active}
use mesty_api.Chat.Participants.{rotate_group_key, rotate_from}
use mesty_api.Chat.Participants.Roles.{role_in, role_of, actor_role_lem, role_in-set_key}

-- the key of an active participant, which may be missing
abbrev pub key_in : ℕ → ℕ → List Participant → Option (Option String)
key_in c u ps = Option.map (λ p. p.encryption_key_enc) (find? (is_active c u) ps)

-- the last key that a rotation lists for a user
pub last_key : ℕ → List (ℕ × String) → Option String
last_key u [] = none
last_key u ((m, k) ∷ keys) = coalesce (last_key u keys) (if m == u then some k else none)

-- the rows that a rotation names, each as often as it is listed
pub named_rows : ℕ → List (ℕ × String) → List Participant → ℕ
named_rows c [] ps = 0
named_rows c ((m, k) ∷ keys) ps = count (is_active c m) ps + named_rows c keys ps

abbrev set_key : ℕ → ℕ → String → List Participant → List Participant
set_key c m k = update_where (is_active c m) (λ p. record p { encryption_key_enc = some k })

module _ (c d : ℕ) where
  key_in-set_key :
      (u m : ℕ) (k : String) (ps : List Participant)
      → key_in c u (set_key d m k ps)
        ≡ Option.map (λ old. if d == c && m == u then some k else old) (key_in c u ps)
  key_in-set_key u m k [] = refl
  key_in-set_key u m k (p ∷ ps) = ground (arith, key_in-set_key u m k ps)

  pub key_in-rotate_from :
      (u n : ℕ) (keys : List (ℕ × String)) (ps : List Participant)
      → key_in c u (rotate_from d n keys ps).1
        ≡ Option.map (λ old. if d == c then coalesce (last_key u keys) old else old) (key_in c u ps)
  unfolding rotate_from last_key
  key_in-rotate_from u n [] ps = ground arith
  key_in-rotate_from u n ((m, k) ∷ keys) ps = ground (
    arith,
    key_in-rotate_from u (n + count (is_active d m) ps) keys (set_key d m k ps),
    key_in-set_key u m k ps,
  )

  pub role_in-rotate_from :
      (u n : ℕ) (keys : List (ℕ × String)) (ps : List Participant)
      → role_in c u (rotate_from d n keys ps).1 ≡ role_in c u ps
  unfolding rotate_from
  role_in-rotate_from u n [] ps = refl
  role_in-rotate_from u n ((m, k) ∷ keys) ps =
      role_in-rotate_from u (n + count (is_active d m) ps) keys (set_key d m k ps)
      ∙ role_in-set_key c u d m k ps

named_rows-set_key :
    (c m : ℕ) (k : String) (keys : List (ℕ × String)) (ps : List Participant)
    → named_rows c keys (set_key c m k ps) ≡ named_rows c keys ps
unfolding named_rows
named_rows-set_key c m k [] ps = refl
named_rows-set_key c m k ((m', k') ∷ keys) ps = ground (
  arith,
  named_rows-set_key c m k keys ps,
  count-update_where (is_active c m) (λ p. record p { encryption_key_enc = some k })
      (is_active c m') ps (λ x. refl),
)

pub rotate_from-count :
    (c n : ℕ) (keys : List (ℕ × String)) (ps : List Participant)
    → (rotate_from c n keys ps).0 ≡ n + named_rows c keys ps
unfolding rotate_from named_rows
rotate_from-count c n [] ps = omega arith
rotate_from-count c n ((m, k) ∷ keys) ps = ground (
  arith,
  rotate_from-count c (n + count (is_active c m) ps) keys (set_key c m k ps),
  named_rows-set_key c m k keys ps,
)

-- What a rotation does: it reports the active rows that it names, gives each active participant of the
-- chat the last key listed for it, if there is one, and changes no other key and no role.
pub record Rotated (c : ℕ) (keys : List (ℕ × String)) (s : Store) (n : ℕ) (t : Store) : Type 0 where
  pub counted : n ≡ named_rows c keys s.participants
  pub rekeyed :
      (u : ℕ)
      → key_in c u t.participants
        ≡ Option.map (λ old. coalesce (last_key u keys) old) (key_in c u s.participants)
  pub elsewhere : (d u : ℕ) → d ≢ c → key_in d u t.participants ≡ key_in d u s.participants
  pub roles : (d u : ℕ) → role_of d u t ≡ role_of d u s
  pub chats : t.chats ≡ s.chats

abbrev pub MayRotate : ℕ → ℕ → Store → Type 0
MayRotate c actor s = (r : Role) × (role_of c actor s ≡ some r) × (rank admin ≤ rank r)

rotated : ℕ → List (ℕ × String) → Store → Store
rotated c keys s = record s { participants = (rotate_from c 0 keys s.participants).1 }

rotated-Rotated :
    (c : ℕ) (keys : List (ℕ × String)) (s : Store)
    → Rotated c keys s (rotate_from c 0 keys s.participants).0 (rotated c keys s)
unfolding rotated
rotated-Rotated c keys s = record {
  counted = ground (arith, rotate_from-count c 0 keys s.participants);
  rekeyed = λ u. ground (arith, key_in-rotate_from c c u 0 keys s.participants);
  elsewhere = λ d u h. ground (arith, key_in-rotate_from d c u 0 keys s.participants);
  roles = λ d u. role_in-rotate_from d c u 0 keys s.participants;
  chats = refl;
}

-- `rotate_group_key` succeeds exactly for an admin or the owner, and does what `Rotated` says.
-- Otherwise nothing changes.
pub rotate_group_key-Guarded :
    (c a : ℕ) (keys : List (ℕ × String)) (s : Store)
    → Guarded s (MayRotate c a s) (Rotated c keys s) (rotate_group_key c a keys s)
unfolding rotate_group_key rotated
rotate_group_key-Guarded c a keys s = elim (Option-cases (role_of c a s)) [
  | inl e ↦
      Guarded-err _ _ _ _ (λ x. ground (arith, actor_role_lem a c s))
        (ground (arith, actor_role_lem a c s)) (λ m. ground arith)
  | inr (r, e) ↦ elim (Bool-cases (lt r admin)) [
    | inl low ↦
        Guarded-err _ _ _ _ (λ x. ground (arith, actor_role_lem a c s))
          (ground (arith, actor_role_lem a c s)) (λ m. ground arith)
    | inr high ↦
        Guarded-ok _ _ _ _ {a = (rotate_from c 0 keys s.participants).0} {t = rotated c keys s}
          (ground (arith, actor_role_lem a c s)) (r, e, ground arith) (rotated-Rotated c keys s)
  ]
]
