-- ===== src/Chat/Participants/Roles.antt =====
-- The role that `get_participant_role` finds, after each change of the participants.
use mesty_api.Common.{
  ℕ, ◌≡◌, refl, String, Option, none, some, List, [], ◌∷◌, ◌&&◌, ◌==◌, is_some, any, find?,
  if◌then◌else◌, update_where, upsert, arith,
}
use mathlib.Core.Option
use mesty_api.DomainError.{ok, err, unauthorized}
use mesty_api.Chat.Role
use mesty_api.Chat.Role.{Role, member, admin, owner}
use mesty_api.Chat.Store.{Participant, Store, is_at, is_active}
use mesty_api.Chat.Participants.{
  ParticipantDetail, set_role, get_participant_role, actor_role, to_detail,
}

-- the role of an active participant
abbrev pub role_in : ℕ → ℕ → List Participant → Option Role
role_in c u ps = Option.map (λ p. p.role) (find? (is_active c u) ps)

abbrev pub role_of : ℕ → ℕ → Store → Option Role
role_of c u s = role_in c u s.participants

role_text :
    (o : Option Participant)
    → Option.bind (Option.map (λ p. Role.as_db_str p.role) o) Role.from_db_str
      ≡ Option.map (λ p. p.role) o
unfolding Option.bind
role_text none = refl
role_text (some p) = Role.from_db_str-as_db_str p.role

pub get_participant_role_lem :
    (u c : ℕ) (s : Store) → get_participant_role u c s ≡ (ok (role_of c u s), s)
unfolding get_participant_role
get_participant_role_lem u c s = rw (role_text (find? (is_active c u) s.participants))

pub actor_role_lem :
    (u c : ℕ) (s : Store)
    → actor_role u c s ≡ (elim (role_of c u s) [
      | none ↦ (err (unauthorized "not a member of this chat"), s)
      | some r ↦ (ok r, s)
    ])
unfolding actor_role
actor_role_lem u c s = ground (arith, get_participant_role_lem u c s)

abbrev pub detail : Participant → ParticipantDetail
detail p = record {
  user_id = p.user_id;
  chat_id = p.chat_id;
  role = p.role;
  encryption_key_enc = p.encryption_key_enc;
  added_by = p.added_by;
  joined_at = p.joined_at;
}

pub to_detail_lem : (p : Participant) (s : Store) → to_detail p s ≡ (ok (detail p), s)
unfolding to_detail
to_detail_lem p s = ground (arith, Role.from_db_str-as_db_str p.role)

module _ (c u d v : ℕ) where
  -- SET role, on the active row of a key and on every row of a key
  pub role_in-set_active :
      (r : Role) (ps : List Participant)
      → role_in c u (update_where (is_active d v) (λ p. record p { role = r }) ps)
        ≡ (if d == c && v == u && is_some (role_in c u ps) then some r else role_in c u ps)
  role_in-set_active r [] = ground arith
  role_in-set_active r (p ∷ ps) = ground (arith, role_in-set_active r ps)

  pub role_in-set_role :
      (r : Role) (ps : List Participant)
      → role_in c u (set_role d v r ps)
        ≡ (if d == c && v == u && is_some (role_in c u ps) then some r else role_in c u ps)
  role_in-set_role r [] = ground arith
  role_in-set_role r (p ∷ ps) = ground (arith, role_in-set_role r ps)

  -- SET left_at, on the active row of a key and on every row of a key
  pub role_in-remove :
      (now : ℕ) (ps : List Participant)
      → role_in c u (update_where (is_active d v) (λ p. record p { left_at = some now }) ps)
        ≡ (if d == c && v == u then none else role_in c u ps)
  role_in-remove now [] = ground arith
  role_in-remove now (p ∷ ps) = ground (arith, role_in-remove now ps)

  pub role_in-leave :
      (now : ℕ) (ps : List Participant)
      → role_in c u (update_where (is_at d v) (λ p. record p { left_at = some now }) ps)
        ≡ (if d == c && v == u then none else role_in c u ps)
  role_in-leave now [] = ground arith
  role_in-leave now (p ∷ ps) = ground (arith, role_in-leave now ps)

  -- SET encryption_key_enc
  pub role_in-set_key :
      (k : String) (ps : List Participant)
      → role_in c u
          (update_where (is_active d v) (λ p. record p { encryption_key_enc = some k }) ps)
        ≡ role_in c u ps
  role_in-set_key k [] = refl
  role_in-set_key k (p ∷ ps) = ground (arith, role_in-set_key k ps)

  -- SET of an insertion that finds the key: active again, as a member
  role_in-rejoin :
      (f : Participant → Participant)
      → ((p : Participant)
          → ((f p).chat_id ≡ p.chat_id)
            × ((f p).user_id ≡ p.user_id)
            × ((f p).role ≡ member)
            × ((f p).left_at ≡ none))
      → (ps : List Participant)
      → role_in c u (update_where (is_at d v) f ps)
        ≡ (if d == c && v == u && any (is_at d v) ps then some member else role_in c u ps)
  role_in-rejoin f sets [] = ground arith
  role_in-rejoin f sets (p ∷ ps) = ground (arith, sets p, role_in-rejoin f sets ps)

  pub role_in-upsert :
      (new : Participant) (f : Participant → Participant)
      → (new.chat_id ≡ d) × (new.user_id ≡ v) × (new.role ≡ member) × (new.left_at ≡ none)
      → ((p : Participant)
          → ((f p).chat_id ≡ p.chat_id)
            × ((f p).user_id ≡ p.user_id)
            × ((f p).role ≡ member)
            × ((f p).left_at ≡ none))
      → (ps : List Participant)
      → role_in c u (upsert (is_at d v) new f ps)
        ≡ (if d == c && v == u then some member else role_in c u ps)
  role_in-upsert new f row sets ps = ground (arith, role_in-rejoin f sets ps)
