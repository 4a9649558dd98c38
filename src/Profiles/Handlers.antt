-- ===== src/Profiles/Handlers.antt =====
-- The endpoints of crates/api/src/handlers/users/handlers.rs. `ilike` is PostgreSQL's operator ILIKE,
-- `uuid_text` the text of a uuid, and `now` the time of the request.
use mesty_api.Common.{
  ℕ, Bool, String, Option, none, some, List, not, is_empty, trim, concat, leb, map, if◌then◌else◌,
}
use mesty_api.DomainError.{not_found, Result, ok, pure, gets, modify, throw_if, ok_or, ◌>>=◌, ◌>>◌}
use mesty_api.Keys.Store.{ℤ, pos, negsuc}
use mesty_api.Otp.{check_rate_limit}
use mesty_api.Profiles.Store as Queries
use mesty_api.Profiles.Store.{
  UserRow, Profile, Store, shown_name, is_user_blocked, get_cached, set_cached, find_profile_by_id,
}

pub record UserSearchResult : Type 0 where
  pub id : ℕ
  pub username : Option String
  pub display_name : String
  pub avatar_url : Option String

-- the answers of search_users, by their status
pub data Answer : Type 0 where
  missing_query too_many : Answer
  results : List UserSearchResult → Answer

abbrev pub to_result : UserRow → UserSearchResult
to_result u = record {
  id = u.id;
  username = u.username;
  display_name = shown_name u;
  avatar_url = u.avatar_url;
}

-- `query.limit.unwrap_or(20).min(50)`
abbrev pub capped : Option ℤ → ℤ
capped none = pos 20
capped (some (negsuc n)) = negsuc n
capped (some (pos n)) = pos (if leb n 50 then n else 50)

-- `Some(q) if !q.trim().is_empty()`
unfoldable pub search_term : Option String → Option String
search_term none = none
search_term (some q) = if is_empty (trim q) then none else some q

unfoldable pub search_users :
    (String → String → Bool)
    → (ℕ → String)
    → ℕ
    → ℕ
    → Option String
    → Option ℤ
    → Store
    → Result Answer × Store
search_users ilike uuid_text now auth q limit = elim (search_term q) [
  | none ↦ pure missing_query
  | some term ↦ do
    let key : String = concat "search:" (uuid_text auth)
    allowed ← gets (λ s. (check_rate_limit now key 30 60 s.redis).0)
    modify (λ s. record s { redis = (check_rate_limit now key 30 60 s.redis).1 })
    if not allowed then pure too_many else do
      found ← Queries.search_users ilike term (capped limit) auth
      pure (results (map to_result found))
]

-- the cached profile, or the stored one, which is cached then
unfoldable pub read_profile : ℕ → ℕ → Store → Result Profile × Store
read_profile now user_id s = elim (get_cached now user_id s) [
  | some p ↦ (ok p, s)
  | none ↦
      (do
        found ← find_profile_by_id user_id
        profile ← ok_or found (not_found "User not found")
        modify (set_cached now profile)
        pure profile)
        s
]

unfoldable pub get_user_profile : ℕ → ℕ → ℕ → Store → Result Profile × Store
get_user_profile now auth user_id = do
  is_blocked ← is_user_blocked auth user_id
  throw_if is_blocked (not_found "User not found")
  is_blocking ← is_user_blocked user_id auth
  throw_if is_blocking (not_found "User not found")
  read_profile now user_id

unfoldable pub get_my_profile : ℕ → ℕ → Store → Result Profile × Store
get_my_profile now auth = read_profile now auth
