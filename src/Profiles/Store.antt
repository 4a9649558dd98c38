-- ===== src/Profiles/Store.antt =====
-- What the user endpoints read: the tables `users` and `user_profiles` as one (migrations/002 and 003),
-- `user_blocks`, and in Redis the profiles of `ProfileCache` (crates/infrastructure/src/cache/profile.rs)
-- and the counters of the rate limit. The queries are those of
-- crates/infrastructure/src/repositories/user.rs. A time is in seconds.
use Prim.Native.Char.{code}
use Prim.Native.String as Text
use Prim.Native.String.{String, compare}
use text.Mathlib.Text.{is_lt}
use mesty_api.Common.{
  ℕ, ◌+◌, Bool, true, false, Option, none, some, List, ◌&&◌, ◌||◌, ◌==◌, not, any, find?, is_none,
  ltb, str_eq, concat, starts_with_plus, if◌then◌else◌, select_where, order_with, take,
}
use mathlib.Core.Option
use mesty_api.DomainError.{internal, Result, ok, err, gets}
use mesty_api.Keys.Store.{ℤ, pos, negsuc, Block}
use mesty_api.Otp.{Redis}

-- a user with the row of `user_profiles`, if there is one
pub record UserRow : Type 0 where
  pub id : ℕ
  pub username : Option String
  pub phone : String
  pub display_name : Option String
  pub bio : Option String
  pub avatar_url : Option String
  pub status_text : Option String
  pub is_active : Bool
  pub deleted_at : Option ℕ

-- `CachedProfile`, and the tuple that find_profile_by_id returns
pub record Profile : Type 0 where
  pub id : ℕ
  pub username : Option String
  pub display_name : String
  pub bio : Option String
  pub avatar_url : Option String
  pub status_text : Option String

pub record Entry : Type 0 where
  pub profile : Profile
  pub expires_at : ℕ

pub record Store : Type 0 where
  pub users : List UserRow
  pub user_blocks : List Block
  pub redis : Redis
  pub profile_cache : Option (ℕ → Option Entry)

-- `COALESCE(up.display_name, '')`
abbrev pub shown_name : UserRow → String
shown_name u = elim u.display_name [ none ↦ "" | some n ↦ n ]

abbrev pub to_profile : UserRow → Profile
to_profile u = record {
  id = u.id;
  username = u.username;
  display_name = shown_name u;
  bio = u.bio;
  avatar_url = u.avatar_url;
  status_text = u.status_text;
}

-- `u.id = $1 AND u.deleted_at IS NULL AND u.is_active = TRUE`
abbrev pub is_account : ℕ → UserRow → Bool
is_account i u = u.id == i && is_none u.deleted_at && u.is_active

-- the profile that a table of users holds
unfoldable pub profile_in : ℕ → List UserRow → Option Profile
profile_in i users = Option.map to_profile (find? (is_account i) users)

unfoldable pub find_profile_by_id : ℕ → Store → Result (Option Profile) × Store
find_profile_by_id i = gets (λ s. profile_in i s.users)

-- `is_user_blocked`
unfoldable pub is_user_blocked : ℕ → ℕ → Store → Result Bool × Store
is_user_blocked u v = gets (λ s. any (λ b. b.blocker_id == u && b.blocked_id == v) s.user_blocks)

-- an entry that has not expired
unfoldable pub live_profile : ℕ → Option Entry → Option Profile
live_profile now none = none
live_profile now (some e) = if ltb now e.expires_at then some e.profile else none

-- `ProfileCache::get`, after `if let Some(ref cache) = state.profile_cache`
unfoldable pub get_cached : ℕ → ℕ → Store → Option Profile
get_cached now i s = elim s.profile_cache [ none ↦ none | some cache ↦ live_profile now (cache i) ]

abbrev pub lifetime : ℕ
lifetime = 300

-- `ProfileCache::set`
unfoldable pub set_cached : ℕ → Profile → Store → Store
set_cached now p s = record s {
  profile_cache =
      Option.map
        (λ cache i.
          if i == p.id then some (record { profile = p; expires_at = now + lifetime }) else cache i)
        s.profile_cache;
}

-- `ProfileCache::invalidate`, which nothing calls
unfoldable pub invalidate : ℕ → Store → Store
invalidate u s = record s {
  profile_cache = Option.map (λ cache i. if i == u then none else cache i) s.profile_cache;
}

-- `trim_start_matches('@')`
unfoldable pub trim_start_ats : String → String
trim_start_ats Text.[] = Text.[]
trim_start_ats (Text.◌∷◌ c s) =
    let rest = trim_start_ats s in if code c == 64 then rest else Text.◌∷◌ c s

unfoldable pub starts_with_at : String → Bool
starts_with_at Text.[] = false
starts_with_at (Text.◌∷◌ c _) = code c == 64

unfoldable pub search_pattern : String → String
search_pattern query =
    if starts_with_at query
    then concat (trim_start_ats query) "%"
    else if starts_with_plus query
    then query
    else concat "%" (concat query "%")

-- `NULLS LAST`, ascending, and then what decides between equal values
abbrev pub null_last : Option String → Option String → Bool → Bool
null_last a b next = elim a [
  | none ↦ is_none b && next
  | some x ↦ elim b [ none ↦ true | some y ↦ is_lt (compare x y) || str_eq x y && next ]
]

-- `ORDER BY u.username NULLS LAST, up.display_name NULLS LAST`
abbrev pub goes_first : UserRow → UserRow → Bool
goes_first a b = null_last a.username b.username (null_last a.display_name b.display_name false)

-- the WHERE clause of `search_users`; `ilike` is the operator ILIKE
abbrev pub is_found : (String → String → Bool) → String → ℕ → Store → UserRow → Bool
is_found ilike pattern me s u =
    is_none u.deleted_at
    && u.is_active
    && not (u.id == me)
    && (elim u.username [ none ↦ false | some n ↦ ilike n pattern ]
        || elim u.display_name [ none ↦ false | some n ↦ ilike n pattern ]
        || ilike u.phone pattern)
    && not (any (λ b. b.blocker_id == u.id && b.blocked_id == me) s.user_blocks)
    && not (any (λ b. b.blocker_id == me && b.blocked_id == u.id) s.user_blocks)

-- the rows of `search_users`; a negative LIMIT is an error of the database
unfoldable pub search_users :
    (String → String → Bool) → String → ℤ → ℕ → Store → Result (List UserRow) × Store
search_users ilike query (negsuc n) me s = (err (internal "Database operation failed"), s)
search_users ilike query (pos n) me s = (
  ok (
      take n (
        order_with goes_first (select_where (is_found ilike (search_pattern query) me s) s.users))),
  s,
)
