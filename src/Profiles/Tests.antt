-- ===== src/Profiles/Tests.antt =====
-- A profile that is renamed after it was cached, on which the theorem on the endpoints of
-- crates/api/src/handlers/users/handlers.rs is applied.
use mesty_api.Common.{ℕ, ◌+◌, ◌<◌, ◌≡◌, refl, true, false, String, none, some, List, [], ◌∷◌}
use mesty_api.DomainError.{ok}
use mesty_api.Otp.{Redis}
use mesty_api.Profiles.Store.{
  UserRow, Store, to_profile, profile_in, is_user_blocked, live_profile, get_cached, set_cached,
  find_profile_by_id,
}
use mesty_api.Profiles.Handlers.{read_profile, get_user_profile}
use mesty_api.Profiles.Histories.{Held, Reached, start, other_read, change}
use mesty_api.Profiles.Freshness.{either_blocks, get_user_profile-Reached}

abbrev account : ℕ → String → UserRow
account i name = record {
  id = i;
  username = none;
  phone = "+57300123";
  display_name = some name;
  bio = none;
  avatar_url = none;
  status_text = none;
  is_active = true;
  deleted_at = none;
}

abbrev counters : Redis
counters = record { slots = λ p x. record { code = none; attempts = none }; rates = λ k. none }

abbrev old_users : List UserRow
old_users = account 1 "Leo" ∷ account 2 "Ana" ∷ []

abbrev first : Store
first = record {
  users = old_users;
  user_blocks = [];
  redis = counters;
  profile_cache = some (λ i. none);
}

-- user 1 reads the profile of user 2 at 100, who then changes the name
abbrev renamed : Store
renamed = record (get_user_profile 100 1 2 first).1 {
  users = account 1 "Leo" ∷ account 2 "Eva" ∷ [];
  user_blocks = [];
  redis = counters;
}

renamed-Reached : Reached ((100, old_users) ∷ []) renamed
renamed-Reached = change _ _ _ (other_read 100 1 2 (start old_users [] counters))

still_old : get_user_profile 350 1 2 renamed ≡ (ok (to_profile (account 2 "Ana")), renamed)
unfolding get_user_profile read_profile is_user_blocked live_profile get_cached set_cached
    find_profile_by_id profile_in
still_old = refl

get_user_profile-Reached_example :
    (either_blocks 1 2 renamed ≡ false)
    × ((at : ℕ) × (users : List UserRow) × Held
          ((350, renamed.users) ∷ (100, old_users) ∷ [])
          at
          users
        × (profile_in 2 users ≡ some (to_profile (account 2 "Ana")))
        × (350 < at + 300))
get_user_profile-Reached_example =
    get_user_profile-Reached ((100, old_users) ∷ []) renamed renamed 350 1 2
      (to_profile (account 2 "Ana")) renamed-Reached still_old
