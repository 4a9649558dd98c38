-- ===== src/Profiles/Histories.antt =====
-- Sequences of reads of profiles, between which the tables and the counters change in any way.
use mesty_api.Common.{ℕ, List, [], ◌∷◌, some, none}
use mesty_api.Keys.Store.{Block}
use mesty_api.Otp.{Redis}
use mesty_api.Profiles.Store.{UserRow, Store}
use mesty_api.Profiles.Handlers.{get_user_profile, get_my_profile}

-- the times of the reads with the users that the table held then, the latest first
abbrev pub History : Type 0
History = List (ℕ × List UserRow)

pub data Held : History → ℕ → List UserRow → Type 0 where
  now_held : {h : History} {at : ℕ} {users : List UserRow} → Held ((at, users) ∷ h) at users
  held_before :
      {h : History} {at : ℕ} {users : List UserRow} {entry : ℕ × List UserRow}
      → Held h at users
      → Held (entry ∷ h) at users

-- the states that requests and changes of the database reach from an empty cache
pub data Reached : History → Store → Type 0 where
  start :
      (users : List UserRow) (blocks : List Block) (redis : Redis)
      → Reached [] (record {
        users = users;
        user_blocks = blocks;
        redis = redis;
        profile_cache = some (λ i. none);
      })
  other_read :
      {h : History} {s : Store} (now auth user_id : ℕ)
      → Reached h s
      → Reached ((now, s.users) ∷ h) (get_user_profile now auth user_id s).1
  own_read :
      {h : History} {s : Store} (now auth : ℕ)
      → Reached h s
      → Reached ((now, s.users) ∷ h) (get_my_profile now auth s).1
  change :
      {h : History} {s : Store} (users : List UserRow) (blocks : List Block) (redis : Redis)
      → Reached h s
      → Reached h (record s { users = users; user_blocks = blocks; redis = redis })
