-- ===== src/Contacts/Blocks.antt =====
-- Blocking: the block queries of crates/infrastructure/src/repositories/user.rs, the table of
-- migrations/008_user_blocks.sql and crates/api/src/handlers/blocks/handlers.rs, over the store of the
-- messages. `id` is the new id, and `now` is `NOW()`.
pub mod Refusals
use mesty_api.Common.{
  ℕ, Bool, true, false, List, [], ◌∷◌, ◌&&◌, ◌||◌, ◌==◌, not, any, if◌then◌else◌, ltb, map,
  select_where, delete_where, order_with,
}
use mesty_api.DomainError.{validation, Result, ok, err, pure, gets, modify, throw_if, ◌>>=◌, ◌>>◌}
use mesty_api.Keys.Store.{Block}
use mesty_api.Messages.Store.{Store}

-- `blocker_id = u AND blocked_id = v`
abbrev pub is_block : ℕ → ℕ → Block → Bool
is_block u v b = b.blocker_id == u && b.blocked_id == v

unfoldable pub is_user_blocked : ℕ → ℕ → Store → Result Bool × Store
is_user_blocked u v = gets (λ s. any (is_block u v) s.user_blocks)

abbrev pub new_block : ℕ → ℕ → ℕ → ℕ → Block
new_block id now u v = record { id = id; blocker_id = u; blocked_id = v; created_at = now }

-- `INSERT … ON CONFLICT DO NOTHING`: the check, either key, the foreign keys
unfoldable pub insert_block : Block → Store → Result (Unit {0}) × Store
insert_block b s =
    if b.blocker_id == b.blocked_id
    then (err (validation "Validation constraint failed"), s)
    else if any (λ c. is_block b.blocker_id b.blocked_id c || c.id == b.id) s.user_blocks
    then (ok tt, s)
    else if not
        (any (λ w. w == b.blocker_id) s.chat.users && any (λ w. w == b.blocked_id) s.chat.users)
    then (err (validation "Referenced resource not found"), s)
    else (ok tt, record s { user_blocks = b ∷ s.user_blocks })

-- `PostgresUserRepository::block_user`
unfoldable pub add_block : ℕ → ℕ → ℕ → ℕ → Store → Result ℕ × Store
add_block id now u v = do insert_block (new_block id now u v); pure id

-- `PostgresUserRepository::unblock_user`
unfoldable pub remove_block : ℕ → ℕ → Store → Result Bool × Store
remove_block u v = do
  found ← gets (λ s. any (is_block u v) s.user_blocks)
  modify (λ s. record s { user_blocks = delete_where (is_block u v) s.user_blocks })
  pure found

unfoldable pub list_blocked_users : ℕ → Store → Result (List (ℕ × ℕ)) × Store
list_blocked_users u = gets (λ s.
    map (λ b. (b.id, b.blocked_id))
      (order_with (λ a b. ltb b.created_at a.created_at)
        (select_where (λ b. b.blocker_id == u) s.user_blocks)))

-- the answers of the block endpoints, by their status, without the time of the answer
pub data Answer : Type 0 where
  blocked_created : (id blocked_id : ℕ) → Answer
  own_block already_blocked no_block unblocked : Answer
  blocks : List (ℕ × ℕ) → Answer

unfoldable pub block_user : ℕ → ℕ → ℕ → ℕ → Store → Result Answer × Store
block_user id now auth user_id = if user_id == auth then pure own_block else do
  existing ← is_user_blocked auth user_id
  if existing
      then pure already_blocked
      else do block_id ← add_block id now auth user_id; pure (blocked_created block_id user_id)

unfoldable pub unblock_user : ℕ → ℕ → Store → Result Answer × Store
unblock_user auth user_id = do
  deleted ← remove_block auth user_id
  pure (if deleted then unblocked else no_block)

unfoldable pub list_blocked : ℕ → Store → Result Answer × Store
list_blocked auth = do bs ← list_blocked_users auth; pure (blocks bs)
