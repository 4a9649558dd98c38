-- ===== src/Messages/Listing.antt =====
-- Pages of messages: list_messages of crates/infrastructure/src/repositories/chat.rs, and the endpoint
-- list_messages of crates/api/src/handlers/chats/handlers.rs with its cursors. Base64 and serde_json are
-- a parameter.
pub mod Positions
pub mod Answers
pub mod Pages
pub mod Walk
pub mod Gaps
use mesty_api.Common.{
  ℕ, suc, ◌+◌, Bool, true, false, String, Option, none, some, List, [], ◌∷◌, ◌&&◌, ◌||◌, ◌==◌,
  is_none, find?, length, if◌then◌else◌, str_eq, leb, ltb, unwrap_or, select_where, take,
  order_with, last,
}
use mathlib.Core.List.{reverse}
use mathlib.Core.Option
use mesty_api.DomainError.{
  DomainError, validation, internal, Result, ok, err, pure, gets, throw, ok_or, ◌>>=◌, ◌>>◌,
}
use mesty_api.Keys.Store.{ℤ, pos, negsuc}
use mesty_api.Messages.Store.{Message, Store}
use mesty_api.Messages.Queries.{ensure_active_membership_pool}

pub record MessageCursor : Type 0 where
  pub created_at : ℕ
  pub message_id : ℕ

pub data MessageDirection : Type 0 where
  before after : MessageDirection

-- `limit.clamp(1, 50)`
abbrev pub clamp : ℤ → ℕ
clamp (pos n) = if ltb n 1 then 1 else if ltb 50 n then 50 else n
clamp (negsuc n) = 1

-- `(created_at, id)`
abbrev pub position : Message → MessageCursor
position m = record { created_at = m.created_at; message_id = m.id }

-- the order of the rows `(created_at, id)`
abbrev pub is_earlier : MessageCursor → MessageCursor → Bool
is_earlier a b =
    ltb a.created_at b.created_at || a.created_at == b.created_at && ltb a.message_id b.message_id

-- the rows after the cursor in the direction, every row when there is no cursor
abbrev pub is_past : MessageDirection → Option MessageCursor → Message → Bool
is_past d none m = true
is_past before (some c) m = is_earlier (position m) c
is_past after (some c) m = is_earlier c (position m)

abbrev pub is_listed : ℕ → Message → Bool
is_listed c m = m.chat_id == c && is_none m.deleted_at

-- `ORDER BY`: the newest first before a cursor, the oldest first after one
abbrev pub goes_first : MessageDirection → Message → Message → Bool
goes_first before a b = is_earlier (position b) (position a)
goes_first after a b = is_earlier (position a) (position b)

-- the rows of the query without its limit
abbrev pub matching : ℕ → Option MessageCursor → MessageDirection → Store → List Message
matching c cursor d s =
    order_with (goes_first d) (select_where (λ m. is_listed c m && is_past d cursor m) s.messages)

-- `if matches!(direction, MessageDirection::Before) { rows.reverse(); }`
abbrev pub as_returned : MessageDirection → List Message → List Message
as_returned before rows = reverse rows
as_returned after rows = rows

unfoldable pub list_messages :
    ℕ → ℕ → Option MessageCursor → MessageDirection → ℤ → Store → Result (List Message) × Store
list_messages user_id chat_id cursor direction limit = do
  ensure_active_membership_pool user_id chat_id
  rows ← gets (λ s. take (clamp limit) (matching chat_id cursor direction s))
  pure (as_returned direction rows)

-- `query.direction.as_deref().unwrap_or("before")`
unfoldable pub parse_direction : Option String → Option MessageDirection
parse_direction text =
    if str_eq (unwrap_or text "before") "before"
    then some before
    else if str_eq (unwrap_or text "before") "after"
    then some after
    else none

module _ {A : Type 0} where
  -- `items.len() as i64 > limit`
  abbrev pub has_more : ℕ → List A → Bool
  has_more limit items = ltb limit (length items)

  -- `if has_more { items.truncate(limit as usize); }`
  abbrev pub truncate : ℕ → List A → List A
  truncate limit items = if has_more limit items then take limit items else items

-- `URL_SAFE_NO_PAD` and `serde_json` on the DTO of a cursor, over texts of bytes
pub record Codec (Bytes Dto : Type 0) : Type 0 where
  pub encode : Bytes → String
  pub decode : String → Option Bytes
  pub to_vec : Dto → Option Bytes
  pub from_slice : Bytes → Option Dto

pub record Page (A : Type 0) : Type 0 where
  pub items : List A
  pub next_cursor : Option String
  pub has_more_items : Bool

module _ {Bytes : Type 0} (codec : Codec Bytes MessageCursor) where
  unfoldable pub decode_message_cursor :
      Option String → Store → Result (Option MessageCursor) × Store
  decode_message_cursor none = pure none
  decode_message_cursor (some raw) = do
    decoded ← ok_or (codec.decode raw) (validation "invalid message cursor encoding")
    dto ← ok_or (codec.from_slice decoded) (validation "invalid message cursor payload")
    pure (some dto)

  -- `message` is the error of serde_json
  unfoldable pub build_message_cursor : String → Message → Store → Result String × Store
  build_message_cursor message m = do
    encoded ← ok_or (codec.to_vec (position m)) (internal message)
    pure (codec.encode encoded)

  -- `items.last().map(build_message_cursor).transpose()?`
  unfoldable pub next_cursor_of : String → Option Message → Store → Result (Option String) × Store
  next_cursor_of message none = pure none
  next_cursor_of message (some m) = do text ← build_message_cursor message m; pure (some text)

  -- the endpoint, with the query's cursor, limit and direction
  unfoldable pub get_messages :
      String
      → ℕ
      → ℕ
      → Option String
      → Option ℤ
      → Option String
      → Store
      → Result (Page Message) × Store
  get_messages message auth chat_id cursor limit direction = do
    let n : ℕ = clamp (unwrap_or limit (pos 50))
    d ← ok_or (parse_direction direction) (validation "direction must be before or after")
    decoded_cursor ← decode_message_cursor cursor
    items ← list_messages auth chat_id decoded_cursor d (pos (n + 1))
    next_cursor ← next_cursor_of message (last (truncate n items))
    pure (record {
      items = truncate n items;
      next_cursor = next_cursor;
      has_more_items = has_more n items;
    })
