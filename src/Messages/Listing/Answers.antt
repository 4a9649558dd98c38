-- ===== src/Messages/Listing/Answers.antt =====
-- What the endpoint list_messages of crates/api/src/handlers/chats/handlers.rs answers to a participant.
use mesty_api.Common.{
  ℕ, ◌+◌, ◌≡◌, refl, true, String, Option, none, some, List, any, take, last, unwrap_or, arith,
}
use mathlib.Core.Option
use mesty_api.DomainError.{ok}
use mesty_api.Keys.Store.{ℤ, pos}
use mesty_api.Chat.Store.{is_active, is_live}
use mesty_api.Messages.Store.{Message, Store}
use mesty_api.Messages.Queries.{ensure_active_membership_pool}
use mesty_api.Messages.Listing.{
  MessageCursor, MessageDirection, before, after, clamp, position, matching, as_returned,
  list_messages, parse_direction, has_more, truncate, Codec, Page, decode_message_cursor,
  build_message_cursor, next_cursor_of, get_messages,
}

-- the text of the query's direction
abbrev pub direction_text : MessageDirection → String
direction_text before = "before"
direction_text after = "after"

parse_direction-direction_text :
    (d : MessageDirection) → parse_direction (some (direction_text d)) ≡ some d
unfolding parse_direction
parse_direction-direction_text before = refl
parse_direction-direction_text after = refl

abbrev pub IsMember : ℕ → ℕ → Store → Type 0
IsMember u c s =
    (any (is_active c u) s.chat.participants ≡ true) × (any (is_live c) s.chat.chats ≡ true)

list_messages_lem :
    (u c : ℕ) (cursor : Option MessageCursor) (d : MessageDirection) (limit : ℤ) (s : Store)
    → IsMember u c s
    → list_messages u c cursor d limit s
      ≡ (ok (as_returned d (take (clamp limit) (matching c cursor d s))), s)
unfolding list_messages ensure_active_membership_pool
list_messages_lem u c cursor d limit s h = ground arith

-- Base64 and JSON lose nothing.
abbrev pub IsFaithful : (Bytes : Type 0) → Codec Bytes MessageCursor → Type 0
IsFaithful Bytes codec =
    (c : MessageCursor)
    → (b : Bytes) × (codec.to_vec c ≡ some b)
      × (codec.decode (codec.encode b) ≡ some b)
      × (codec.from_slice b ≡ some c)

module _ {Bytes : Type 0} (codec : Codec Bytes MessageCursor)
    (faithful : IsFaithful Bytes codec) where
  abbrev pub cursor_text : Message → String
  cursor_text m = codec.encode (faithful (position m)).0

  -- a cursor that a page names is read as the position of the message
  pub decode_message_cursor-build :
      (m : Message) (s : Store)
      → decode_message_cursor codec (some (cursor_text m)) s ≡ (ok (some (position m)), s)
  unfolding decode_message_cursor
  decode_message_cursor-build m s = ground (arith, faithful (position m))

  next_cursor_of_lem :
      (message : String) (o : Option Message) (s : Store)
      → next_cursor_of codec message o s ≡ (ok (Option.map cursor_text o), s)
  unfolding next_cursor_of build_message_cursor
  next_cursor_of_lem message none s = refl
  next_cursor_of_lem message (some m) s = ground (arith, faithful (position m))

  -- the page that the endpoint makes of the rows it fetched
  abbrev pub page_of : ℕ → List Message → Page Message
  page_of n rows = record {
    items = truncate n rows;
    next_cursor = Option.map cursor_text (last (truncate n rows));
    has_more_items = has_more n rows;
  }

  pub get_messages_lem :
      (message : String) (u c : ℕ) (raw : Option String) (cursor : Option MessageCursor)
      (limit : Option ℤ) (d : MessageDirection) (s : Store)
      → IsMember u c s
      → decode_message_cursor codec raw s ≡ (ok cursor, s)
      → let n = clamp (unwrap_or limit (pos 50)) in
        get_messages codec message u c raw limit (some (direction_text d)) s
        ≡ (ok (page_of n (as_returned d (take (clamp (pos (n + 1))) (matching c cursor d s)))), s)
  unfolding get_messages
  get_messages_lem message u c raw cursor limit d s h e =
      let n = clamp (unwrap_or limit (pos 50)) in
      ground (
        arith,
        parse_direction-direction_text d,
        e,
        list_messages_lem u c cursor d (pos (n + 1)) s h,
        next_cursor_of_lem message
            (last (truncate n (as_returned d (take (clamp (pos (n + 1))) (matching c cursor d s)))))
            s,
      )
