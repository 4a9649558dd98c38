-- ===== src/Messages/Listing/Gaps.antt =====
-- Where the pages of list_messages (crates/api/src/handlers/chats/handlers.rs and
-- crates/infrastructure/src/repositories/chat.rs) leave messages out.
use mesty_api.Common.{
  ℕ, ◌≤◌, ◌<◌, ◌≡◌, true, false, String, Option, some, List, ◌∷◌, length, take, last, unwrap_or,
  arith,
}
use mathlib.Core.List.{reverse}
use mathlib.Core.Option
use mesty_api.DomainError.{ok}
use mesty_api.Keys.Store.{ℤ, pos}
use mesty_api.Messages.Store.{Message, Store}
use mesty_api.Messages.Listing.{
  MessageCursor, MessageDirection, before, after, clamp, matching, as_returned, Codec,
  decode_message_cursor, get_messages, has_more,
}
use mesty_api.Messages.Listing.Answers.{
  direction_text, IsMember, IsFaithful, cursor_text, get_messages_lem,
}
use mesty_api.Messages.Listing.Pages.{
  has_more-take_le, truncate-reverse, clamp_next, length-reverse, last-reverse, has_more-reverse,
  clamp_bounds,
}

module _ {Bytes : Type 0} (codec : Codec Bytes MessageCursor) (faithful : IsFaithful Bytes codec)
    (message : String) (u c : ℕ) (raw : Option String) (cursor : Option MessageCursor)
    (limit : Option ℤ) (s : Store) (member : IsMember u c s)
    (read : decode_message_cursor codec raw s ≡ (ok cursor, s)) where
  -- With a limit of 50, which is also the default, a page never says that more messages follow, and is
  -- the 50 rows next to the cursor.
  pub get_messages-last_page :
      (d : MessageDirection)
      → clamp (unwrap_or limit (pos 50)) ≡ 50
      → let rows = as_returned d (take 50 (matching c cursor d s)) in
        get_messages codec message u c raw limit (some (direction_text d)) s ≡ (
          ok (record {
            items = rows;
            next_cursor = Option.map (cursor_text codec faithful) (last rows);
            has_more_items = false;
          }),
          s,
        )
  get_messages-last_page d full = ground (
    arith,
    get_messages_lem codec faithful message u c raw cursor limit d s member read,
    no_more d,
  )
    where
      no_more :
          (d : MessageDirection)
          → has_more 50 (as_returned d (take 50 (matching c cursor d s))) ≡ false
      no_more before = ground (
        arith,
        length-reverse (take 50 (matching c cursor before s)),
        has_more-take_le 50 (matching c cursor before s),
      )
      no_more after = has_more-take_le 50 (matching c cursor after s)

  -- Before a cursor, with a limit below 50 and more messages there than the limit, the page leaves out
  -- the newest of them, and its cursor is the message next to that one: the next page starts one message
  -- further, and not behind this page.
  pub get_messages-overlap :
      (m next : Message) (rest : List Message) (n : ℕ)
      → clamp (unwrap_or limit (pos 50)) ≡ n
      → n < 50
      → matching c cursor before s ≡ m ∷ next ∷ rest
      → n ≤ length (next ∷ rest)
      → get_messages codec message u c raw limit (some "before") s ≡ (
        ok (record {
          items = reverse (take n (next ∷ rest));
          next_cursor = some (cursor_text codec faithful next);
          has_more_items = true;
        }),
        s,
      )
  get_messages-overlap m next rest n en small rows many =
      let some_rows : 0 < n = omega (arith, (clamp_bounds (unwrap_or limit (pos 50))).0) in
      ground (
        arith,
        get_messages_lem codec faithful message u c raw cursor limit before s member read,
        rows,
        clamp_next n small,
        truncate-reverse n m (next ∷ rest) many,
        last-reverse n next rest some_rows,
        has_more-reverse n m (next ∷ rest) many,
      )
