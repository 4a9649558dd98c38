-- ===== src/Messages/Listing/Walk.antt =====
-- A client that follows the cursors of list_messages
-- (crates/api/src/handlers/chats/handlers.rs).
use mesty_api.Common.{
  ℕ, zero, suc, ◌<◌, ◌≡◌, refl, sym, ap, ◌∙◌, inl, inr, true, false, String, Option, none, some,
  List, [], ◌∷◌, ◌++◌, length, take, last, ltb, unwrap_or, arith, Bool-cases,
}
use mathlib.Core.List.{append_assoc}
use mathlib.Core.Option
use mesty_api.DomainError.{ok, err}
use mesty_api.Keys.Store.{ℤ, pos}
use mesty_api.Messages.Store.{Message, Store}
use mesty_api.Messages.Listing.{
  MessageCursor, MessageDirection, after, clamp, position, matching, Codec, decode_message_cursor,
  get_messages,
}
use mesty_api.Messages.Listing.Positions.{Distinct, timeline, matching-none, matching-behind}
use mesty_api.Messages.Listing.Answers.{
  direction_text, IsMember, IsFaithful, cursor_text, decode_message_cursor-build, get_messages_lem,
}
use mesty_api.Messages.Listing.Pages.{
  take_all, has_more-take, truncate-take, split_page, clamp_next,
}

module _ {Bytes : Type 0} (codec : Codec Bytes MessageCursor) (message : String) where
  -- The pages of the direction put behind one another, up to the first that says that no more follow.
  -- No list, when the fuel runs out or a request is refused.
  pub follow :
      ℕ → ℕ → ℕ → Option ℤ → MessageDirection → Option String → Store → Option (List Message)
  follow zero u c limit d raw s = none
  follow (suc fuel) u c limit d raw s =
      elim (get_messages codec message u c raw limit (some (direction_text d)) s).0 [
        | err _ ↦ none
        | ok page ↦ elim page.has_more_items [
          | true ↦
              Option.map (λ rest. page.items ++ rest) (follow fuel u c limit d page.next_cursor s)
          | false ↦ some page.items
        ]
      ]

module _ {Bytes : Type 0} (codec : Codec Bytes MessageCursor) (faithful : IsFaithful Bytes codec)
    (message : String) (u c : ℕ) (limit : Option ℤ) (s : Store) (member : IsMember u c s) where
  -- the page after a cursor, with a limit below the bound of the query
  page_after :
      (raw : Option String) (cursor : Option MessageCursor) (n : ℕ)
      → decode_message_cursor codec raw s ≡ (ok cursor, s)
      → clamp (unwrap_or limit (pos 50)) ≡ n
      → n < 50
      → get_messages codec message u c raw limit (some "after") s ≡ (
        ok (record {
          items = take n (matching c cursor after s);
          next_cursor =
              Option.map (cursor_text codec faithful) (last (take n (matching c cursor after s)));
          has_more_items = ltb n (length (matching c cursor after s));
        }),
        s,
      )
  page_after raw cursor n e en h =
      let p = get_messages_lem codec faithful message u c raw cursor limit after s member e in
      ground (
        arith,
        p,
        en,
        clamp_next n h,
        has_more-take n (matching c cursor after s),
        truncate-take n (matching c cursor after s),
      )

  module _ (distinct : Distinct s.messages) (small : clamp (unwrap_or limit (pos 50)) < 50) where
    -- the rest of the timeline at a row of it, and behind the row
    split_at :
        (front front' : List Message) (x : Message) (rest rest' : List Message)
        → rest ≡ front' ++ x ∷ rest'
        → timeline c after s distinct ≡ front ++ rest
        → (timeline c after s distinct ≡ front ++ front' ++ x ∷ rest')
          × (timeline c after s distinct ≡ front ++ (front' ++ x ∷ []) ++ rest')
    split_at front front' x rest rest' split t = (
      t ∙ ap (◌++◌ front) split ∙ sym (append_assoc front front' (x ∷ rest')),
      t
          ∙ ap (◌++◌ front) (split ∙ sym (append_assoc front' (x ∷ []) rest'))
          ∙ sym (append_assoc front (front' ++ x ∷ []) rest'),
    )

    follow_from :
        (fuel : ℕ) (raw : Option String) (cursor : Option MessageCursor) (front rest : List Message)
        → decode_message_cursor codec raw s ≡ (ok cursor, s)
        → timeline c after s distinct ≡ front ++ rest
        → matching c cursor after s ≡ rest
        → length rest < fuel
        → follow codec message fuel u c limit after raw s ≡ some rest
    unfolding follow
    follow_from zero raw cursor front rest e t m h = absurd (omega arith)
    follow_from (suc fuel) raw cursor front rest e t m h =
        let n = clamp (unwrap_or limit (pos 50)) in
        let page = page_after raw cursor n e refl small in
        elim (Bool-cases (ltb n (length rest))) [
          | inr done ↦ ground (arith, page, m, done, take_all n rest (ground arith))
          | inl more ↦
              let (front', x, rest', split, first, l, joined, shorter) =
                split_page n rest (ground arith) (ground arith) in
              let (at_row, at_rest) = split_at front front' x rest rest' split t in
              let tail =
                follow_from fuel (some (cursor_text codec faithful x)) (some (position x))
                  (front ++ (front' ++ x ∷ [])) rest'
                  (decode_message_cursor-build codec faithful x s) at_rest
                  (matching-behind c after s distinct (front ++ front') x rest' at_row)
                  (omega arith) in
              ground (arith, page, m, more, l, tail, joined)
        ]

    -- With a limit below 50, a participant of a live chat who follows the cursors in the direction
    -- "after" gets every message of the chat that is not deleted exactly once, the oldest first, with at
    -- most one request more than there are such messages, if the ids of messages are distinct and
    -- cursors survive their encoding.
    pub follow-timeline :
        follow codec message (suc (length (timeline c after s distinct))) u c limit after none s
        ≡ some (timeline c after s distinct)
    unfolding decode_message_cursor
    follow-timeline =
        let t = timeline c after s distinct in
        follow_from (suc (length t)) none none [] t refl refl (matching-none c after s distinct)
          (omega arith)
