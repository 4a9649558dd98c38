-- ===== src/Messages/Settings/Merging.antt =====
-- Reading the settings of a chat after an update: update_chat_settings and get_chat_settings of
-- crates/infrastructure/src/repositories/chat.rs.
use mesty_api.Common.{
  ℕ, ◌≡◌, refl, ap, inl, inr, true, false, some, List, [], ◌∷◌, ==_refl, any, find?, unwrap_or,
  coalesce, arith, Bool-cases, update_where, upsert,
}
use mathlib.Core.Option
use mesty_api.DomainError.{ok}
use mesty_api.Messages.Store.{SettingsRow, Store}
use mesty_api.Messages.Settings.{
  ChatSettings, UpdateChatSettings, no_settings, to_settings, is_settings_of, get_chat_settings,
  first_settings, changed_settings, update_chat_settings,
}

-- the settings with what the update gives
abbrev pub merge : UpdateChatSettings → ChatSettings → ChatSettings
merge n c = record {
  is_muted = unwrap_or n.is_muted c.is_muted;
  muted_until = coalesce n.muted_until c.muted_until;
  is_pinned = unwrap_or n.is_pinned c.is_pinned;
  pin_order = unwrap_or n.pin_order c.pin_order;
  is_archived = unwrap_or n.is_archived c.is_archived;
}

-- the settings of a user for a chat, or the default
abbrev pub current : ℕ → ℕ → List SettingsRow → ChatSettings
current u c rows = unwrap_or (Option.map to_settings (find? (is_settings_of u c) rows)) no_settings

module _ (u c : ℕ) (n : UpdateChatSettings) where
  find?-changed :
      (rows : List SettingsRow)
      → any (is_settings_of u c) rows ≡ true
      → Option.map to_settings
          (find? (is_settings_of u c) (update_where (is_settings_of u c) (changed_settings n) rows))
        ≡ some (merge n (current u c rows))
  find?-changed [] h = absurd (ground arith)
  find?-changed (r ∷ rs) h = elim (Bool-cases (is_settings_of u c r)) [
    | inl e ↦ ground arith
    | inr e ↦ ground (arith, find?-changed rs)
  ]

  current-none :
      (rows : List SettingsRow)
      → any (is_settings_of u c) rows ≡ false
      → current u c rows ≡ no_settings
  current-none [] h = refl
  current-none (r ∷ rs) h = ground (arith, current-none rs)

  merged :
      (rows : List SettingsRow)
      → Option.map to_settings (
          find?
            (is_settings_of u c)
            (upsert (is_settings_of u c) (first_settings u c n) (changed_settings n) rows))
        ≡ some (merge n (current u c rows))
  merged rows = elim (Bool-cases (any (is_settings_of u c) rows)) [
    | inl e ↦ rw e (find?-changed rows e)
    | inr e ↦ rw (e, current-none rows e, ==_refl u, ==_refl c) (ground arith)
  ]

update_chat_settings_lem :
    (u c : ℕ) (n : UpdateChatSettings) (s : Store) (x : ChatSettings) (t : Store)
    → update_chat_settings u c n s ≡ (ok x, t)
    → t ≡ record s {
      settings = upsert (is_settings_of u c) (first_settings u c n) (changed_settings n) s.settings;
    }
unfolding update_chat_settings get_chat_settings
update_chat_settings_lem u c n s x t e = ground arith

-- Once an update has succeeded, reading the settings gives what the update gave and, where it gave
-- nothing, what was there before or the default: a time up to which the chat is muted stays.
pub get_chat_settings-update_chat_settings :
    (u c : ℕ) (n : UpdateChatSettings) (s : Store) (x : ChatSettings) (t : Store)
    → update_chat_settings u c n s ≡ (ok x, t)
    → (get_chat_settings u c t).0 ≡ ok (some (merge n (current u c s.settings)))
unfolding get_chat_settings
get_chat_settings-update_chat_settings u c n s x t e =
    rw (update_chat_settings_lem u c n s x t e) (ap ok (merged u c n s.settings))
