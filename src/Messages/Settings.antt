-- ===== src/Messages/Settings.antt =====
-- The settings of a chat: get_chat_settings and update_chat_settings of
-- crates/infrastructure/src/repositories/chat.rs, with the default of
-- crates/domain/src/chat/notifications.rs.
pub mod Merging
use mesty_api.Common.{
  ℕ, ◌≡◌, refl, Bool, true, false, Option, none, some, List, [], ◌∷◌, ◌&&◌, ◌||◌, ◌==◌, not, any,
  find?, unwrap_or, is_none, coalesce, upsert, if◌then◌else◌, arith, ltb,
}
use mathlib.Core.Option
use mesty_api.DomainError.{
  not_found, validation, Result, ok, pure, gets, modify, ok_or, throw_if, ◌>>=◌, ◌>>◌,
}
use mesty_api.Keys.Store.{ℤ, pos}
use mesty_api.Messages.Store.{SettingsRow, Store}

pub record ChatSettings : Type 0 where
  pub is_muted : Bool
  pub muted_until : Option ℕ
  pub is_pinned : Bool
  pub pin_order : ℤ
  pub is_archived : Bool

pub record UpdateChatSettings : Type 0 where
  pub is_muted : Option Bool
  pub muted_until : Option ℕ
  pub is_pinned : Option Bool
  pub pin_order : Option ℤ
  pub is_archived : Option Bool

-- `ChatSettings::default()`
abbrev pub no_settings : ChatSettings
no_settings = record {
  is_muted = false;
  muted_until = none;
  is_pinned = false;
  pin_order = pos 0;
  is_archived = false;
}

abbrev pub to_settings : SettingsRow → ChatSettings
to_settings r = record {
  is_muted = r.is_muted;
  muted_until = r.muted_until;
  is_pinned = r.is_pinned;
  pin_order = r.pin_order;
  is_archived = r.is_archived;
}

abbrev pub is_settings_of : ℕ → ℕ → SettingsRow → Bool
is_settings_of u c r = r.user_id == u && r.chat_id == c

unfoldable pub get_chat_settings : ℕ → ℕ → Store → Result (Option ChatSettings) × Store
get_chat_settings u c = do
  row ← gets (λ s. find? (is_settings_of u c) s.settings)
  pure (Option.map to_settings row)

-- the row that is inserted, and what is set on the row that is there
abbrev pub first_settings : ℕ → ℕ → UpdateChatSettings → SettingsRow
first_settings u c n = record {
  user_id = u;
  chat_id = c;
  is_muted = unwrap_or n.is_muted false;
  muted_until = n.muted_until;
  is_pinned = unwrap_or n.is_pinned false;
  pin_order = unwrap_or n.pin_order (pos 0);
  is_archived = unwrap_or n.is_archived false;
}

abbrev pub changed_settings : UpdateChatSettings → SettingsRow → SettingsRow
changed_settings n r = record r {
  is_muted = unwrap_or n.is_muted r.is_muted;
  muted_until = coalesce n.muted_until r.muted_until;
  is_pinned = unwrap_or n.is_pinned r.is_pinned;
  pin_order = unwrap_or n.pin_order r.pin_order;
  is_archived = unwrap_or n.is_archived r.is_archived;
}

unfoldable pub update_chat_settings :
    ℕ → ℕ → UpdateChatSettings → Store → Result ChatSettings × Store
update_chat_settings u c n = do
  throw_if
      (← gets (λ s.
        not (any (is_settings_of u c) s.settings)
        && not (any (λ v. v == u) s.chat.users && any (λ r. r.id == c) s.chat.chats)))
      (validation "Referenced resource not found")
  modify (λ s. record s {
    settings = upsert (is_settings_of u c) (first_settings u c n) (changed_settings n) s.settings;
  })
  found ← get_chat_settings u c
  ok_or found (not_found "chat settings not found")
