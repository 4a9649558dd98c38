-- ===== src/Stories/Store.antt =====
-- The tables of the stories (migrations/011_stories_notifications_audit.sql) and what the queries on
-- them join: users, profiles and contacts.
use mesty_api.Common.{ℕ, Bool, String, Option, List, ◌&&◌, ◌||◌, ◌==◌, is_none, str_eq, ltb}
use mesty_api.Contacts.Store.{ContactRow}
use mesty_api.Notifications as Notifications

pub record Story : Type 0 where
  pub id : ℕ
  pub user_id : ℕ
  pub content_url : String
  pub content_type : String
  pub caption : Option String
  pub privacy : String
  pub created_at : ℕ
  pub expires_at : ℕ
  pub deleted_at : Option ℕ

pub record StoryPrivacyException : Type 0 where
  pub story_id : ℕ
  pub user_id : ℕ
  pub is_excluded : Bool

pub record StoryView : Type 0 where
  pub id : ℕ
  pub story_id : ℕ
  pub viewer_id : ℕ
  pub reaction : Option String
  pub viewed_at : ℕ

-- a row of `users` with the display name of its row of `user_profiles`, if there is one
pub record UserRow : Type 0 where
  pub id : ℕ
  pub username : Option String
  pub avatar_url : Option String
  pub display_name : Option String

-- a job of the push queue on a story
pub record PushJob : Type 0 where
  pub user_id : ℕ
  pub notification_type : String
  pub story_id : ℕ

pub record Store : Type 0 where
  pub users : List UserRow
  pub contacts : List ContactRow
  pub stories : List Story
  pub exceptions : List StoryPrivacyException
  pub views : List StoryView
  pub inbox : Notifications.Store
  pub pushed : List PushJob

-- the values of the type `story_privacy`
unfoldable pub is_story_privacy : String → Bool
is_story_privacy p =
    str_eq p "everyone"
    || str_eq p "contacts"
    || str_eq p "contacts_except"
    || str_eq p "only_me"
    || str_eq p "selected"

-- `deleted_at IS NULL AND expires_at > NOW()`
abbrev pub is_live : ℕ → Story → Bool
is_live now s = is_none s.deleted_at && ltb now s.expires_at

abbrev pub is_view : ℕ → ℕ → StoryView → Bool
is_view s u v = v.story_id == s && v.viewer_id == u

abbrev pub is_exception : ℕ → ℕ → StoryPrivacyException → Bool
is_exception s u e = e.story_id == s && e.user_id == u
