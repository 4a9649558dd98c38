-- ===== src/Stories/Audience.antt =====
-- The audience of a new story: create_story of crates/api/src/handlers/stories/handlers.rs and
-- can_user_view_story of crates/infrastructure/src/repositories/stories.rs.
use mesty_api.Common.{
  ℕ, Bool, true, false, String, Option, List, [], ◌∷◌, ◌&&◌, ◌||◌, not, if◌then◌else◌, str_eq,
  upsert,
}
use mesty_api.Stories.Store.{StoryPrivacyException, Store, is_exception}
use mesty_api.Stories.Queries.{new_story, new_exception}
use mesty_api.Stories.Handlers.{listed}

-- an exception of the story for the user with a flag
abbrev has : ℕ → Bool → ℕ → StoryPrivacyException → Bool
has i f v e = is_exception i v e && (if f then e.is_excluded else not e.is_excluded)

module _ (i : ℕ) (b : Bool) where
  abbrev put : ℕ → List StoryPrivacyException → List StoryPrivacyException
  put u es = upsert (is_exception i u) (new_exception i u b) (λ e. record e { is_excluded = b }) es

  abbrev put_all : List ℕ → List StoryPrivacyException → List StoryPrivacyException
  put_all [] es = es
  put_all (u ∷ us) es = put_all us (put u es)

-- who sees a story of a mode, by being a contact of the author and by being listed
abbrev pub audience : String → Bool → Bool → Bool
audience privacy contact on_list =
    if str_eq privacy "everyone"
    then true
    else if str_eq privacy "contacts"
    then contact
    else if str_eq privacy "contacts_except"
    then contact && not on_list
    else if str_eq privacy "selected"
    then on_list
    else false

-- the modes as `shows_to` tests them
abbrev modes : String → Bool → Bool → Bool → Bool
modes p contact excluded included =
    str_eq p "everyone"
    || str_eq p "contacts" && contact
    || str_eq p "contacts_except" && contact && not excluded
    || str_eq p "selected" && included

-- the store with a new story and its exceptions
abbrev pub with_story :
    ℕ → ℕ → ℕ → String → String → Option String → String → Option (List ℕ) → Store → Store
with_story id now u url content_type caption p us s = record s {
  stories = new_story id now u url content_type caption p ∷ s.stories;
  exceptions = put_all id (str_eq p "contacts_except") (listed us) s.exceptions;
}

module _ (id now u : ℕ) (url content_type : String) (caption : Option String) (p : String)
    (us : Option (List ℕ)) (s : Store) where
  abbrev story_only : Store
  story_only = record s { stories = new_story id now u url content_type caption p ∷ s.stories }
