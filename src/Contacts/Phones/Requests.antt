-- ===== src/Contacts/Phones/Requests.antt =====
-- Sequences of requests to the address book: the endpoints of
-- crates/api/src/handlers/contacts/handlers.rs as one step, and what list_contacts answers after them.
use mesty_api.Common.{
  ℕ, ◌≡◌, refl, Bool, String, Option, List, [], ◌∷◌, ◌==◌, arith, All, All-order_with, map,
  All-select_where, select_where, order_with,
}
use mesty_api.DomainError.{Result, ok}
use mesty_api.Contacts.Phones.{
  IsReadable, AllReadable, new_phone-is_e164, create_contact-AllReadable,
}
use mesty_api.Contacts.Phones.Changes.{update_contact-AllReadable, delete_contact-AllReadable}
use mesty_api.Contacts.Store.{ContactRow, Store}
use mesty_api.Contacts.Queries.{
  to_contact, map_record_to_contact, map_all, find_all_by_owner_owned, goes_first,
}
use mesty_api.Contacts.Handlers.{
  to_response, Answer, listed, list_contacts, create_contact, update_contact, delete_contact,
}

map_all-total :
    (rs : List ContactRow) (s : Store)
    → All IsReadable rs
    → map_all rs s ≡ (ok (map (λ r. to_contact r r.phone) rs), s)
unfolding map_all map_record_to_contact
map_all-total [] s h = refl
map_all-total (r ∷ rs) s (h, hs) =
    ground (arith, map_all-total rs s hs, new_phone-is_e164 r.phone h)

-- the requests that write the address book, each with the ids and the time it draws
pub data Request : Type 0 where
  create : (id shown now auth : ℕ) (phone : String) (nickname : Option String) → Request
  update : (auth id : ℕ) (nickname : Option String) (is_favorite : Option Bool) → Request
  delete : (auth id : ℕ) → Request

unfoldable pub serve : Request → Store → Result Answer × Store
serve (create id shown now auth phone nickname) = create_contact id shown now auth phone nickname
serve (update auth id nickname is_favorite) = update_contact auth id nickname is_favorite
serve (delete auth id) = delete_contact auth id

unfoldable pub serve_all : List Request → Store → Store
serve_all [] s = s
serve_all (q ∷ qs) s = serve_all qs (serve q s).1

serve-AllReadable : (q : Request) (s : Store) → AllReadable s → AllReadable (serve q s).1
unfolding serve
serve-AllReadable (create id shown now u phone nickname) s h =
    create_contact-AllReadable id shown now u phone nickname s h
serve-AllReadable (update u i nickname favorite) s h =
    update_contact-AllReadable u i nickname favorite s h
serve-AllReadable (delete u i) s h = delete_contact-AllReadable u i s h

serve_all-AllReadable :
    (qs : List Request) (s : Store) → AllReadable s → AllReadable (serve_all qs s)
unfolding serve_all
serve_all-AllReadable [] s h = h
serve_all-AllReadable (q ∷ qs) s h =
    serve_all-AllReadable qs (serve q s).1 (serve-AllReadable q s h)

list_contacts_lem :
    (u : ℕ) (s : Store)
    → AllReadable s
    → list_contacts u s ≡ (
      ok (
          listed (
            map to_response (
              map
                (λ r. to_contact r r.phone)
                (order_with goes_first (select_where (λ r. r.owner_id == u) s.contacts))))),
      s,
    )
unfolding list_contacts find_all_by_owner_owned
list_contacts_lem u s h = ground (
  arith,
  map_all-total (order_with goes_first (select_where (λ r. r.owner_id == u) s.contacts)) s (
      All-order_with goes_first IsReadable _
        (All-select_where IsReadable (λ r. r.owner_id == u) s.contacts h)),
)

-- When every stored phone is one that `PhoneNumber::new` accepts, then after any requests that create,
-- change and delete contacts `list_contacts` still answers, with all the rows of the user in their order
-- and each under its stored phone, and changes nothing.
pub list_contacts-serve_all :
    (qs : List Request) (u : ℕ) (s : Store)
    → AllReadable s
    → let t = serve_all qs s in
      list_contacts u t ≡ (
        ok (
            listed (
              map to_response (
                map
                  (λ r. to_contact r r.phone)
                  (order_with goes_first (select_where (λ r. r.owner_id == u) t.contacts))))),
        t,
      )
list_contacts-serve_all qs u s h =
    list_contacts_lem u (serve_all qs s) (serve_all-AllReadable qs s h)
