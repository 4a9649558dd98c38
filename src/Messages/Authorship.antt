-- ===== src/Messages/Authorship.antt =====
-- A message is changed by its sender alone, and not once it is deleted: the message endpoints of
-- crates/api/src/handlers/chats/handlers.rs.
use mesty_api.Common.{ℕ, List, ◌==◌, select_where}
use mesty_api.Messages.Store.{Message, Store}
use mesty_api.Messages.Writes.{Writes}

-- the rows of an id
abbrev pub rows_of : ℕ → List Message → List Message
rows_of i ms = select_where (λ (m : Message). m.id == i) ms
