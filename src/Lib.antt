-- ===== src/Lib.antt =====
-- Verification of the Mesty API (https://github.com/Juliodvp29/messenger_backend), a messenger
-- backend in Rust: HTTP and WebSocket handlers over PostgreSQL and Redis.
--
-- Conventions of every model.
-- * A `Uuid` is a number that is only compared; a time is a number of ticks. Random ids, the clock
--   and hashes are arguments. Texts are native strings.
-- * A table of PostgreSQL is the list of its rows, and a query is a function on it, from the text of
--   the query and the constraints in migrations/. The database and Redis answer every call: what can
--   fail is a constraint or the code's own test. A message made with format! keeps its fixed part
--   where the inserted value is not one of the model.
-- * Code that reads and writes is an action: it takes the state to a result and the new state
--   (DomainError). What was written before an error stays written, as there is no transaction
--   except where the code opens one.
-- * A handler runs whole, except where a file says that it is cut at an await.
-- * Loops are structural recursion over the list that the code iterates. Only the client that
--   follows the cursors of get_messages (Messages/Listing/Walk) has fuel: one page more than the
--   chat has messages, which the pages cannot use up, as each holds a message. Integers are the
--   native naturals; no modelled computation comes near the bounds of its type, and where the code
--   stops a count at zero the subtraction of naturals does.
--
-- The parts meet in the database: handlers call the queries of their repository, which share the
-- tables. Keys and Messages read the table of blocks, which Contacts writes; Stories reads the contacts;
-- Messages works on the chats and participants of Chat. Chat, Call, Messages and Stories publish events
-- to the sockets of users or queue push notifications.
--
-- DomainError: crates/shared/src/error.rs, and the statuses of crates/api/src/error.rs. Guarded
--   states of an operation that it succeeds exactly if it is allowed, does what it says then, and
--   changes nothing otherwise.
-- Preserves: rules for what an action keeps.
-- Common: Boolean tests (Tests), tables as lists of rows (Rows), ORDER BY (Order, Ordered), texts and
--   trim (Texts, Spaces).
-- Call: voice and video calls. Call/CallType and Call/CallStatus are
--   crates/domain/src/call/entities.rs; Call/Repository is PostgresCallRepository
--   (crates/infrastructure/src/repositories/call/postgres.rs); Call/Service is CallService
--   (crates/domain/src/call/service.rs); Call/Signaling is the part of handle_client_message for calls
--   (crates/api/src/handlers/ws/handlers.rs), with the interleaving of its two writes in Race.
-- Chat: chats, groups and their participants. Chat/ChatType and Chat/Role are
--   crates/domain/src/chat/entity.rs; Chat/Store is the tables of migrations/009 and 010 with their
--   constraints and trigger; Chat/Chats and Chat/Participants are the queries of
--   PostgresChatRepository (crates/infrastructure/src/repositories/chat.rs), whose children are
--   about one query each; Chat/Handlers is crates/api/src/handlers/groups/handlers.rs, Chat/Endpoints the
--   chat endpoints of crates/api/src/handlers/chats/handlers.rs; Chat/Ownership is about
--   sequences of requests to both.
-- Otp: one-time codes and the fixed-window rate limit (crates/api/src/services/otp.rs and
--   crates/api/src/services/rate_limit.rs), as the Lua scripts that Redis runs.
-- Auth: sessions and tokens. Auth/Store is the session queries of PostgresUserRepository
--   (crates/infrastructure/src/repositories/user.rs) and the keys session and refresh of Redis;
--   Auth/Tokens is JwtService (crates/api/src/services/jwt.rs), Auth/Handlers, Auth/Login
--   and Auth/Recovery are crates/api/src/handlers/auth/mod.rs over these and Otp, Auth/Phone is
--   PhoneNumber (crates/domain/src/user/value_objects.rs), and Auth/Middleware is
--   crates/api/src/middleware/auth.rs, which Auth/Rotation/Requests puts together. Signatures,
--   digests and the text of uuids are parameters.
-- Keys: end-to-end encryption keys. Keys/Store is PostgresKeyRepository
--   (crates/infrastructure/src/repositories/keys.rs) and get_user_public_keys (migrations/011);
--   Keys/Validation and Keys/Handlers are crates/api/src/handlers/keys/handlers.rs, with Base64,
--   Ed25519 and SHA-256 as parameters.
-- Messages: messages, receipts, reactions and the settings of a chat. Messages/Store is the
--   tables of migrations/009 and 010; Messages/Queries is the queries on single messages of
--   PostgresChatRepository (crates/infrastructure/src/repositories/chat.rs) and mark_messages_read
--   of migrations/014, Messages/Listing get_messages with its cursors, Messages/Settings the
--   settings. Messages/Handlers is the message endpoints of
--   crates/api/src/handlers/chats/handlers.rs, which Messages/Requests puts together. The other
--   children are about one operation or one question: Sending, Reading, Editing, Statuses,
--   Authorship, Writes, Notifying, Listing/Walk and Listing/Gaps; Syncing is the synchronisation of
--   crates/api/src/handlers/ws/handlers.rs. Sending/Delivery, Editing/Contents and Syncing/Missed
--   write out what these leave or answer, column by column. Base64 and serde_json (Codec), the decoding of a query
--   string, the text of uuids and who is online are parameters.
-- Notifications: the table of migrations/011 and its queries in
--   crates/infrastructure/src/repositories/chat.rs; Clearing is what they do.
-- Stories: Stories/Store and Stories/Queries are PostgresStoryRepository
--   (crates/infrastructure/src/repositories/stories.rs), Stories/Handlers is
--   crates/api/src/handlers/stories/handlers.rs. Visibility, Audience and Interactions are about who
--   sees a story and what the others can do.
-- Contacts: Contacts/Store is the table of migrations/007 with its trigger, Contacts/Queries is
--   PostgresContactRepository (crates/infrastructure/src/repositories/contact.rs), Contacts/Handlers is
--   crates/api/src/handlers/contacts/handlers.rs, with the two hashes of a phone as parameters.
--   Contacts/Blocks is the table of migrations/008, its queries in
--   crates/infrastructure/src/repositories/user.rs and crates/api/src/handlers/blocks/handlers.rs. Phones,
--   Answers and Blocks/Refusals are about them.
-- Attachments: the table message_attachments (migrations/010 and 013) with its queries in
--   crates/infrastructure/src/repositories/chat.rs, and
--   crates/api/src/handlers/attachments/handlers.rs in Attachments/Handlers, with the client of the
--   object store (crates/api/src/services/storage.rs) as a parameter. Names is about the names of files,
--   Uploads, Linking and Requests about the rows.
-- Profiles: what other users see. Profiles/Store is the search and the profile queries of
--   crates/infrastructure/src/repositories/user.rs and crates/infrastructure/src/cache/profile.rs;
--   Profiles/Handlers is crates/api/src/handlers/users/handlers.rs, with ILIKE as a parameter;
--   Profiles/Histories is the sequences of reads and changes, Freshness what the reads answer.
--
-- Not modelled: the other value objects of a user and the writes of accounts, the list of chats, the
-- tickets of the socket, and the history of calls are not yet; the socket itself, push, storage,
-- metrics, logging, configuration and routes are input and output or glue.
pub mod Attachments
pub mod Auth
pub mod Call
pub mod Chat
pub mod Common
pub mod Contacts
pub mod DomainError
pub mod Keys
pub mod Messages
pub mod Notifications
pub mod Otp
pub mod Preserves
pub mod Profiles
pub mod Stories
