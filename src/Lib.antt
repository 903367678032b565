-- ===== src/Lib.antt =====
-- Verification of the Rust server of this repository (server/src).
--
-- Base holds what the modules share: lists and tests on native numbers, 64-bit integers (Int),
-- Rust's `str` as a list of characters with its `len` and `bytes` in UTF-8 (Text), `Result` with
-- `?` as bind, table rows as lists (Rows), the lines of a text (Lines) and integers from text
-- (Parse).
--
-- Auth models server/src/auth. Auth.Error is error.rs; `details` holds the cause that its text is
-- printed from. Auth.Service is service.rs: the normal forms of wallet addresses and transaction
-- hashes, nicknames, and tokens from the bytes that the generator draws, which are arguments.
-- Auth.Tables has the four tables of `init_auth_schema` as lists of rows and each SQL statement of
-- db.rs as a function from the tables to an answer and new tables; PRIMARY KEY and UNIQUE columns
-- make it fail. Auth.Exec runs such statements one by one: before each, the other connections may
-- write anything (a `Turn`), and any statement may fail. Auth.Db has one function for each
-- operation of db.rs, with its name. Auth.History puts calls of them in any order. Auth.Payment is
-- payment.rs: the configuration from the environment, hexadecimal quantities, the check of a
-- transaction and its receipt, and in Auth.Payment.Verifier, with its children Taken and Answered,
-- the reading of the node's JSON-RPC reply; the HTTP exchange and the readers of serde_json are
-- parameters.
--
-- Auth.Siwe is server/src/auth/siwe.rs: Message prints and parses EIP-4361 messages (`msg` as a
-- record, the index into the lines as the lines that are left), Validate has the checks of the
-- fields, where the values of DOMAIN are a `DomainConfig`, Signature reads a signature and
-- recovers its signer, Verify joins them, and Consume uses the nonce up. The functions of k256,
-- sha3 and hex are the fields of a `Crypto`, and chrono's reader of RFC 3339 times is an argument.
-- Auth.Handlers is server/src/pages/auth.rs: Cookie has the cookies, Handlers the endpoints for
-- nonces, sign-in, session and logout, and Claim those for payments and nicknames. A handler is a
-- function from its request and a connection to its response and what it left. How each
-- `web::block` goes is an argument (`Block`), and so are the payment verifiers.
--
-- Attachments models server/src/attachments/service.rs: Uploads has `PendingUpload` and
-- `UploadSessionState` with their methods, where each reading of the clock is an argument, and
-- Chunks has `split_into_chunks`. Chat models server/src/chat/service.rs: Session has the nickname
-- and the tests on what a client sends, Events the messages of a client (prost's decoder is a
-- parameter), Limiter the rate limit of `ChatSessionState`, and Rooms `RoomRegistry`, where the
-- addresses that are connected are an argument. Chat.Store has the tables of rooms, messages and
-- attachments, which server/src/chat/db.rs and server/src/attachments/db.rs create, and the pragma
-- `foreign_keys` of the connection: only where `ensure_foreign_keys` has turned it on does SQLite
-- check the keys and cascade a deletion. A statement may fail, and the identifier and the
-- timestamp that SQLite gives to a new row are an argument (`Assigned`). Chat.Attachments is
-- attachments/db.rs with `persist_upload`, Chat.Messages and Chat.Recent are chat/db.rs, and
-- Chat.Eviction has the storage limits of both. Chat.Linked is about the references between the
-- tables. Voice models the registry of participants in server/src/voice/mod.rs. Base.Groups is the
-- map from names to lists that Rooms and Voice share.
--
-- Tests has runs on concrete data and applies each theorem.
--
-- Integers of a fixed width wrap where they are added (`add_i64`); parsers get the modulus of
-- their type, and the storage limits are cast with `as_i64`. The fuel of `to_decimal` is 40
-- digits, enough for every number of 128 bits, and that of `chunks_of` is the length of the file.
-- The loops of the storage limits have one round more than their table has rows, and each round
-- deletes a row or is the last.
--
-- The time is an argument of every operation, as in the source. A sum that SQLite computes outside
-- 64 bits is read back as an error, as `get::<i64>` does. Not modelled: the actors and the pages
-- of the chat (chat/messaging_actor.rs, chat/attachments_actor.rs, pages/chat), the voice actor, a
-- sum of the storage limits above 64 bits, panics inside a block, the creation of the tables
-- beyond their columns and keys, the pages for months and tools and the start-up of the server,
-- the audio pipelines of server/src/voice/gst (GStreamer), generated code and the browser client.
pub mod Base
pub mod Auth
pub mod Attachments
pub mod Chat
pub mod Voice
pub mod Tests
