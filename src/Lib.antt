-- ===== src/Lib.antt =====
-- A model of the Affinidi Messaging mediator and of the part of its DIDComm library that the
-- mediator's own logic rests on, with theorems about them.
--
-- The program. A client authenticates (handlers/authenticate.rs), and is then known by a session.
-- It sends DIDComm messages, which `handle_inbound` unpacks, `process` dispatches by their type to
-- the protocols (trust ping, forward, Message Pickup 3.0), and whose answers are packed, streamed to
-- live clients and stored. It reads and deletes its messages by the REST handlers. The state is in a
-- Redis database that several mediators share. A task in each mediator forwards what is published
-- there to the web sockets of its clients, and takes commands from a queue.
--
-- The files. Paths are from the repository's root; MED is affinidi-messaging-mediator/src.
-- - Common: shared names, Boolean tests on native numbers, results and steps, association lists,
--   splitting and parsing of texts.
-- - Errors: MED/common/errors.rs.
-- - Json: serde_json::Value.
-- - Common/Steps: chains of steps that stay shut in proofs, with the rules for what they keep and
--   yield; the unpacking of messages is written with them. Common/Utf8: bytes of texts.
-- - Didcomm: DC is affinidi-messaging-didcomm/src. Error: DC/error.rs. Wire: the types of
--   DC/jwe/envelope.rs, DC/jws/envelope.rs, DC/algorithms.rs, DC/envelope.rs and
--   DC/message/from_prior/mod.rs. Keys: DC/document.rs, DC/utils/crypto.rs (key pairs) and
--   DC/secrets. Crypto: DC/utils/crypto.rs (key wrapping), and the records of what other crates give.
-- - Didcomm/Jwe: DC/jwe, with Decrypt and Encrypt. Didcomm/Jws: DC/jws, with Sign. Didcomm/FromPrior:
--   DC/message/from_prior, with Pack; Verified is about what is
--   checked. Didcomm/Envelope: DC/envelope.rs and `fill_envelope_from`.
-- - Didcomm/Unpack: DC/message/unpack; Steps are the two layers of encryption; Limit is about the
--   loop, NonRepudiation and Signed about signatures, Decrypted and Opened about anonymous encryption,
--   Sender and Authenticated about authenticated encryption.
-- - Didcomm/Pack: DC/message/pack_plaintext.rs, pack_signed.rs and
--   pack_encrypted; Encrypt is the choice of keys and the encryption, Methods and Choice are
--   about the keys, Prior about the change of DID.
-- - Didcomm/Routing/Services: the chain of services of DC/protocols/routing/mod.rs.
-- - Didcomm/Toy: crates that satisfy the hypotheses, for the runs in Didcomm/Tests.
-- - Didcomm/Message: affinidi-messaging-didcomm/src/message/message.rs and attachment.rs.
-- - Didcomm/Routing: affinidi-messaging-didcomm/src/protocols/routing/mod.rs. Parse is about reading
--   a forward message, Onion about wrapping.
-- - Redis: the server, as a record of functions. Redis/Documented says what the documentation of
--   Redis promises of the commands; Redis/Toy is a server for which this holds.
-- - Database/Session: MED/database/session.rs. Database/Streaming: MED/database/streaming.rs.
--   Database/Messages: store.rs, delete.rs, get.rs, fetch.rs, list.rs and a part of stats.rs there.
--   Database/Elements: the types of affinidi-messaging-sdk/src/messages and the reading of fields.
-- - Tasks/Streaming: MED/tasks/websocket_streaming.rs, whose loop is a step function over events. An
--   event says whether the receiver of a channel, or a web socket, is there to take a message. Clients,
--   Reached, Agreement and Live are about who gets what and about the shared rows.
-- - Messages: MED/messages/mod.rs; Process its `process` and `pack`; Ping, Routing and Pickup the
--   files of MED/messages/protocols; Inbound MED/messages/inbound.rs.
-- - Handlers/Authenticate: MED/handlers/authenticate.rs and MED/common/jwt_auth.rs.
--   Handlers/Requests: the other REST handlers. Handlers/Websocket: MED/handlers/websocket.rs, whose
--   loop is a function of the events that it takes up.
-- The files called Tests hold concrete runs.
--
-- State. Code that awaits the database is a step over a World: the database, whether the streaming
-- task runs, and the queue of commands to it. A step yields a value, an error or a panic, and the
-- world as it then is. `unwrap` on an error is a panic. A Rust name keeps its spelling; where a
-- builder method has the name of a field it is called set_ or add_ and that name.
--
-- Bounds. The loops of the modelled code are over lists, so their models recur on these lists and need
-- no fuel, except two. The loop of `Message::unpack` recurs on fuel, one more than the limit on
-- cryptographic operations: a round that reaches the limit is an error, so the fuel does not run out.
-- The
-- loop over the chain of services recurs on fuel for three rounds; its guard on the length stops the
-- second one. The sums on times are taken modulo 2 ^ 64, as a release build does; `wrapping_sub` is
-- written out. A message of an error is its format string, without the arguments.
--
-- Not modelled: the cryptography of askar_crypto, the DID cache and the readers and writers of serde
-- are parameters; so are the clock, random values (functions of what they are used for), SHA-256,
-- base64 and jsonwebtoken. The mediator's own model takes unpacking and packing as parameters. An
-- error of the DIDComm library is modelled by its kind. The Lua functions run inside the server. Configuration,
-- routes, the client SDK, the bindings and the examples are left out. Commands
-- run one after the other in each step; other mediators change the shared rows only between steps,
-- and the theorems about them speak of one mediator's own steps.
pub mod Common
pub mod Errors
pub mod Json
pub mod Didcomm
pub mod Redis
pub mod Tasks
pub mod Database
pub mod Messages
pub mod Handlers
