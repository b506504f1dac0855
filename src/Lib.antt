-- ===== src/Lib.antt =====
-- mpc-ext keeps a wallet's key in three shares, two of which sign: the browser extension holds one,
-- the server one, and the third is the recovery file. This library models the server
-- (crates/mpc-server) and the protocol core (crates/mpc-core), and proves what each promises.
--
-- The server keeps all its state in one SQLite database, reached through the methods of
-- crates/mpc-server/src/store.rs; the handlers check a device proof, call the store and reply. Here the
-- database is a record with a list of rows for each table (Server/Types), an SQL statement is one of the
-- loops of Base/Tables with its WHERE clause as a test, and a method returns its result with the
-- database after it. A transaction that returns early leaves the database as it was. A method that reads
-- the clock takes the readings as arguments, so a statement about all readings covers clocks that jump.
--
--   Base                 tests on numbers, lists, tables and their lemmas
--   Server/Types         the rows, the error type (crates/mpc-server/src/lib.rs)
--   Server/Clock         instants as text columns: only the order of the texts that formatting gives
--   Server/Recovery      store.rs, register_device_key to device_key: recovery requests, the
--                        cooling-off period, completion, cancellation; its children State has state_of
--                        of crates/mpc-server/src/recovery.rs and Events the histories of calls
--   Server/Handlers      recovery.rs: status, complete, pending and cancel
--   Server/Auth          crates/mpc-server/src/auth.rs and reserve_device_nonce of store.rs
--   Server/Grants        store.rs: passkey challenges and authorizations
--   Server/Ceremonies    store.rs: browser handoffs
--   Server/Sessions      store.rs: sessions, key shares, staged reshares, finish_dkg to sweep_expired
--   Server/Steps         crates/mpc-server/src/crypto.rs, the envelopes and hex texts of api.rs, and the
--                        steps that a handler is made of
--   Server/Keygen        api.rs: register_device_key, start_dkg and advance_dkg
--   Server/Signing       api.rs: start_sign and advance_sign
--   Server/Reshares      crates/mpc-server/src/reshare.rs
--   Server/Credentials   store.rs: passkey credentials and management sessions
--   Server/Passkeys      crates/mpc-server/src/passkey.rs
--   Server/Manage        crates/mpc-server/src/manage.rs
--   Server/Requests      recovery.rs: request
--   Core/Types           crates/mpc-core/src/lib.rs, share.rs, session.rs
--   Core/Maps            BTreeMap as an ordered association list
--   Core/Upstream        the dkls23, k256 and bincode calls, as a parameter
--   Core/Dkg             crates/mpc-core/src/protocol.rs: Envelope and DkgParty
--   Core/Sign            protocol.rs: SignParty and hex_into; its child Local has sign_locally
--   Core/Field           k256::Scalar, as a parameter with the laws of a field that the code relies on
--   Core/Reshare         protocol.rs: lagrange_at_zero, reshare_row and start_reshare; reconstruct of
--                        crates/mpc-core/src/backend.rs
--   Core/Drive           protocol.rs: run_locally, reshare_locally and drive_locally
--   */Examples           runs on concrete inputs
--
-- A loop over envelopes or rows is recursion on the list. sign_locally counts its four passes as the
-- source does. Only the loop of drive_locally runs on fuel, one
-- unit a pass; three are enough, since each pass takes every party to its next round or ends the loop.
-- What a call draws at random, a nonce or the slope of a polynomial, is an argument of the model. Unix times and
-- instants are numbers without a bound, except in the skew test, whose i64 arithmetic wraps as a
-- release build does. A text or a byte string that is only compared is a number. A party's methods
-- return the party as they leave it also where they fail.
--
-- Not modelled: the one-process protocols of backend.rs beside reconstruct, backfill_user_handles,
-- the browser pages of auth_page.rs, routing and start-up, the WebAssembly bindings
-- and the TypeScript packages. The texts of errors, and database failures other than a broken constraint,
-- are left out. The formats of the two ids of a recovery call, the SHA-256 digests, base64, AES-GCM,
-- bincode, serde_json and webauthn_rp are parameters of the handlers.
pub mod Base
pub mod Core
pub mod Server
