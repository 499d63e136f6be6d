-- ===== src/Lib.antt =====
-- Z-BACS, verified: files are sealed into containers, their owner grants and revokes access over a
-- relay, and a session on the recipient's machine shows the file and wipes it.
--
-- The program's parts, and the files that model them:
--
--   * crates/zbacs-core, the container. Core/Header: header.rs, envelope.rs and error.rs. Core/Name:
--     the padding of file names. Core/Container: `seal_signed`, `read_header`, `validate_header`,
--     `open_with_dek` and `open` of container.rs; `open_container` is `open`. Core/External: the
--     ciphers, hashes, HPKE and the UTF-8 check as parameters with their documented laws. The proofs
--     are in Core/Padding, Core/Chunks, Core/Frames, Core/RoundTrip (chunks, name and trailer), Core/Reading (the
--     header), Core/Sealing (the limits) and Core/Opening (the whole).
--     Core/Versions: `verify_version_chain`. Core/Resealing: the functions of container.rs that write
--     a container file, with what a resealing makes of the version before in Core/Superseding.
--   * crates/zbacs-session/src/state.rs, the session state machine. Session: its types and `apply`,
--     one function for each arm that branches; `run` and `effects` follow a history of events. The
--     proofs are in Session/Transitions, Session/Opens, Session/Permissions, Session/Plaintext and
--     Session/Requested (a session that waits for an answer or for its end).
--   * crates/zbacs-proto, the messages. Proto/Messages: messages.rs and error.rs. Proto/Signed: the
--     signed envelope of signed.rs and identity.rs. Proto/Grant: the EIP-712 grant terms of
--     grant.rs. Proto/External: hashes, Ed25519 and CBOR as parameters. The proofs are in
--     Proto/Authenticity, Proto/Queued and Proto/Terms.
--   * apps/relay, the relay. Relay/State: state.rs, each operation a function on the state, since it
--     runs under one lock. Relay/Handler and Relay/Routes: the HTTP handlers of routes.rs in a small
--     monad that keeps what was done before a refusal. Relay/Operations: an execution is a sequence
--     of operations, whatever handlers they come from; Relay/Calls takes the handlers to such
--     sequences. The proofs are in Relay/Authentication, Relay/Replay, Relay/Windows, Relay/Quota,
--     Relay/Queues, Relay/Routing, Relay/Delivery, Relay/Posting and
--     Relay/Registry.
--   * crates/zbacs-relay-client/src/client.rs. RelayClient: submission with its retries over the
--     endpoints, and what the client makes of an answer. The proofs are in RelayClient/Attempts.
--   * crates/zbacs-auth. Auth: policy.rs, when the operating system must verify the person.
--     Auth/Setup and Auth/Runs: setup.rs, the keys and the profile of a device. The proofs are in
--     Auth/Identity, Auth/Life, Auth/FirstRun and Auth/Living (each call), Auth/Kept and Auth/Again.
--   * crates/zbacs-chain. Chain/Cache: cache.rs; Chain/Watcher: watcher.rs. The proofs are in
--     Chain/Cache/Revocations and Chain/Watcher/Ranges.
--   * apps/agent/src-tauri/src, the agent. Agent/Ledger: ledger.rs, with runs of its operations in
--     Agent/Ledger/Calls and the proofs in its other children. Agent/Link: the writes of chain.rs.
--     Agent/Approve: the reading of requests and of version notices in approve.rs; `envelope_for`
--     and `answer` in its children Rewrapping and Answering, the proofs in Sending, Confirming and
--     Agent/Exchange/Approved.
--     Agent/Request: `build_request` and `classify` of request.rs; `ask` and `watch_grant` in its
--     children Asking and Guarding, the proofs there and in Binding, Waiting and Outcomes.
--     Agent/Open: `materialise`, `close` and `save` of open.rs, in its children Materialising and
--     Saving, the proofs in Contents, Endings and Announcing. Agent/Running: `run_session`
--     of session.rs, with its proofs in Ending and Locking (what is left of the plaintext) and in
--     Telling and Reported (updates and notices). Agent/Exchange: the two sides together. Agent/Dict
--     and Agent/Forms: maps and encodings.
--
-- They interact so: the relay verifies the envelopes of Proto and queues them; the client submits
-- them and fetches the inboxes. A request of Agent/Request is read by Agent/Approve, whose `answer`
-- signs under the policy of Auth, wraps the key of the container of Core, takes its nonce from the
-- ledger and writes to the chain through Agent/Link; the message that it sends is classified by
-- Agent/Request, and drives the session, whose events are what grants and revocations become on the
-- recipient's machine; Agent/Open opens the container under it. The session and the container's
-- header policy share one type of permissions. Prelude holds the shared types and lemmas, Toy and
-- Core/Toy concrete functions in place of the cryptography, and each part's Tests module its
-- examples.
--
-- Conventions. Byte arrays are lists of numbers. Clocks, instants and random draws are arguments
-- (`Readings`, `Draws`); an `Instant` is in nanoseconds. A hash collision is a value (`Collision`),
-- so that a statement says what an attacker would have to show. Fuel: only the chunk loop of
-- `seal_signed` has it, as much as the number of chunks, and it ends at the last chunk before the
-- fuel does; `open_with_dek` loops over the number of chunks. `opens` wraps at 2^16 as in a release
-- build.
--
-- The agent's loops (`ask`, `watch_grant`, `run_session`, the watcher's `run`, the client's `submit`) take a list
-- with one record for each round or attempt: what the clock, the relay, the chain and the person
-- answer there. A loop that has not ended at the end of its list says so; the statements about an
-- end say how many rounds, or which round, it takes. The ledger's operations take what the disk
-- answers to the read and to the write, those of Auth/Runs what the platform answers to each step.
--
-- The container file of a session is replaced by its own saves only, and a device keeps its stored
-- keys over the calls of Auth/Runs, also where the store is in memory and a restart would lose them.
--
-- Not modelled: reading and writing files and sockets, process and workspace handling, the router
-- and WebSocket upgrade, key storage and backup, the signers of zbacs-auth, calls and
-- transactions on the chain, the agent's audit log and its user interface, the command line and the
-- Solidity contracts.
pub mod Agent
pub mod Auth
pub mod Chain
pub mod Core
pub mod Prelude
pub mod Proto
pub mod Relay
pub mod RelayClient
pub mod Session
mod Toy
