-- ===== src/Lib.antt =====
-- wormzy moves a file between two machines that share a pairing code. This library models the parts
-- of it that have state which untrusted peers drive: the pairing codes and the mailbox service,
-- through which the two sides find each other; the metadata that they exchange and prove, and the
-- addresses that it makes them dial; the race between direct paths and the relay; the relay, which
-- forwards for a pair that has no direct path; the encrypted file stream; and the receipt protocol
-- at the end of a transfer. Paths are below internal/transport/ unless they say otherwise.
--
-- - Role: `oppositeRole` and `validateMailboxRole` of session_store.go.
-- - Relay: the tables of relay_server.go under its lock (`admitConnection`, `releaseConnection`,
--   `register`, `unregisterWaiting`), and the hello's checks of relay_client.go. Relay/Lifecycle is
--   `handleConn`: a step is one thing that happens to one handler, and a list of events is any
--   interleaving. An event decides what the network, a timer or a context decides, so `wait_expires`
--   may also come for a peer that was just paired, as Go's select may choose it. Decoding of the
--   hello, the forwarding of streams, logs and metrics are left out.
-- - Mailbox: the envelope and `protocolMailbox` of mailbox_iface.go, over the list of messages that
--   the mailbox below will deliver; the verifiers of mailbox_capability.go; the session identifiers
--   of pairing_route.go.
-- - Session, Stats, Store: session_store.go and stats_validation.go. Session has the stored values,
--   Store/Lifetime the clocks and deadlines, Store/Create and Store/Modify the Redis scripts and the
--   WATCH loop, Store/Operations the closures that `modify` runs, Store/Requests the methods.
--   Store/Passes is one pass of that loop, key by key.
--   Store/Trace is any interleaving of any clients, one Redis effect a step; EXEC may still succeed
--   in the millisecond of its key's deadline, as Redis expires a key after it; Store/Sessions is any
--   run of requests on one session.
-- - Limits: mailbox_limits.go, the long-poll gate and the fixed-window limits.
-- - Completion: transfer_completion.go, the messages, their MAC, the frames and both sides' scripts.
--   Completion/Conversation runs a side on all the bytes that its peer sends; Completion/Talk runs
--   both sides over one stream, call by call.
-- - Prelude/Duplex: two sides over a stream in any interleaving, where a read waits for its bytes. A
--   stream that ends early is not among its moves.
-- - Transfer: the file stream of transport.go. Transfer/Nonce and Transfer/Frames are `makeNonce`,
--   `aeadWriter` and `aeadReader`; Transfer/Send is `sendFileEncrypted`, Transfer/Receive
--   `receiveFile` and `verifyMetadata`, Transfer/Files `sanitizeFilename`, `createDownloadFile` and
--   `ensureFreeSpace`. A stream is the bytes that it still delivers and how it then ends; a
--   directory is a map from names to contents. The receiver's loop runs on fuel, one turn more than
--   the stream has bytes, as each turn takes at least one. What
--   is left of a reserved file whose removal fails is an answer of the file system. Transfer/Confirm
--   is `confirmPeerPSK`, one script for each side, and Transfer/Disk `diskFreeBytesFromStat` of
--   disk_unix.go. Transfer/Chunks, SentStream, RoundTrip, Consumption, Termination, Carriage,
--   Integrity, Download and Confirms are proofs.
-- - Race: `establishLegacyQUICPath` of path_selection.go. Race/Turns has a function for each case of
--   its select; a list of events is any order in which results, timers and the end of the context
--   come. What the workers deliver after the loop is the rest of the list. The errors of the TLS
--   material and of the listener, which come before the workers start, are left out.
-- - Candidates: dilation.go, and `isUsableExternalIPv4` of upnp.go. Candidates/Normal is
--   `normalizedPeerCandidate`, Candidates/Select `buildCandidates` and `selectPeerCandidates`.
--   Candidates/External, Offers, Distinct and Safety are proofs.
-- - Signaling: authenticated_signaling.go, a snapshot's digest, MAC, message and its verification.
-- - Rendezvous: `NormalizeCode` and `generateCodeFrom` of internal/rendezvous/rendezvous.go. The loop
--   of the draws runs over at most 96 of them, as the code does.
-- - Redis, Store/Json, Limits.Counters, Candidates.Texts, Transfer/Confirm.Mac, and the Primitives of
--   Completion, Transfer and Signaling: interfaces of what is not in the repository, with the documented behaviour that proofs use. Examples/Memory fills the first two.
-- - Encoding: encoding/hex and encoding/base64, which are the standard library's.
--
-- Numbers are unbounded naturals where Go has an int that stays small; where a conversion or an
-- overflow matters it is written out (the uint32 of a peer's number, the int64 of a deadline). Redis's
-- clock counts microseconds; durations count nanoseconds, and 0 stands for one that is not positive.
-- Go's strings are texts of valid UTF-8, as JSON decoding yields. A Go map is an association list,
-- and no result depends on its order. The retry loops of `modify` and `dequeue` run over a list of
-- passes, which stands for any schedule; a call whose context ends first has no answer. Errors of the
-- connection to Redis are not modelled, nor are the handshakes of transport.go, ICE, UPnP, STUN, the
-- HTTP layers, the legacy rendezvous server, the user interface and the commands. Progress reports
-- and log lines are left out.
pub mod Prelude
pub mod Encoding
pub mod Redis
pub mod Role
pub mod Relay
pub mod Mailbox
pub mod Session
pub mod Stats
pub mod Store
pub mod Completion
pub mod Limits
pub mod Transfer
pub mod Race
pub mod Candidates
pub mod Signaling
pub mod Rendezvous
pub mod Examples
