-- ===== src/Lib.antt =====
-- A model of the dshker coordinator: the Go server that keeps accounts, private networks, devices
-- and pairs in SQLite, signs the leases of peer-to-peer connections and checks the signals that
-- two devices exchange to set one up.
--
-- Parts, with the code that each models:
-- - Protocol: internal/protocol. Ids has ValidID, ValidNonce and the shapes of names; Signals has
--   Signal.Verify and its payloads; Leases has Lease.Verify; Frames has Frame.Validate; Json has
--   Decode over the tokens that encoding/json gives, which are a parameter. Service
--   holds what comes from the cryptographic libraries (SHA-256, Ed25519, bcrypt, X.509) as
--   parameters; `Lawful` is what the code relies on of them.
-- - Store: internal/coordinator's tables and every operation on them. Schema is store.go's schema
--   as lists of rows; Networks and Bindings are networks.go, Users is users.go, Enrollment is
--   enrollment.go, Pairing and PairActions are pairing.go, Certificates is certificates.go with
--   Authenticate. A SQL statement is an operation of Prelude/Tables on a table: `find` is the first
--   row of a SELECT, `count` is count(*), `update`, `delete` and `++` are UPDATE, DELETE and INSERT;
--   a primary key or a UNIQUE column is a test before the insertion. A function that runs in a
--   transaction returns `Result` of a value and the new tables, so that an error leaves them as
--   they were; the errors are the codes of the source.
--   The theorems stand beside the definitions, in the folder of the file that they are about.
-- - Store/History: every call that writes, as one step on the tables, and histories of calls. The
--   source has one SQLite connection, so that transactions do not interleave; AdoptNetwork, which
--   makes several, is a list of moves. Its children show what a step may do to the pairs (Pairs),
--   the bindings and the networks, and what follows for all histories.
-- - Sessions: sessions.go, in memory: presence, attempts, leases; Admission is Admit. A call takes
--   the tables as they are at its time; each holds the mutex, and so calls are a sequence of steps
--   (Links). A Go map is an association list in which a key stands once.
-- - Relay: stun.go, with its limiter and the loop of ServeSTUN over a list of what it reads, and
--   turn.go's range of ports. Binding a socket and pion/stun are parameters.
-- - Config: config.go, with the choice of the relay's allocator in turn.go. Protocol/Addresses is
--   what the code uses of net.SplitHostPort, net.JoinHostPort and strconv.Atoi; url.Parse and
--   net.ParseIP are parameters.
-- - Storage: store.go's Initialize, OpenStore and validate, and Recover of certificates.go, over a
--   table of files; the encodings of keys and certificates are parameters, with `IsLawfulKeys`.
-- - Api: the HTTP API of server.go and user_api.go. Requests is a request with its body and who
--   sent it, Routes the table of routes, Errors writeError, Server the state and the answers;
--   Public, Accounts, Devices and Calls are the handlers of the three groups of routes. Serve is
--   ServeHTTP, with the admission and the groups' middleware, and the server as a machine of
--   events; its children show that a request is one step of the store and of the sessions, what a
--   request has to show, and what a device's (Isolation) and an account's (Tenancy) cannot reach;
--   Store/History has what their calls change, in Confined and Tenants. Hub is signaling.go's
--   table of connections, each with its queue of messages, Channel what its readSignals does with
--   one message, Notice its notifyPair; Dial is the operation /v1/attempt, which begins an
--   attempt, announces it through the hub and ends it where that fails; Views is pair_identity.go
--   and NetworkPairs of user_api.go.
-- - Commands: cmd/dshker-server's run and ReadConfig of config.go, from the arguments to the disk.
-- - Tests: a toy service and small tables, on which each theorem is applied.
--
-- Times are nanoseconds since 1970 and `unix` their seconds; numbers are natural, since the
-- counters grow by one a call and stay far below 2^63. Identifiers and secrets that the code mints
-- are arguments. The loops are over lists, so no fuel is needed, but in two places: the walk over the
-- relay's ports counts the span of the range, after which it has met every port, and the loop over
-- the members of a JSON container counts the tokens, of which each turn takes one.
--
-- A request is served as one step, with one reading of the clock: the source locks the store, the
-- sessions and the hub one after the other, and other requests may come between; CreateNetwork
-- counts and inserts in two statements without a transaction, so that what is shown of its limit
-- holds of requests that do not overlap. Numbers in bodies are natural where a negative one is
-- refused like zero. File modes and absolute paths are those of a POSIX system.
--
-- Not modelled: TLS, headers and JSON's lexer, the WebSocket and its goroutines, the relay's packets
-- and the listeners of Run (server.go, signaling.go, turn.go), which are input, output and
-- calls of libraries; the tools under tools, a lint and a script against a running server; failures
-- of the disk and of the database driver, except where a file exists or a key clashes.
pub mod Prelude
pub mod Protocol
pub mod Store
pub mod Sessions
pub mod Relay
pub mod Config
pub mod Storage
pub mod Api
pub mod Commands
pub mod Tests
