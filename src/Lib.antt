-- ===== src/Lib.antt =====
-- Verification library for sgsp, the Simple Game Server Protocol.
--
-- The program runs authenticated game sessions over QUIC. Its codecs (internal/wire) turn events,
-- requests and responses into frames; its queues and byte budgets (internal/runtime) bound what each
-- connection holds; an endpoint (endpoint.go) keeps sessions (session.go), which outlive the
-- connections that serve them; placement tells the clients which owner serves a group.
--
-- The modules, and the code that they model:
-- - Common: shared names, lists, bits, Go's int, and maps as association lists.
-- - Wire.Varint: internal/wire/varint.go. VarintLen, AppendVarint, DecodeVarint and ReadVarint are
--   varint_len, append_varint, decode_varint and read_varint. A slice of bytes is a list of numbers.
-- - Wire.Events: internal/wire/events.go, one definition for each function.
-- - Wire.Request: internal/wire/request.go, one definition for each function.
-- - Wire.Control: internal/wire/control.go, one definition for each function; Wire.Control.Json has the
--   recursion over the tokens, Wire.Control.Fields the rules of each operation.
-- - Runtime.Queue: internal/runtime/queue.go. An operation takes the queue and returns it with its
--   answer. Runtime.Queue.Accounting has the interleavings of its clients, as lists of calls.
-- - Runtime.Budget: internal/runtime/budget.go.
-- - Endpoint.Charges: reserveDirectionalBytes and reserveReplyDirectionalBytes of endpoint.go with the
--   closures that release a charge, and directionalBudgetLimits of session.go.
-- - Endpoint.Limits, Endpoint.Session: session.go. A session serves one of the connections that were
--   made for it; a call of the session's mutex is one step.
-- - Endpoint.Channels: bindOutbound and bindInbound of endpoint.go.
-- - Endpoint.Slots: acquireRequest and acquireStream of endpoint.go.
-- - Endpoint.Server: the tables of a server endpoint in endpoint.go, which are its sessions, the cache of
--   terminal codes and the groups. Endpoint.Server.Steps has the sections of its mutexes as a step
--   relation: handleConnection's commit of an admission, removeSession, lookupSession, CloseGroup in
--   its three sections, the timers and Drain.
-- - Endpoint.Polling: incomingQueue of endpoint.go, over Runtime.Queue and Runtime.Budget; Release of
--   api.go. Endpoint.Polling.Reservations: reserveReliable in the turns of its waits, and the Commit and
--   Cancel of a reliableIncomingReservation.
-- - Endpoint.Budgets: Limits, DefaultLimits and normalizeLimits of api.go.
-- - Endpoint.Admission: authorizeAdmission of endpoint.go; Endpoint.Admission.Entitled joins it with the
--   tickets of Placement.Bootstrap.
-- - Endpoint.Handshake: the messages of the handshake in endpoint.go, handleConnection's checks of a HELLO
--   and of its credential, and handleRefresh.
-- - Endpoint.Resume: resumeConnection of endpoint.go up to its WELCOME, in two parts, the lookup and the
--   section under the locks, before which other sections may run. Endpoint.Resume.Client has the
--   client's side: the HELLO of openResume and its checks, validateClientWelcome and attachResume.
-- - Endpoint.Datagrams: connectionOperations.send for the two deliveries over datagrams, from its
--   bindings on, and receiveDatagrams up to deliverEvent. The network in between is a list of arrivals.
-- - Endpoint.Handlers: handler_scheduler.go with enqueueHandler, runHandlerQuantum and
--   dropQueuedHandlers of endpoint.go. Endpoint.Handlers.Runs has them as a step relation.
-- - Endpoint.Limiter: handshake_limiter.go. Endpoint.Router: the Router of api.go.
-- - Placement.Types, Placement.Store, Placement.Registry: placement/memory/memory.go, with the data of
--   placement/placement.go and types.go.
-- - Placement.Store.Book: what the store promises, as a function from keys to assignments and their
--   number, without a list and without an order.
-- - Placement.Bootstrap: Resolve, CloseGroup, selectOwner and matchingStatus of placement/placement.go.
--
-- How the parts interact: a session charges the frames that it encodes and decodes to its ledgers,
-- which are budgets, and puts incoming messages into queues whose reservations carry the bytes of a
-- frame before its payload is read. The bootstrap service signs a ticket for the owner of a group; the
-- owner's endpoint checks it and commits the admission to its tables, from which a session that ended
-- goes into the cache of terminal codes. A session whose connection is lost goes over to another one by
-- a resume, which both sides' sessions follow under one epoch. Incoming messages wait in the polling
-- queue, or in their connection's queue until a worker of the scheduler runs their handlers.
--
-- Numbers. A uint64 is a natural number; where the code can wrap, the remainder is written out. Go's
-- int has 64 bits, and an argument of type int is an integer, since callers may pass a negative one;
-- conversions to uint64 wrap. The counts inside a queue or a ledger are sums of lengths of data in
-- memory, and are natural numbers; a comparison with a difference has the subtrahends on the other
-- side. A panic is the missing value of an Option.
--
-- Loops are recursions on lists or on numbers: the loops over the bytes of a varint run over its
-- length, which its first byte gives. Only the recursion over the tokens of a control message takes
-- fuel, twice the message's bytes and one, which is enough since each token takes some of the bytes.
--
-- Parameters, for code that is not in the repository: the byte reader of a stream, and the check of
-- UTF-8 in diagnostics; for the control messages encoding/json, encoding/hex, encoding/base64,
-- strings and unicode/utf8; for the bootstrap service its adapters, Go's sort, the digest of an owner,
-- the random key and the readings of the clock; for an admission the verifier of tickets and the
-- group's authorizer; for a resume also crypto/sha256 and strconv, and for a refresh the authenticator.
-- A context is its error, if it has one. The handshake limiter's arithmetic on floats is a parameter,
-- and the text of an address. Whether the rate admits a datagram is an argument too, since
-- allowInboundMessage computes it with floats.
--
-- Not modelled: blocking (the waiting forms of the queue's and the budget's operations, of which
-- reserveReliable has the turns as steps, and the pushes of the reliable readers into a connection's queue), the goroutines and I/O
-- of the endpoint, the JSON of the handshake's messages, the reconnection loop of a client, the grace
-- and expiry timers, the QUIC adapter, the JWT authenticator, metrics, benchmarks
-- and examples. Timers are steps that may come at any time.
pub mod Common
pub mod Wire
pub mod Runtime
pub mod Endpoint
pub mod Placement
