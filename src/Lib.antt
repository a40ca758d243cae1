-- ===== src/Lib.antt =====
-- Verification of the sesori relay server, a WebSocket relay in Go between the bridges (computers)
-- and the phones of one account.
--
-- A client connects at /ws. handleWebSocket (internal/relay/handler.go) takes a slot of the rate
-- limiter for the client's address, upgrades the connection, reads an authentication message,
-- validates its token, and joins the group of the token's user: handleBridge and handlePhone add the
-- connection to the group, tell the peers, relay binary frames until the connection ends, and take it
-- out again. The state that handlers share is the limiter, the map of groups and the groups; each is
-- behind a mutex, and a method that takes the mutex is one function from the old state to the new.
-- A handler is modelled twice: as pieces (Connect, Handler) with their effects in the order of the
-- code, and as a sequence of steps, one for each access that changes the shared state, that
-- interleaves with the steps of all other handlers (World); World/Late has both, with the reads of
-- AllPhones and of the read loops as steps too.
--
-- The files, by what they model:
--   Prelude             names of the libraries, Boolean tests, byte strings, and Go maps as lists
--                       with one entry for a key, whose order is the order of `range`.
--   RateLimiter         internal/relay/ratelimit.go. Slots has the abstract limiter, a list of the
--                       slots held; Stats the reported numbers.
--   AccountGroup        internal/relay/account_group.go. Ordering and Default: the default bridge;
--                       ConnIds: the search for a free connection id; Invariant: well-formedness;
--                       Routing: the lookups of the read loops; Methods and Changes: the branches of
--                       the methods and the target changes that they return.
--   Announce            the notices of internal/relay/handler.go (announceTargetChanges,
--                       announcePresence). Views: what a peer learns from them; Phones and Bridges:
--                       what phones and bridges learn from them.
--   GroupManager        internal/relay/group_manager.go, over a heap of groups: a handler may hold a
--                       group that the manager has dropped. Detached: the window in which that
--                       happens; Invariant: every method leaves the manager well formed.
--   Connect             handleWebSocket up to the group and readAndValidateAuth of
--                       internal/relay/handler.go. Slots: what an attempt does to the limiter.
--   ClientIp            resolveClientIP of internal/relay/handler.go.
--   DeviceIds           the two patterns of internal/relay/handler.go. BridgeIds: the language of the
--                       pattern of a bridge id.
--   Handler             handleBridge (Bridge) and handlePhone (Phone): the opening, one round of the
--                       read loop and the cleanup, with the writes, closes and reports as a list of
--                       effects in the order of the code (Effects), one list for a goroutine.
--                       Routing: where frames go; Policies: the notification policy of a session;
--                       Write: writeOrDrop; Lifecycle: the opening and the cleanup with the group's
--                       methods; Connections: the ping loop and the random connection ids.
--   World               the handlers side by side: the stage of each, the limiter and the manager,
--                       and a step relation with one step for each access that changes them.
--                       Branches: the steps that may refuse; Slots and Capacity: the limiter; Shared
--                       (Store, Joins, Leaves, Quiet) and Groups: the invariant of the manager and
--                       the stages; Isolation: where frames go; Live: HasLiveBridgeWithID; Drain:
--                       every world can be emptied; Overrun: the limit on groups; Told (Knows,
--                       Changes, Bridges, Phones, Quiet, Invariant): what the connections know from
--                       the notices of all handlers; Informed: the opening of a phone; Overtaken:
--                       notices that are written late. Late (Recipients, Pieces, Starts, Owners,
--                       Fits, Isolation): the handlers with their writes, closes and reports as steps
--                       of their own.
--   Reports             newControlReportSender: the producer and the sender goroutine as a step
--                       relation, over all interleavings.
--   Auth                internal/auth. Claims and Acceptance: validateClaims; KeyStore: keystore.go,
--                       with the periodic refresh in KeyStore/Refreshes; Verify: verifyToken,
--                       Validate and Authenticate.
--   Protocol            internal/protocol: Framing, Messages (with Parsing) and CloseCodes.
--   Notifications       internal/notifications/client.go.
--   Config              the flags and environment of cmd/relay/main.go.
--   Server              internal/relay/server.go: the parts of the server and its numbers (Stats).
--                       Admission: handleWebSocket with the authenticator of internal/auth.
--   Startup             main of cmd/relay/main.go: from the configuration to the server. Exit: when
--                       the program ends with an error.
--   Tests               concrete data, and the theorems at it.
--
-- Conventions. A Go string or byte slice is a list of bytes. A pointer to a connection is its record,
-- with the address as the field `ref`, which `==` compares; nil is `none`. A uint16 is a natural
-- number with the wrap-around written out; counters of 64 bits are natural numbers. The limiter's
-- counts are bounded by its limit, so they do not wrap. A loop over a map or a slice is structural
-- recursion; only the search of AddPhone has fuel, one more than the number of phones, which is
-- enough since so many ids in a row cannot all be taken. A loop that waits for a ticker or a message
-- (the ping loop, the periodic refresh) runs over the list of what it receives.
--
-- Parameters, for code outside of the repository: encoding/json (Json), the JWT library (Jwt), HTTP,
-- PEM and PKIX (Backend, Http), the address parsers (Net), the encryptor (Encryptor), the conversion
-- of a float64, rand.Read of crypto/rand.
--
-- Not modelled: the routing, listening and shutdown of the HTTP server and the fixed answer of
-- handleStatus, which are calls of net/http; signals; logging; and the parsing of flags. What the
-- connections know (World/Told) is modelled for notices that are written before the next access of
-- any handler; of other orders there are a case (World/Overtaken) and whom the writes go to
-- (World/Late).
pub mod Prelude
pub mod RateLimiter
pub mod AccountGroup
pub mod Announce
pub mod GroupManager
pub mod Protocol
pub mod Auth
pub mod DeviceIds
pub mod Notifications
pub mod Handler
pub mod ClientIp
pub mod Reports
pub mod Connect
pub mod World
pub mod Server
pub mod Startup
pub mod Config
pub mod Tests
