-- ===== src/Lib.antt =====
-- A verification library for the Ara chat service, a server for chat over WebSocket in Rust.
--
-- A client's connection is registered with a server, which filters what the connection gets by the
-- conversations that it subscribes to. A message that is sent to a conversation goes through the
-- message router: the participants are read from the tables, the sender and the users in a blocking
-- relation with him are left out, and each other participant gets it on this server, over the
-- cluster, or as a notification. The files and the code they model:
--
--  * Base and its children: lists, maps, machine words and results; Base/Stateful is the monad of
--    calls that change a state and may fail, Base/Slices and Base/Offsets the indices of lists and
--    the signed offsets, Base/Sorting the stable sort by a key. `DashMap` and `HashSet` are lists
--    with distinct keys; nothing in the code relies on their order.
--  * Redis and its children: the commands that the code sends to Redis, as records of commands on
--    lists, sets, hashes and counters, each with the laws that Redis documents. They are the
--    interface between the components below and a server that is not part of the code.
--  * Subscription: the filter of one connection (src/domain/connection/subscription.rs). Each
--    method is a function of the same name.
--  * Connection: the table of one server's connections, its index by user and its counter
--    (src/domain/connection/manager.rs, types.rs), with the calls that send in Connection/Channels.
--    The sending half of a channel is the parameter `Channel`. Calls are taken one at a time.
--  * Breaker: the circuit breaker (src/infrastructure/circuit_breaker.rs). The time and the outcome
--    of the guarded operation are arguments.
--  * Database: the rows of the tables and the way statements are run: each may fail, and a
--    transaction that fails leaves the tables as they were. `World` counts the statements and says
--    which are answered, so that a theorem about any world covers every outage. `SELECT 1` that is
--    read as an i64 is an error where it has a row, since the literal is an INT4.
--  * Conversation: conversations and who takes part in them (src/domain/conversation/service.rs,
--    types.rs), with those who enter and leave in Conversation/Membership, muting in
--    Conversation/Muting, and creation and direct conversations (direct_lookup.rs) in
--    Conversation/Direct, with SHA-256 as a parameter.
--  * Blocking: who has blocked whom (src/domain/blocking/service.rs).
--  * Message: the messages (src/domain/message/types.rs), of the server messages those that the
--    router, the handler, the presence broadcaster and the requests of a WebSocket build; their JSON
--    is a parameter.
--  * Storage: messages in the tables (src/domain/message/storage.rs), with the insertions in
--    Storage/Creating, which refuse what the columns do not take, replies and threads in
--    Storage/Replies and pins in Storage/Pinning.
--  * Reaction: the reactions to messages (src/domain/reaction/service.rs), on rows as Storage, with
--    the queries in Reaction/Reading.
--  * Cluster: routing to the servers where a user is connected (src/domain/cluster/router.rs). The
--    session store, the offline queue and Redis are parameters here; OfflineQueue/Delivery puts
--    the queue of the next item in.
--  * OfflineQueue: the messages of a user who is away (src/domain/message/offline_queue.rs), as a
--    list in Redis; the id and the time of an entry and its JSON are parameters.
--  * Session: at which servers a user is connected (src/domain/cluster/session_store.rs), as two
--    families of sets in Redis.
--  * Presence: who follows the presence of whom, and in Presence/Status the status of a user and
--    the count of his connections (src/domain/presence/tracker.rs); Presence/Broadcast tells the
--    followers (src/domain/presence/broadcast.rs), over Connection and Cluster.
--  * Receipt: the unread counts (src/domain/receipt/unread.rs and their part of
--    src/infrastructure/redis/cache.rs).
--  * RateLimit: how many messages a user may send in a window (src/infrastructure/ratelimit/mod.rs);
--    the count is cut to 32 bits.
--  * Sharding: shards, and in Sharding/Ring and Sharding/Routing the ring of nodes with consistent
--    hashing (src/infrastructure/sharding/mod.rs). The hashes and the binary search are parameters.
--  * Router: the message router (src/domain/message/router.rs), over Connection, Cluster, Database,
--    Conversation and Blocking.
--  * Handler: the requests that change messages (src/domain/message/handler.rs), over Router, Storage
--    and Conversation; its children Sending, Editing, Pinning and Forwarding hold the handlers. The
--    user ids that src/domain/mention/parser.rs finds by regular expressions and the hints of the
--    Markdown library are parameters.
--  * WebSocket: the requests of a client that send a message or change what its connection
--    subscribes to (src/api/websocket.rs, src/domain/validation/limits.rs), in WebSocket/Sending and
--    WebSocket/Requests, over Handler, Connection, RateLimit and Receipt. The escaping
--    of the html_escape library and the queue of link previews are parameters.
--
-- A UUID, a time in milliseconds and a hash are numbers; a counter of 64 bits wraps around. Every
-- loop of these parts runs over a list, so there is no fuel. Not modelled are the texts of errors,
-- logging, metrics, the lapse of keys in Redis, interleavings inside one call (but for the reset of
-- unread counts), and the other parts of the server (the pages of the message history, read
-- receipts, notifications, validation, attachments, e-mail, the HTTP interface, the other requests
-- of a WebSocket and the start-up).
pub mod Base
pub mod Presence
pub mod Reaction
pub mod Receipt
pub mod Session
pub mod RateLimit
pub mod Redis
pub mod OfflineQueue
pub mod Sharding
pub mod Handler
pub mod Message
pub mod Router
pub mod Storage
pub mod Subscription
pub mod WebSocket
pub mod Cluster
pub mod Connection
pub mod Blocking
pub mod Breaker
pub mod Database
pub mod Conversation
