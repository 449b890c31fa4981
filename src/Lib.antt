-- ===== src/Lib.antt =====
-- A model of a chat server with rooms: clients hold WebSocket connections, log in as users, join
-- and leave channels, and send messages that go to every connection of every member.
--
-- The program's parts. One goroutine, `Run` of internal/server/server.go, takes the registrations,
-- the departures and the messages of all connections, one at a time, and calls a handler for each.
-- The handlers work on three maps: the connections by their identifier (Server.clients), the users
-- who are online by name (internal/user/manager.go), and the channels by name
-- (internal/channels/manager.go). A user who is online (internal/user/user.go) holds the
-- connections and the names of the channels joined; a channel (internal/channels/channel.go) holds
-- the names of its members. Each connection (internal/connection/client.go) has a goroutine that
-- reads frames and passes messages to `Run`, and one that writes what `Run` puts in its queue.
-- Messages sent are stored by internal/elastic/elastic.go; accounts are in internal/user/users.go
-- over a repository; internal/utils/utils.go has the Basic credentials. An HTTP server
-- (internal/server/http_handler.go) and a gRPC server (internal/server/grpc.go) register users and
-- list messages; they read the same channels, accounts and index. main.go starts them all.
--
-- The files.
--   Prelude: shared names; sets and maps as lists, texts as bytes.
--   Protocol: internal/protocol/message.go.
--   Auth, Auth/Base64: internal/utils/utils.go (GetEncodedBase64Token, ParseBasicAuth).
--   Connection, Connection/Writing: internal/connection/client.go (NewClient, Authenticate, the body
--     of ReadMessages; WriteMessages).
--   User, Sessions: internal/user/user.go, models.go and manager.go.
--   Channel, Rooms: internal/channels/channel.go and manager.go.
--   Users: internal/user/users.go (Register, Login, UpdateProfile) over the interface Repository.
--   Elastic: internal/elastic/elastic.go (IndexMessage).
--   Store: the memory that the handlers share. Go's pointers are addresses, so that two names for
--     one object are seen to be so; `Outcome` tells a run that ends from one that panics and from
--     one that blocks, on the server's own mutex or on a full queue.
--   Sending: the pushes to a channel against a function on the queues.
--   Server/Replies, Login, Membership, Messages, Clients, Run: internal/server/server.go
--     (sendError and sendResponse; handleLogin; handleJoinChannel, handleLeaveChannel and
--     cleanupEmptyChannel; handleSendMessage; addClient, removeClient and
--     removeUserFromAllChannels; Run and handleMessage).
--   Server/Invariant: what holds between two events. Server/Steps and Server/Keeps: the lemmas on
--     the changes of state, and each handler. Server/Events: all events. Server/Reachable: all
--     reachable stores. Server/Delivery, Admission, Refusals, Stalls: what the handlers answer, and
--     where a client can stop them. Server/Effects: rules for what no handler does.
--     Server/Order: the order in which Go visits a map.
--   Server/Chat, Server/Refinement: the chat as its users see it, and the event loop against it;
--     Server/Logins, Server/Who: the logins.
--   System: ServeWS and Run, and the loops of internal/connection/client.go, as the goroutines of
--     all connections: a step relation on the store and the statement at which each connection is.
--     System/Invariant, Effect, Keeps, Handling, Reached: what holds at every moment. System/Chat,
--     Moves, Simulation: the promise to the users, and that every run keeps it; Server/Online:
--     sessions and logins. System/Progress, Members, Delivery, Answers, Stuck, Stopped: who can
--     go on, who is a member, who gets what is said, how many answers a request has, which reader
--     is stuck, and when `Run` is; Server/Stalls/Full: handlers whose sender has a full queue;
--     Server/Answers: how many answers each handler queues.
--   Startup: main.go (setupApp), internal/postgres/postgres.go (NewPostgresConnection), and the
--     addresses and Start of internal/server/server.go and grpc.go. Startup/Endings: when the program serves, and how it ends.
--   Users/Postgres: internal/user/repository.go (PostgresRepository, with the statements, what they
--     bind and what is scanned, the statements without their layout) and the codes of
--     internal/postgres/errcode.go. Elastic/Query, Documents, Stats: the queries,
--     ListDocuments and GetMessageStats of internal/elastic/elastic.go; Elastic/Answers: what they
--     return.
--   Http, Http/Guards: internal/server/http_handler.go, http_middleware.go and auth_context.go, and
--     internal/errors/messages.go (SendError).
--   Http/Routes: Start of internal/server/server.go. Http/Passes: who gets messages.
--   Grpc, Grpc/Messages, Profiles, Interceptor: internal/server/grpc.go (ListMessages and
--     GetMessageStats; RegisterProfile and UpdateProfile; AuthInterceptor, and the server).
--     Grpc/Access, Grants, Statistics, Listings, Enrollment: who is answered, and what, also
--     against HTTP.
--   Config, Config/Secrets: internal/config/config.go, and createOriginChecker of
--     internal/server/server.go.
--   Connection/Gate, Lines, Flushing, Frames, Elastic/Indexing, Users/Accounts, Auth/RoundTrip: the
--     other parts.
--   Tests: runs and the theorems at concrete inputs.
--
-- Choices. Times are numbers of milliseconds from the zero time, and ids are natural numbers. A Go
-- map is iterated in the order of its list; Server/Order is about other orders. The capacity of a
-- queue is 256, as in the code. The loops run over lists; only the digits of a
-- number (`decimal_in` of Startup) are found with fuel, one round more than the number, and each
-- round cuts off a digit. The goroutines
-- beside `Run` appear as the steps of Server/Reachable and of System, between two events; a step
-- within a handler only takes messages from queues, or answers into one. In System `Run` takes an
-- event only when it is at its select, and a message is handled in a step of its own, which there is
-- only if the handler comes to its end: a `Run` that waits within a handler is a state without a
-- step of `Run`. What a handler changes is seen at its end, also by the reader that asks whether the
-- client is logged in. uuid.New gives an identifier that no connection has. A send to a full queue is an
-- outcome of its own, since the goroutine then depends on the writer of that connection. An event
-- is ready (IsReady of Server/Events) if a registered connection is new, an unregistered one is
-- registered, and the sender of a message, if registered, has room in its queue for one answer,
-- and its login has no token shorter than the prefix. Server/Stalls shows what happens otherwise.
--
-- The writer of a connection takes turns with those who fill its queue: the case of its select, each
-- round of the loop over the queued messages, and the close of the frame are turns of their own. In
-- System, where only the room in the queues counts, the writer takes one message in a step.
--
-- Parameters: the replies of the database to the statements, bcrypt, the text of JSON values, the
-- client of the search cluster, the retry library, timestamppb, the parsers and the validator of
-- frames and requests, the socket, the file of the configuration, the environment, the database
-- driver, and the ports.
--
-- Not modelled: the listening of the two servers, the end of the process by log.Fatal in the
-- goroutine of the HTTP server, the time limits (WriteWait, PongWait, PingInterval) and the size
-- limit of the frames (maxMessageSize), the upgrade of a connection to a WebSocket, the keys of
-- statistics before the year 1, the generated gRPC code but for the names of the methods,
-- the migrations of the database, the mutexes of the objects that are held for one access each, and
-- the logger with the texts that only it sees.
pub mod Prelude
pub mod Protocol
pub mod Auth
pub mod Connection
pub mod User
pub mod Channel
pub mod Store
pub mod Sessions
pub mod Rooms
pub mod Users
pub mod Elastic
pub mod Server
pub mod Sending
pub mod Tests
pub mod Http
pub mod Grpc
pub mod Config
pub mod System
pub mod Startup
