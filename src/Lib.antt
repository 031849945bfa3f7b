-- ===== src/Lib.antt =====
-- gologin: a chat server and its client over TCP. A client logs in with the one configured login and
-- password, and what it says is sent to everybody who is logged in. The Windows build is modelled.
--
-- The parts, from the bytes up, and the files that model them:
--
-- - Packet: src/core/types.hpp and `create_packet`, `header_packet` of src/tcp/core. A packet is a
--   header of 32 bytes and a body. The header is the object representation of `packet_header_t`, so
--   that offsets and padding are those of x86-64.
-- - Messages: src/messages/messages.hpp, the packer of contrib/google/tagged_json.hpp and
--   src/messages/json/packer.hpp. Messages/Json has nlohmann::json as an interface, the record `Json`,
--   with its documented behaviour as `JsonLaws`; Messages/Client and Messages/Server have the records.
-- - Provider: src/auth/provider, the table of registered clients. Each call is one step, as the mutex
--   makes it.
-- - Dispatcher: src/core/dispatcher.hpp and src/tcp/core/dispatcher.hpp. A handler is a function from
--   the command, the cookies, the input, the output and a state to an `Outcome`; an exception is the
--   flag `raised`, and what was written before it stays.
-- - Tcp: src/tcp/core, src/tcp/server and src/tcp/client. Tcp/Errors is `get_last_error`; Tcp/Session
--   is `server_client`; Tcp/Server is the list of clients of `server` and the thread of a client;
--   Tcp/Lifecycle is `start`, `stop` and the accepting thread, each as the thread that runs it sees it; Tcp/Client is `client`. What the
--   operating system answers is an argument of each function, and the calls with an effect on a socket
--   are listed in a trace. A server's connections are objects in a store, since the thread and the list
--   share them. Tcp/Server has the thread of one client from its start to its end; in
--   Tcp/Server/Interleaving the threads of all clients, the accepting thread and a call of `stop` take
--   their steps in any order.
-- - Core: src/core/error.hpp and src/core/error.cpp in Core/Error, src/core/logger.hpp in Core/Logger.
-- - Chat: src/server/app.cpp, the packet handlers and the dispatcher that `main` fills. Chat/Startup is
--   `startup` and `main`; Chat/Requests has the contract of the handlers, Chat/Connection a whole
--   connection with its requests, and Chat/Stopping a call of `stop` among the threads.
-- - Gui: src/client/app.cpp, the callbacks of the client's window and its packet handlers. What the
--   window's output handlers are called with is listed. Gui/Replies has the packets that its thread
--   handles; Gui/LoginFlow and Gui/MessageFlow follow a login and a message through both programs, and
--   Gui/Answers the server's answers to the other requests.
-- - Frame: src/client/frame.cpp, the window: its controls over the interface `Toolkit` of wxWidgets, the
--   handlers of its buttons and its output handlers. Frame/View has what is shown and enabled,
--   Frame/Outputs what any outputs make of it, and Frame/Transcript the text of the output field.
-- - Desktop: the application and the window together, as `create_frame` of src/client/app.cpp and
--   `input_handler` of src/client/frame.cpp join them. Desktop/Startup is `OnInit`, `init` and `main`;
--   Desktop/Events has what the user and the server may do, in any order.
-- - Common: the helpers: byte strings, association lists for the maps, Boolean tests.
-- - Examples: a JSON library that meets the laws, tests, and the theorems applied to concrete inputs.
--
-- A packet goes from `client_handler` (Tcp/Server) by `recv` (Tcp/Session) to `packet_handler`, which
-- calls `dispatch` (Dispatcher); the wrapper unpacks the request (Messages/Json), calls a handler of
-- Chat, which calls Provider and may send to other clients by `send_to`, and packs the response, which
-- `packet_handler` sends back. A button of the window (Desktop) calls a callback of Gui, which packs a
-- request and sends it by `send` (Tcp); the thread of Tcp/Client reads the replies and dispatches them to
-- the handlers of Gui, whose outputs the window shows.
--
-- Bounds: bytes and numbers are natural numbers; the size of a packet is reduced modulo 2 ^ 32, the
-- number assigned to a string modulo 256, and theorems ask for numbers of messages below 2 ^ 64 where
-- they need it. No function runs on fuel: a loop of a thread takes the list of its rounds, each with the
-- status that its test reads and the system's answers, and a theorem speaks of every such list.
--
-- Parameters: `hash` for `std::hash<std::string_view>`, `accepts` for the result of `::send`, `engine`
-- for the random engines of `add_client`, a `Json`, a `Toolkit` for wxWidgets, an `Environment` for what
-- Poco, wxWidgets, the file system and spdlog answer when a program starts, and `Allows` for the numbers that the
-- system may give to a new socket. The order of a table stands for the order in which a container is
-- walked.
--
-- Not modelled: `app::exit` of src/server/app.cpp and src/server/main.cpp, which wait for the operating
-- system and Poco, and the order in which the members of the server application are destroyed; the layout
-- of the window; and the copies of other libraries under contrib. The step of a packet handler is not
-- divided, although several handlers may run at once. The window's calls from the thread of the TCP
-- client are taken in the order in which they are made. Logging is no part of a result.
pub mod Common
pub mod Core
pub mod Packet
pub mod Messages
pub mod Provider
pub mod Dispatcher
pub mod Tcp
pub mod Chat
pub mod Gui
pub mod Frame
pub mod Desktop
pub mod Examples
