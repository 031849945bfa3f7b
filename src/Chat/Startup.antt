-- ===== src/Chat/Startup.antt =====
-- How the server application starts: `startup`, `main` and `main(args)` of src/server/app.cpp. The
-- configuration and the addresses of Poco, the file system and spdlog answer as an `Environment` says.
use gologincase.Common.{
  ℕ, ◌≡◌, ◌≢◌, refl, Bool, true, false, not, ◌&&◌, List, [], ◌++◌, Option, none, some, Buffer,
  Table, codes, if◌then◌else◌, arith, ◌⊎◌, ◌↔◌, str_eq-eq, str_eq_refl,
}
use gologincase.Messages.Json.{Json}
use gologincase.Messages.Commands as Cmd
use gologincase.Messages.Client.{client_auth_request_message, client_msg_request_message}
use gologincase.Messages.Server.{server_auth_response_message, server_msg_response_message}
use gologincase.Core.Logger.{Sink, Setting, Created, logger, null, thrown, create_logger}
use gologincase.Provider as Provider
use gologincase.Dispatcher.{Handler, wrap_request}
use gologincase.Tcp.{up, invalid_socket}
use gologincase.Tcp.Lifecycle as Lifecycle
use gologincase.Tcp.Lifecycle.{Life, StartAnswers, returns, start, start_closed}
use gologincase.Tcp.Lifecycle.Threads.{perform-IsSound}
use gologincase.Chat.{
  World, create_dispatcher, client_login_packet_handler, client_message_packet_handler,
}
use gologincase.Chat.Commands.{NoCollision, Serves, create_dispatcher_serves}

pub record AppConfig : Type 0 where
  pub srv_addrr : Buffer
  pub data_folder : Buffer
  pub client_pass : Buffer
  pub client_login : Buffer

pub record Environment : Type 0 where
  -- `config().getString` of a property and its default.
  pub get_string : Buffer → Buffer → Buffer
  pub exists : Buffer → Bool
  -- Whether `create_directories` returns.
  pub creates : Buffer → Bool
  -- Whether spdlog can open a daily logger.
  pub opens : Buffer → Buffer → Bool
  -- The port of a `Poco::Net::SocketAddress`; none if its constructor throws.
  pub port : Buffer → Option ℕ
  -- What the system answers to the start of a server on a port.
  pub answers : ℕ → StartAnswers

-- How `startup` ends: with the configuration and `m_logger`, or by an exception.
pub data Started : Type 0 where
  started : AppConfig → Option (Sink × List Setting) → Started
  failed : Started

-- The logger that `create_logger` returns.
abbrev after_logger : AppConfig → Created → Started
after_logger c (logger sink settings) = started c (some (sink, settings))
after_logger c null = started c none
after_logger c thrown = failed

-- The properties that `startup` reads.
abbrev pub config : Environment → AppConfig
config e = record {
  srv_addrr = e.get_string (codes "server_addrr") (codes "localhost:10052");
  client_pass = e.get_string (codes "client_pass") [];
  client_login = e.get_string (codes "client_login") [];
  data_folder = e.get_string (codes "application.dataDir") [];
}

unfoldable pub startup : Environment → Started
startup e =
    let c = config e in
    let path = c.data_folder ++ codes "\\" ++ codes "gologin_server.log" in
    let level = e.get_string (codes "logger_level") (codes "debug") in
    let sink = e.get_string (codes "logger_sink") (codes "console") in
    if not (e.exists c.data_folder) && not (e.creates c.data_folder)
    then failed
    else after_logger c (create_logger e.opens level sink (codes "gologin_server") path)

-- What `main` has made: the state of the handlers, the dispatcher, and the server.
pub record Running : Type 0 where
  pub world : World
  pub handlers : Table (Handler World)
  pub life : Life

-- How the program goes on: with undefined behaviour, since it calls through a logger that is null; by
-- termination, since an exception leaves the main thread; or with its server.
pub data Course : Type 0 where
  undefined : Course
  terminates : Course
  runs : Running → Course

module _ (e : Environment) (j : Json) (accepts : ℕ → Buffer → Bool) (engine : ℕ → ℕ → ℕ)
    (hash : Buffer → ℕ) (socket : ℕ) where
  abbrev after_start : World → Table (Handler World) → Lifecycle.End × Life → Course
  after_start w t (returns, l) = runs (record { world = w; handlers = t; life = l })
  after_start w t (end, l) = terminates

  -- `main` in the main thread, which catches nothing.
  unfoldable pub main : AppConfig → Course
  main c =
      let provider = Provider.create c.client_login c.client_pass in
      let world : World = record {
        app = record { provider = provider; engines = 0 };
        objects = [];
        client_list = [];
        trace = [];
      } in
      elim (create_dispatcher j accepts engine hash) [
        | none ↦ terminates
        | some t ↦ elim (e.port c.srv_addrr) [
          | none ↦ terminates
          | some port ↦ after_start world t (start (e.answers port) (Lifecycle.create socket))
        ]
      ]

  -- `main(args)`. Its handlers of exceptions and its last line write to the logger.
  unfoldable pub app_main : Course
  app_main = elim (startup e) [
    | failed ↦ undefined
    | started c none ↦ undefined
    | started c (some l) ↦ main c
  ]

  main-ne-undefined : (c : AppConfig) → main c ≢ undefined
  unfolding main
  main-ne-undefined c h = ground arith

-- The system opens a socket, sets its option, binds it and listens.
abbrev pub IsListening : StartAnswers → Type 0
IsListening a =
    (a.socket ≢ invalid_socket) × (a.option_set ≡ true) × (a.bound ≡ true) × (a.listening ≡ true)

-- The sink is not the console, and is no file that can be opened.
abbrev pub NoLogger : Environment → Type 0
NoLogger e =
    let sink = e.get_string (codes "logger_sink") (codes "console") in
    let path =
      e.get_string (codes "application.dataDir") [] ++ codes "\\" ++ codes "gologin_server.log" in
    (sink ≢ codes "console")
    × ((sink ≢ codes "file") ⊎ (e.opens (codes "gologin_server") path ≡ false))

abbrev pub NoFolder : Environment → Type 0
NoFolder e =
    let folder = e.get_string (codes "application.dataDir") [] in
    (e.exists folder ≡ false) × (e.creates folder ≡ false)

module _ (e : Environment) (j : Json) (accepts : ℕ → Buffer → Bool) (engine : ℕ → ℕ → ℕ)
    (hash : Buffer → ℕ) (socket : ℕ) where
  -- The server application runs into undefined behaviour exactly if the data folder is not there and
  -- cannot be made, or the configured sink is neither the console nor a file that can be opened: then
  -- it writes to a logger that it does not have.
  pub app_main_undefined :
      (app_main e j accepts engine hash socket ≡ undefined) ↔ (NoFolder e ⊎ NoLogger e)
  unfolding app_main startup create_logger
  app_main_undefined =
      let sink = e.get_string (codes "logger_sink") (codes "console") in
      ground (
        arith,
        str_eq-eq sink (codes "console"),
        str_eq-eq sink (codes "file"),
        str_eq_refl (codes "console"),
        str_eq_refl (codes "file"),
        main-ne-undefined e j accepts engine hash socket (config e),
      )

  after_start-returns :
      (w : World) (t : Table (Handler World)) (p : Lifecycle.End × Life)
      → p.0 ≡ returns
      → after_start e j accepts engine hash socket w t p
        ≡ runs (record { world = w; handlers = t; life = p.1 })
  after_start-returns w t (Lifecycle.returns, l) h = refl
  after_start-returns w t (Lifecycle.throws, l) h = cc
  after_start-returns w t (Lifecycle.terminates, l) h = cc

  start-create : (a : StartAnswers) → (start a (Lifecycle.create socket)).0 ≡ returns
  unfolding Lifecycle.create
  start-create a = let sound = perform-IsSound (Lifecycle.create socket) refl in (sound.0 a).1

  start-create-up :
      (a : StartAnswers)
      → (((start a (Lifecycle.create socket)).1.status ≡ up) ↔ IsListening a)
        × (((start a (Lifecycle.create socket)).1.joinable ≡ true) ↔ IsListening a)
  unfolding start start_closed Lifecycle.create
  start-create-up a = ground arith

  module _ (apart : NoCollision hash) where
    -- If the hashes of the server's commands differ and the address has a port, `main` goes on to its
    -- end whatever the start of the server comes to: with a provider that has the configured login and
    -- password and no clients, a dispatcher that serves logins and messages by their handlers, and a
    -- server that is up and accepts clients exactly if the system has opened its socket, set the
    -- option, bound it and listens.
    pub main_runs :
        (c : AppConfig) (port : ℕ)
        → e.port c.srv_addrr ≡ some port
        → (r : Running) × (main e j accepts engine hash socket c ≡ runs r)
          × (r.world.app.provider ≡ Provider.create c.client_login c.client_pass)
          × ((r.life.status ≡ up) ↔ IsListening (e.answers port))
          × ((r.life.joinable ≡ true) ↔ IsListening (e.answers port))
          × Serves hash r.handlers Cmd.auth (wrap_request j (client_login_packet_handler engine))
          × Serves hash r.handlers Cmd.msg
              (wrap_request j (client_message_packet_handler j accepts))
    unfolding main Provider.create start
    main_runs c port listens =
        let served = create_dispatcher_serves j accepts engine hash apart in
        let r : Running = record {
          world = record {
            app = record { provider = Provider.create c.client_login c.client_pass; engines = 0 };
            objects = [];
            client_list = [];
            trace = [];
          };
          handlers = served.0;
          life = (start (e.answers port) (Lifecycle.create socket)).1;
        } in
        (
          r,
          rw (served.1, listens, main)
              (after_start-returns r.world served.0
                (start (e.answers port) (Lifecycle.create socket)) (start-create (e.answers port))),
          refl,
          (start-create-up (e.answers port)).0,
          (start-create-up (e.answers port)).1,
          served.4,
          served.6,
        )
