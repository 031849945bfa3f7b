-- ===== src/Desktop/Startup.antt =====
-- How the client program starts: `OnInit`, `init` and `main` of src/client/app.cpp. The home folder of
-- wxWidgets, the file system and spdlog answer as an `Environment` says.
use gologincase.Common.{
  str_eq, ℕ, ◌≡◌, Bool, not, ◌&&◌, ◌||◌, List, [], ◌∷◌, ◌++◌, none, some, Buffer, Table, codes,
  if◌then◌else◌, arith,
}
use gologincase.Messages.Json.{Json}
use gologincase.Core.Logger.{
  debug, Sink, daily_logger, Setting, set_level, flush_on, set_pattern, pattern, Created, logger,
  null, thrown, create_logger, get_logger_level,
}
use gologincase.Dispatcher.{Handler}
use gologincase.Gui.{App, create_dispatcher}
use gologincase.Gui.Replies.{NoCollision, registered}
use gologincase.Frame.{Toolkit}
use gologincase.Desktop.{Desktop, create}

pub record Environment : Type 0 where
  -- `wxGetHomeDir`.
  pub home : Buffer
  pub exists : Buffer → Bool
  -- Whether `create_directories` returns.
  pub creates : Buffer → Bool
  -- Whether spdlog can open a daily logger.
  pub opens : Buffer → Buffer → Bool

-- The file of the logger.
abbrev pub log_file : Environment → Buffer
log_file e = e.home ++ codes "\\" ++ codes "gologin" ++ codes "\\" ++ codes "gologin_client.log"

-- `init`: what `create_logger` returns, or an exception.
unfoldable pub init : Environment → Created
init e =
    if not (e.exists e.home) && not (e.creates e.home)
    then thrown
    else create_logger e.opens (codes "debug") (codes "file") (codes "gologin_client") (log_file e)

-- What `main` has made, and the logger that it writes to.
pub record Running (k : Toolkit) : Type 0 where
  pub desktop : Desktop k
  pub handlers : Table (Handler App)
  pub log_sink : Sink
  pub log_settings : List Setting

-- How `OnInit` ends: with undefined behaviour, since it calls through a logger that is null; by an
-- exception; or with the window of the program.
pub data Course (k : Toolkit) : Type 0 where
  undefined : Course k
  throws : Course k
  runs : Running k → Course k

module _ (e : Environment) (j : Json) (hash : Buffer → ℕ) (k : Toolkit) (socket number : ℕ) where
  unfoldable pub main : Sink → List Setting → Course k
  main sink settings = elim (create_dispatcher j hash) [
    | none ↦ throws
    | some t ↦ runs (record {
      desktop = create k socket number;
      handlers = t;
      log_sink = sink;
      log_settings = settings;
    })
  ]

  -- `OnInit`.
  unfoldable pub on_init : Course k
  on_init = elim (init e) [
    | logger sink settings ↦ main sink settings
    | null ↦ undefined
    | thrown ↦ throws
  ]

  -- The home folder is there or can be made, and the file of the logger can be opened in it.
  abbrev pub starts : Bool
  starts = (e.exists e.home || e.creates e.home) && e.opens (codes "gologin_client") (log_file e)

  -- If the commands that the client registers have different hashes: if its home folder is there or can
  -- be made and the file of the logger can be opened, the client starts with its new window, with a
  -- dispatcher that has its handlers, and with a daily logger of that file at the level `debug`;
  -- otherwise an exception leaves `OnInit`. It never calls through a logger that is null.
  pub on_init_lem :
      NoCollision hash
      → (t : Table (Handler App)) × (create_dispatcher j hash ≡ some t)
        × (on_init ≡ (
            if starts
            then runs (record {
              desktop = create k socket number;
              handlers = t;
              log_sink = daily_logger (codes "gologin_client") (log_file e) 23 59;
              log_settings = flush_on debug ∷ set_level debug ∷ set_pattern pattern ∷ [];
            })
            else throws))
  unfolding on_init init main create_logger get_logger_level str_eq
  on_init_lem apart = let (t, made) = registered j hash apart in (t, made, ground (arith, made))
