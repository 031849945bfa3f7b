-- ===== src/Examples/Startups.antt =====
-- The errors, the logger and the start of the server.
use gologincase.Common.{Table, ◌∷◌, if◌then◌else◌, ◌≡◌, ◌≢◌, ◌↔◌, ◌⊎◌, refl, true, [], some, codes}
use gologincase.Messages.Commands as Cmd
use gologincase.Messages.Client.{client_auth_request_message, client_msg_request_message}
use gologincase.Messages.Server.{server_auth_response_message, server_msg_response_message}
use gologincase.Core.Error.{
  fail, success, not_found, message, make_error_code, is_error, make_error_code_lem, exception,
  exception_lem,
}
use gologincase.Core.Logger.{null, create_logger, create_logger_null}
use gologincase.Provider as Provider
use gologincase.Dispatcher.{wrap_request}
use gologincase.Tcp.Lifecycle.{StartAnswers}
use gologincase.Chat.{client_login_packet_handler, client_message_packet_handler}
use gologincase.Tcp.{up}
use gologincase.Chat.Commands.{Serves}
use gologincase.Chat.Startup.{
  AppConfig, Environment, Running, runs, undefined, main, app_main, NoFolder, NoLogger,
  app_main_undefined, IsListening, main_runs,
}
use gologincase.Gui as Gui
use gologincase.Gui.{App}
use gologincase.Dispatcher.{Handler}
use gologincase.Core.Logger.{debug, daily_logger, flush_on, set_level, set_pattern, pattern}
use gologincase.Desktop as Desktop
use gologincase.Desktop.Startup as Client
use gologincase.Desktop.Startup.{log_file, on_init, starts, on_init_lem}
use gologincase.Examples.Desktops.{widgets}
use gologincase.Examples.Streams.{hash-apart}
use gologincase.Examples.Codec.{codec}
use gologincase.Examples.Data.{engine, accepts, hash, hash-NoCollision, login, pass}

make_error_code_lem_example :
    ((is_error (make_error_code success) ≡ true) ↔ (success ≢ fail))
    × ((message (make_error_code success).number ≡ codes "(unrecognized error)")
        ↔ ((success ≢ fail) × (success ≢ success)))
make_error_code_lem_example = make_error_code_lem success

exception_lem_example :
    ((exception (codes "a") fail).code ≡ fail)
    × ((exception (codes "a") fail).what ≡ (exception (codes "a") not_found).what)
    × ((exception (codes "a") fail).what ≡ (exception (codes "b") not_found).what
        → codes "a" ≡ codes "b")
exception_lem_example = exception_lem (codes "a") (codes "b") fail not_found

create_logger_null_example :
    (create_logger (λ name path. true) (codes "debug") (codes "syslog") (codes "gologin") [] ≡ null)
    ↔ ((codes "syslog" ≢ codes "console") × (codes "syslog" ≢ codes "file"))
create_logger_null_example =
    create_logger_null (λ name path. true) (codes "debug") (codes "syslog") (codes "gologin") []

-- A system in which every property has its default, and everything succeeds.
abbrev answers : StartAnswers
answers = record { socket = 7; option_set = true; bound = true; listening = true }

abbrev defaults : Environment
defaults = record {
  get_string = λ property value. value;
  exists = λ path. true;
  creates = λ path. true;
  opens = λ name path. true;
  port = λ address. some 10052;
  answers = λ port. answers;
}

app_main_undefined_example :
    (app_main defaults codec accepts engine hash 3 ≡ undefined)
    ↔ (NoFolder defaults ⊎ NoLogger defaults)
app_main_undefined_example = app_main_undefined defaults codec accepts engine hash 3

abbrev configured : AppConfig
configured = record {
  srv_addrr = codes "localhost:10052";
  data_folder = [];
  client_pass = pass;
  client_login = login;
}

main_runs_example :
    (r : Running) × (main defaults codec accepts engine hash 3 configured ≡ runs r)
    × (r.world.app.provider ≡ Provider.create login pass)
    × ((r.life.status ≡ up) ↔ IsListening answers)
    × ((r.life.joinable ≡ true) ↔ IsListening answers)
    × Serves hash r.handlers Cmd.auth (wrap_request codec (client_login_packet_handler engine))
    × Serves hash r.handlers Cmd.msg
        (wrap_request codec (client_message_packet_handler codec accepts))
main_runs_example =
    main_runs defaults codec accepts engine hash 3 hash-NoCollision configured 10052 refl

-- A user whose home folder is there, and whose log file can be opened.
abbrev logged : Client.Environment
logged = record {
  home = codes "C:";
  exists = λ path. true;
  creates = λ path. true;
  opens = λ name path. true;
}

on_init_lem_example :
    (t : Table (Handler App)) × (Gui.create_dispatcher codec hash ≡ some t)
    × (on_init logged codec hash widgets 5 0 ≡ (
        if starts logged codec hash widgets 5 0
        then Client.runs (record {
          desktop = Desktop.create widgets 5 0;
          handlers = t;
          log_sink = daily_logger (codes "gologin_client") (log_file logged) 23 59;
          log_settings = flush_on debug ∷ set_level debug ∷ set_pattern pattern ∷ [];
        })
        else Client.throws))
on_init_lem_example = on_init_lem logged codec hash widgets 5 0 hash-apart
