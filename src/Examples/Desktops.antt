-- ===== src/Examples/Desktops.antt =====
-- The client's window, with controls that hold what the window sets.
use gologincase.Common.{
  ◌≡◌, refl, Bool, true, false, List, [], ◌∷◌, ◌++◌, none, some, Buffer, codes, arith,
}
use gologincase.Messages.Json.{to}
use gologincase.Messages.Commands as Cmd
use gologincase.Messages.Client.{client_auth_request_message, client_hello_request_message}
use gologincase.Messages.Server
use gologincase.Tcp.{connected}
use gologincase.Tcp.Client as Tcp
use gologincase.Tcp.Client.{ConnectAnswers}
use gologincase.Gui.{
  on_login, on_connect, on_recv, success, pending, Output, find_colon,
  server_auth_reply_packet_handler, server_hello_reply_packet_handler,
}
use gologincase.Gui.Requests.{auth_request}
use gologincase.Frame.{Toolkit, ToolkitLaws, load_ui}
use gologincase.Frame.View.{view, first_view}
use gologincase.Frame.Outputs.{
  show_outputs, react_all, IsTidy, view-show_outputs-load_ui, show_outputs-IsTidy,
}
use gologincase.Desktop.{
  Desktop, Button, connect_button, disconnect_button, login_button, create, receive, press,
}
use gologincase.Desktop.Refused.{login_refused}
use gologincase.Gui.Replies.{greeted, says}
use gologincase.Desktop.Events.{Event, pressed, edited, replied, conversation, run}
use gologincase.Desktop.Conversation.{run-create-conversation}
use gologincase.Desktop.Waiting.{can_press, hello_request, connect_waits}
use gologincase.Examples.Codec.{codec, codec_laws, is_ascii}
use gologincase.Examples.Data.{accepts, cookies, login, pass}

pub record Widget : Type 0 where
  shown : Bool
  enabled : Bool
  text : Buffer

abbrev pub widgets : Toolkit
widgets = record {
  Control = Widget;
  create = λ t. record { shown = true; enabled = true; text = t };
  show = λ b w. record w { shown = b };
  enable = λ b w. record w { enabled = b };
  is_enabled = λ w. w.enabled;
  is_shown = λ w. w.shown;
  get_value = λ w. w.text;
  clear = λ w. record w { text = [] };
  append_text = λ t w. record w { text = w.text ++ t };
}

widgets_laws : ToolkitLaws widgets
widgets_laws = record {
  is_shown-create = λ t. refl;
  is_enabled-create = λ t. refl;
  get_value-create = λ t. refl;
  is_shown-show = λ b c. refl;
  is_enabled-show = λ b c. refl;
  get_value-show = λ b c. refl;
  is_shown-enable = λ b c. refl;
  is_enabled-enable = λ b c. refl;
  get_value-enable = λ b c. refl;
  is_shown-clear = λ c. refl;
  is_enabled-clear = λ c. refl;
  get_value-clear = λ c. refl;
  is_shown-append_text = λ t c. refl;
  is_enabled-append_text = λ t c. refl;
  get_value-append_text = λ t c. refl;
}

abbrev outputs : List Output
outputs =
    record { action = on_connect; status = pending; msg = codes "Connect..."; data_text = [] }
    ∷ record { action = on_connect; status = success; msg = codes "hi"; data_text = [] }
    ∷ record { action = on_login; status = success; msg = codes "Login..."; data_text = [] }
    ∷ record { action = on_recv; status = success; msg = login; data_text = codes "hi" }
    ∷ []

view-show_outputs-load_ui_example :
    view widgets (show_outputs widgets outputs (load_ui widgets)) ≡ react_all outputs first_view
view-show_outputs-load_ui_example = view-show_outputs-load_ui widgets widgets_laws outputs

show_outputs-IsTidy_example : IsTidy (view widgets (show_outputs widgets outputs (load_ui widgets)))
show_outputs-IsTidy_example = show_outputs-IsTidy widgets widgets_laws outputs

-- A new client program, and the same with a text in its login field.
abbrev new : Desktop widgets
new = create widgets 5 0

abbrev typed : Desktop widgets
typed = record new {
  frame = record new.frame {
    login_field = record { shown = true; enabled = true; text = login ++ 58 ∷ pass };
  };
}

abbrev answers : Buffer → Buffer → ConnectAnswers
answers host port = record { socket = 7; resolved = true; connected = true }

no_colon : find_colon login ≡ none
unfolding find_colon
no_colon = refl

abbrev packet : Buffer
packet =
    4 ∷ 2 ∷ 0 ∷ 0 ∷ codes "id"
    ++ (7 ∷ 1 ∷ 5 ∷ codes "command" ++ Cmd.auth)
    ++ (5 ∷ 1 ∷ 4 ∷ codes "login" ++ login)
    ++ (8 ∷ 1 ∷ 4 ∷ codes "password" ++ pass)

to_auth_request : to codec (auth_request typed.app login pass) ≡ some packet
unfolding to create
to_auth_request = refl

abbrev greeting : Buffer
greeting = 2 ∷ 2 ∷ 0 ∷ 9 ∷ codes "id" ++ (7 ∷ 1 ∷ 5 ∷ codes "command" ++ Cmd.hello)

to_hello_request : to codec (hello_request 9) ≡ some greeting
unfolding to
to_hello_request = refl

abbrev refusal : Server.AuthResponse
refusal = record {
  id = 0;
  command = Cmd.auth;
  status = codes "failed";
  session = [];
  message = codes "wrong";
}

login_refused_example :
    let sent = (press codec accepts answers 9 widgets login_button typed).1 in
    let after = receive widgets (server_auth_reply_packet_handler cookies refusal) sent in
    let v = view widgets after.frame in
    (after.frame ≡ record sent.frame { status_bar = refusal.message })
    × (after.app.client ≡ sent.app.client)
    × (after.app.cookie ≡ record sent.app.cookie { client_session = refusal.session })
    × (v.send_enabled ≡ true)
    × (v.input_enabled ≡ true)
    × (v.login_shown ≡ false)
    × (v.logout_shown ≡ true)
unfolding create
login_refused_example =
    login_refused widgets widgets_laws codec is_ascii codec_laws accepts answers 9 typed
      (omega arith) login pass packet cookies refusal refl refl no_colon (ground arith)
      (ground arith) to_auth_request refl (ground arith)

abbrev welcome : Server.HelloResponse
welcome = record { id = 9; command = Cmd.hello; auth_method = codes "plain" }

connect_waits_example :
    let waiting = (press codec accepts answers 9 widgets connect_button new).1 in
    let replied = receive widgets (server_hello_reply_packet_handler cookies welcome) waiting in
    (waiting.app.client.conn.status ≡ connected)
    × ((button : Button) → can_press button (view widgets waiting.frame) ≡ false)
    × (can_press disconnect_button (view widgets replied.frame) ≡ true)
    × (can_press login_button (view widgets replied.frame) ≡ true)
unfolding create load_ui Tcp.create
connect_waits_example =
    connect_waits widgets widgets_laws codec accepts answers 9 (codes "localhost:10500") greeting
      new cookies welcome refl refl (ground arith) (ground arith, λ h. refl) refl refl refl
      to_hello_request (ground arith) refl

-- A login, a message of another client, and an edit of the input field.
abbrev session : List (Event widgets)
session =
    pressed answers 9 connect_button
    ∷ replied cookies (greeted welcome)
    ∷ edited typed.frame.address_field typed.frame.login_field typed.frame.input_field
    ∷ pressed answers 9 login_button
    ∷ replied cookies (
        says (record {
          id = 9;
          command = Cmd.msg;
          session = codes "abc";
          sender_login = login;
          body = codes "hi";
        }))
    ∷ []

run-create-conversation_example :
    let (after, there) = run codec accepts widgets session (create widgets 5 0) in
    (there ≡ true) × (after.frame.output_field.text ≡ conversation session)
run-create-conversation_example =
    run-create-conversation codec accepts widgets widgets_laws session 5 0

-- The line that it shows.
conversation-session : conversation session ≡ login ++ codes ": hi\n"
conversation-session = refl
