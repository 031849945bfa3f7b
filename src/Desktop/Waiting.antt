-- ===== src/Desktop/Waiting.antt =====
-- A connection that is under way, as the window shows it.
use gologincase.Common.{
  ℕ, ◌≡◌, ◌≢◌, refl, ap, ◌∙◌, Bool, true, false, ◌&&◌, [], ◌∷◌, some, Buffer, codes, arith,
}
use gologincase.Packet.{create_packet}
use gologincase.Messages.Json.{Json, to}
use gologincase.Messages.Commands as Cmd
use gologincase.Messages.Client
use gologincase.Messages.Client.{client_hello_request_message}
use gologincase.Messages.Server
use gologincase.Provider.{Cookies}
use gologincase.Tcp.{connected, is_connected, invalid_socket}
use gologincase.Tcp.Client as Tcp
use gologincase.Tcp.Client.{ConnectAnswers, connect, start_thread}
use gologincase.Gui.{
  App, End, returns, UiAction, on_connect, success, pending, output_handler, split,
  on_connect_frame_callback, server_hello_reply_packet_handler,
}
use gologincase.Gui.Requests.{told, submit_lem, is_empty_ne}
use gologincase.Frame.{Toolkit, ToolkitLaws, on_connect_event}
use gologincase.Frame.View.{View, view, first_view, react}
use gologincase.Frame.Outputs.{react_all, view-show_outputs}
use gologincase.Desktop.{
  Desktop, Button, connect_button, disconnect_button, login_button, logout_button, send_button,
  settle, receive, input_handler, ask, press,
}

-- A button can be pressed while it is shown and enabled.
abbrev pub can_press : Button → View → Bool
can_press connect_button v = v.connect_shown && v.connect_enabled
can_press disconnect_button v = v.disconnect_shown && v.disconnect_enabled
can_press login_button v = v.login_shown && v.login_enabled
can_press logout_button v = v.logout_shown && v.logout_enabled
can_press send_button v = v.send_shown && v.send_enabled

-- The system makes a connection.
abbrev pub Connects : ConnectAnswers → Type 0
Connects a = (a.socket ≢ invalid_socket) × (a.resolved ≡ true → a.connected ≡ true)

connect-Connects :
    (a : ConnectAnswers) (c : Tcp.Client)
    → Connects a
    → is_connected c.conn.status ≡ false
    → c.joinable ≡ false
    → ((connect a c).1 ≡ true)
      × ((connect a c).0.conn.status ≡ connected)
      × ((connect a c).0.conn.socket ≡ a.socket)
unfolding connect start_thread
connect-Connects a c h idle free = ground (arith, h.1)

-- The greeting.
abbrev pub hello_request : ℕ → Client.HelloRequest
hello_request n = record { id = n; command = Cmd.hello }

module _ (j : Json) (accepts : ℕ → Buffer → Bool) (answers : Buffer → Buffer → ConnectAnswers)
    (drawn : ℕ) (b : Buffer) (packed : to j (hello_request drawn) ≡ some b) (ne : b ≢ []) where
  -- The application after its connection has been made and its greeting has been sent.
  abbrev greeted : Buffer → App → App
  greeted address a =
      told accepts Cmd.hello b on_connect pending (codes "Connect...") (codes "Connect failed.")
        (record a {
          client = (connect (answers (split address).0 (split address).1) a.client).0;
          cookie = record a.cookie { client_id = drawn };
        })

  on_connect_frame_callback-Connects :
      (address : Buffer) (a : App)
      → Connects (answers (split address).0 (split address).1)
      → is_connected a.client.conn.status ≡ false
      → a.client.joinable ≡ false
      → on_connect_frame_callback j accepts answers drawn address a ≡ (returns, greeted address a)
  unfolding on_connect_frame_callback
  on_connect_frame_callback-Connects address a h idle free =
      let made =
        connect-Connects (answers (split address).0 (split address).1) a.client h idle free in
      rw (made.0, made.1, packed)
        (submit_lem accepts j Cmd.hello b on_connect pending (codes "Connect...")
          (codes "Connect failed.") _ ne (omega arith))

  pressed :
      (k : Toolkit) (address : Buffer) (d : Desktop k)
      → k.get_value d.frame.address_field ≡ address
      → address ≢ []
      → Connects (answers (split address).0 (split address).1)
      → is_connected d.app.client.conn.status ≡ false
      → d.app.client.joinable ≡ false
      → press j accepts answers drawn k connect_button d
        ≡ (returns, settle k (greeted address (record d.app { outputs = [] })) d.frame)
  unfolding press on_connect_event ask input_handler
  pressed k address d shown nonempty h idle free =
      rw (shown, is_empty_ne address nonempty)
        (ap (λ (r : End × App). (r.0, settle k r.1 d.frame))
          (on_connect_frame_callback-Connects address (record d.app { outputs = [] }) h idle free))

  greeted-outputs :
      (address : Buffer) (a : App)
      → let answer = answers (split address).0 (split address).1 in
        Connects answer
        → is_connected a.client.conn.status ≡ false
        → a.client.joinable ≡ false
        → a.handled on_connect ≡ true
        → a.outputs ≡ []
        → accepts answer.socket (create_packet Cmd.hello b) ≡ true
        → ((greeted address a).outputs
            ≡ record {
              action = on_connect;
              status = pending;
              msg = codes "Connect...";
              data_text = [];
            }
              ∷ [])
          × ((greeted address a).client.conn.status ≡ connected)
          × ((greeted address a).handled ≡ a.handled)
  unfolding output_handler
  greeted-outputs address a h idle free handled silent taken =
      let made =
        connect-Connects (answers (split address).0 (split address).1) a.client h idle free in
      rw (made.2, taken, handled, silent) (refl, made.1, refl)

module _ (k : Toolkit) (toolkit : ToolkitLaws k) where
  first_pending : (button : Button) → can_press button (react on_connect pending first_view) ≡ false
  unfolding react
  first_pending connect_button = refl
  first_pending disconnect_button = refl
  first_pending login_button = refl
  first_pending logout_button = refl
  first_pending send_button = refl

  -- A reply to the greeting.
  view-reply :
      (d : Desktop k) (cookies : Cookies) (response : Server.HelloResponse)
      → d.app.handled on_connect ≡ true
      → view k (receive k (server_hello_reply_packet_handler cookies response) d).frame
        ≡ react on_connect success (view k d.frame)
  unfolding receive server_hello_reply_packet_handler output_handler
  view-reply d cookies response handled = rw handled (view-show_outputs k toolkit _ d.frame)

  -- Under the laws of wxWidgets: in a window whose controls look as at the start, whose address is not
  -- empty, and which has given its output handler for connecting, the connect button is pressed; the
  -- client is not connected and has no thread, the system makes the connection, and the greeting is
  -- packed, not empty and taken. Then the client is connected, and no button of the window can be
  -- pressed. When the reply to the greeting comes, the buttons for disconnecting and for the login can
  -- be pressed.
  pub connect_waits :
      (j : Json) (accepts : ℕ → Buffer → Bool) (answers : Buffer → Buffer → ConnectAnswers)
      (drawn : ℕ) (address b : Buffer) (d : Desktop k) (cookies : Cookies)
      (response : Server.HelloResponse)
      → let answer = answers (split address).0 (split address).1 in
        view k d.frame ≡ first_view
        → k.get_value d.frame.address_field ≡ address
        → address ≢ []
        → Connects answer
        → is_connected d.app.client.conn.status ≡ false
        → d.app.client.joinable ≡ false
        → d.app.handled on_connect ≡ true
        → to j (hello_request drawn) ≡ some b
        → b ≢ []
        → accepts answer.socket (create_packet Cmd.hello b) ≡ true
        → let waiting = (press j accepts answers drawn k connect_button d).1 in
          let replied = receive k (server_hello_reply_packet_handler cookies response) waiting in
          (waiting.app.client.conn.status ≡ connected)
          × ((button : Button) → can_press button (view k waiting.frame) ≡ false)
          × (can_press disconnect_button (view k replied.frame) ≡ true)
          × (can_press login_button (view k replied.frame) ≡ true)
  unfolding react
  connect_waits j accepts answers drawn address b d cookies response first shown nonempty h idle
        free handled packed ne taken =
      rw (pressed j accepts answers drawn b packed ne k address d shown nonempty h idle free) (
        told.1,
        λ button. ap (can_press button) look ∙ first_pending button,
        ap (can_press disconnect_button) replied,
        ap (can_press login_button) replied,
      )
    where
      calm : App
      calm = record d.app { outputs = [] }

      after : App
      after = greeted j accepts answers drawn b packed ne address calm

      told :
          (after.outputs
            ≡ record {
              action = on_connect;
              status = pending;
              msg = codes "Connect...";
              data_text = [];
            }
              ∷ [])
          × (after.client.conn.status ≡ connected)
          × (after.handled ≡ d.app.handled)
      told =
          greeted-outputs j accepts answers drawn b packed ne address calm h idle free handled refl
            taken

      waiting : Desktop k
      waiting = settle k after d.frame

      look : view k waiting.frame ≡ react on_connect pending first_view
      look =
          view-show_outputs k toolkit after.outputs d.frame
          ∙ ap (λ os. react_all os (view k d.frame)) told.0
          ∙ ap (react on_connect pending) first

      replied :
          view k (receive k (server_hello_reply_packet_handler cookies response) waiting).frame
          ≡ react on_connect success (react on_connect pending first_view)
      replied =
          view-reply waiting cookies response
            (ap (λ (f : UiAction → Bool). f on_connect) told.2 ∙ handled)
          ∙ ap (react on_connect success) look
