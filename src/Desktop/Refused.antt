-- ===== src/Desktop/Refused.antt =====
-- A login that the server refuses, as the window shows it.
use gologincase.Common.{
  ℕ, ◌<◌, ◌^◌, ◌≡◌, ◌≢◌, refl, ap, ◌∙◌, Bool, true, false, [], ◌∷◌, ◌++◌, none, some, Buffer, codes,
  is_empty, str_eq_ne, arith,
}
use gologincase.Packet.{create_packet}
use gologincase.Messages.Json.{Json, JsonLaws, to}
use gologincase.Messages.Commands as Cmd
use gologincase.Messages.Client.{client_auth_request_message}
use gologincase.Messages.Server
use gologincase.Provider.{Cookies}
use gologincase.Tcp.Client.{ConnectAnswers}
use gologincase.Gui.{
  App, End, returns, Output, UiAction, on_login, success, failed, output_handler, reply_output,
  find_colon, server_auth_reply_packet_handler,
}
use gologincase.Gui.Requests.{told, auth_request, on_login_frame_callback-sends}
use gologincase.Frame.{
  Toolkit, ToolkitLaws, Frame, on_login_event, output_handlers, on_login_output,
}
use gologincase.Frame.View.{View, view, react}
use gologincase.Frame.Outputs.{react_all, show_outputs, view-show_outputs}
use gologincase.Desktop.{Desktop, login_button, settle, receive, input_handler, ask, press}

is_empty-append : (s t : Buffer) (c : ℕ) → is_empty (s ++ c ∷ t) ≡ false
is_empty-append [] t c = refl
is_empty-append (b ∷ s) t c = refl

module _ (k : Toolkit) (toolkit : ToolkitLaws k) (j : Json) (is_utf8 : Buffer → Bool)
    (laws : JsonLaws j is_utf8) (accepts : ℕ → Buffer → Bool)
    (answers : Buffer → Buffer → ConnectAnswers) (drawn : ℕ) (d : Desktop k)
    (fit : d.app.cookie.client_id < 2 ^ 64) where
  abbrev quiet : App
  quiet = record d.app { outputs = [] }

  pressed :
      (login pass b : Buffer)
      → k.get_value d.frame.login_field ≡ login ++ 58 ∷ pass
      → find_colon login ≡ none
      → login ≢ []
      → pass ≢ []
      → to j (auth_request d.app login pass) ≡ some b
      → press j accepts answers drawn k login_button d ≡ (
        returns,
        settle k
            (told accepts Cmd.auth b on_login success
              (codes "Login...")
              (codes "Login failed.")
              quiet)
            d.frame,
      )
  unfolding press on_login_event ask input_handler to
  pressed login pass b shown no_colon named secret packed =
      rw (shown, is_empty-append login pass 58)
        (ap (λ (r : End × App). (r.0, settle k r.1 d.frame))
          (on_login_frame_callback-sends j is_utf8 laws accepts quiet fit login pass b no_colon
            named secret packed
            (laws.dump_nonempty
              (client_auth_request_message.members (auth_request d.app login pass)) b packed)))

  -- The view after one output.
  view-settle :
      (a : App) (o : Output) (f : Frame k)
      → a.outputs ≡ o ∷ []
      → view k (settle k a f).frame ≡ react o.action o.status (view k f)
  view-settle a o f e =
      view-show_outputs k toolkit a.outputs f ∙ ap (λ os. react_all os (view k f)) e

  -- The output of a login that is under way.
  abbrev pending_login : Output
  pending_login = record {
    action = on_login;
    status = success;
    msg = codes "Login...";
    data_text = [];
  }

  told-outputs :
      (b : Buffer)
      → d.app.handled on_login ≡ true
      → accepts d.app.client.conn.socket (create_packet Cmd.auth b) ≡ true
      → (told accepts Cmd.auth b on_login success
          (codes "Login...")
          (codes "Login failed.")
          quiet).outputs
        ≡ pending_login ∷ []
  unfolding output_handler
  told-outputs b h taken = ground arith

  told-handled :
      (b : Buffer)
      → (told accepts Cmd.auth b on_login success
          (codes "Login...")
          (codes "Login failed.")
          quiet).handled
        ≡ d.app.handled
  unfolding output_handler
  told-handled b = ground arith

module _ (k : Toolkit) (toolkit : ToolkitLaws k) (cookies : Cookies) (d : Desktop k)
    (handled : d.app.handled on_login ≡ true) (response : Server.AuthResponse)
    (refused : response.status ≢ codes "ok") where
  -- A reply that refuses a login.
  reply-refused : receive k (server_auth_reply_packet_handler cookies response) d ≡ record {
    app = record d.app {
      cookie = record d.app.cookie { client_session = response.session };
      outputs =
          record { action = on_login; status = failed; msg = response.message; data_text = [] }
          ∷ [];
    };
    frame = record d.frame { status_bar = response.message };
  }
  unfolding receive server_auth_reply_packet_handler reply_output output_handler show_outputs
      output_handlers on_login_output
  reply-refused = rw (str_eq_ne response.status (codes "ok") refused, handled) refl

module _ (k : Toolkit) (toolkit : ToolkitLaws k) (j : Json) (is_utf8 : Buffer → Bool)
    (laws : JsonLaws j is_utf8) (accepts : ℕ → Buffer → Bool)
    (answers : Buffer → Buffer → ConnectAnswers) (drawn : ℕ) (d : Desktop k)
    (fit : d.app.cookie.client_id < 2 ^ 64) where
  -- Under the laws of the JSON library and of wxWidgets, with a number of the client that fits 64 bits
  -- and a window that has given its output handler for logins: when a login and a password, neither of them
  -- empty and the login without a colon, stand in the login field, can be packed and are taken by the
  -- system, then pressing the login button already shows the logout button in place of the login
  -- button and enables the button that sends. A reply that refuses the login changes nothing of the
  -- window but the status bar, which gets its message, nothing of the application's cookie but the
  -- session, which its session replaces, and nothing of its client.
  pub login_refused :
      (login pass b : Buffer) (cookies : Cookies) (response : Server.AuthResponse)
      → d.app.handled on_login ≡ true
      → k.get_value d.frame.login_field ≡ login ++ 58 ∷ pass
      → find_colon login ≡ none
      → login ≢ []
      → pass ≢ []
      → to j (auth_request d.app login pass) ≡ some b
      → accepts d.app.client.conn.socket (create_packet Cmd.auth b) ≡ true
      → response.status ≢ codes "ok"
      → let sent = (press j accepts answers drawn k login_button d).1 in
        let after = receive k (server_auth_reply_packet_handler cookies response) sent in
        let v = view k after.frame in
        (after.frame ≡ record sent.frame { status_bar = response.message })
        × (after.app.client ≡ sent.app.client)
        × (after.app.cookie ≡ record sent.app.cookie { client_session = response.session })
        × (v.send_enabled ≡ true)
        × (v.input_enabled ≡ true)
        × (v.login_shown ≡ false)
        × (v.logout_shown ≡ true)
  unfolding react
  login_refused login pass b cookies response handled shown no_colon named secret packed taken
        refused =
      rw
        (
          pressed k toolkit j is_utf8 laws accepts answers drawn d fit login pass b shown no_colon
              named secret packed,
          reply-refused k toolkit cookies sent
              (ap (λ (h : UiAction → Bool). h on_login)
                  (told-handled k toolkit j is_utf8 laws accepts answers drawn d fit b)
                ∙ handled)
              response refused,
        )
        (
          refl,
          refl,
          refl,
          ap (λ (v : View). v.send_enabled) look,
          ap (λ (v : View). v.input_enabled) look,
          ap (λ (v : View). v.login_shown) look,
          ap (λ (v : View). v.logout_shown) look,
        )
    where
      under_way : App
      under_way =
          told accepts Cmd.auth b on_login success (codes "Login...") (codes "Login failed.")
            (record d.app { outputs = [] })

      sent : Desktop k
      sent = settle k under_way d.frame

      look : view k sent.frame ≡ react on_login success (view k d.frame)
      look =
          view-settle k toolkit j is_utf8 laws accepts answers drawn d fit under_way
            (pending_login k toolkit j is_utf8 laws accepts answers drawn d fit) d.frame
            (told-outputs k toolkit j is_utf8 laws accepts answers drawn d fit b handled taken)
