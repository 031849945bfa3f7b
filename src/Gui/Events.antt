-- ===== src/Gui/Events.antt =====
-- What the client application remembers over any sequence of events.
use gologincase.Common.{
  ℕ, ◌≡◌, ◌≢◌, refl, ap, sym, ◌∙◌, Bool, false, List, [], ◌∷◌, Option, none, some, Buffer, codes,
  str_eq_ne, arith,
}
use gologincase.Messages.Json.{Json, to}
use gologincase.Messages.Commands as Cmd
use gologincase.Messages.Client
use gologincase.Messages.Server
use gologincase.Provider.{Cookies}
use gologincase.Messages.Client.{client_auth_request_message, client_hello_request_message}
use gologincase.Gui.Requests.{auth_request}
use gologincase.Tcp.Client.{ConnectAnswers}
use gologincase.Gui.{
  App, Cookie, on_login, on_recv, success, failed, UiAction, UiStatus, output_handler, split,
  submit, reply_output, on_login_frame_callback, on_logout_frame_callback,
  on_connect_frame_callback, on_disconnect_frame_callback, on_send_frame_callback,
  server_message_packet_handler, server_message_reply_packet_handler,
  server_hello_reply_packet_handler, server_auth_reply_packet_handler,
  server_bye_reply_packet_handler, server_ping_reply_packet_handler,
}

-- A callback of the window, or a handler of a packet of the server.
pub data Event : Type 0 where
  logs_in : Buffer → Event
  logs_out : Event
  connects : (Buffer → Buffer → ConnectAnswers) → ℕ → Buffer → Event
  disconnects : Event
  says : Buffer → Event
  message : Server.MsgRequest → Client.MsgResponse → Event
  message_reply : Server.MsgResponse → Event
  hello_reply : Server.HelloResponse → Event
  auth_reply : Server.AuthResponse → Event
  bye_reply : Server.ByeResponse → Event
  ping_reply : Server.PingResponse → Event

module _ (j : Json) (accepts : ℕ → Buffer → Bool) (cookies : Cookies) where
  unfoldable pub step : App → Event → App
  step a (logs_in text) = (on_login_frame_callback j accepts text a).1
  step a logs_out = (on_logout_frame_callback j accepts a).1
  step a (connects answers drawn text) =
      (on_connect_frame_callback j accepts answers drawn text a).1
  step a disconnects = on_disconnect_frame_callback a
  step a (says text) = (on_send_frame_callback j accepts text a).1
  step a (message request response) = (server_message_packet_handler cookies request response a).1
  step a (message_reply response) = server_message_reply_packet_handler cookies response a
  step a (hello_reply response) = server_hello_reply_packet_handler cookies response a
  step a (auth_reply response) = server_auth_reply_packet_handler cookies response a
  step a (bye_reply response) = server_bye_reply_packet_handler cookies response a
  step a (ping_reply response) = server_ping_reply_packet_handler cookies response a

  unfoldable pub run : App → List Event → App
  run a [] = a
  run a (e ∷ es) = run (step a e) es

-- The session of the last reply to a login, and `s` if there was none.
abbrev pub session_after : Buffer → List Event → Buffer
session_after s [] = s
session_after s (auth_reply response ∷ es) = session_after response.session es
session_after s (_ ∷ es) = session_after s es

output_handler-cookie :
    (act : UiAction) (st : UiStatus) (msg text : Buffer) (a : App)
    → (output_handler act st msg text a).cookie ≡ a.cookie
unfolding output_handler
output_handler-cookie act st msg text a = ground arith

reply_output-cookie :
    (status : Buffer) (act : UiAction) (good : UiStatus) (text bad : Buffer) (a : App)
    → (reply_output status act good text bad a).cookie ≡ a.cookie
unfolding reply_output output_handler
reply_output-cookie status act good text bad a = ground arith

submit-cookie :
    (j : Json) (accepts : ℕ → Buffer → Bool) (cmd : Buffer) (packed : Option Buffer)
    (act : UiAction) (good : UiStatus) (text bad : Buffer) (a : App)
    → (submit j accepts cmd packed act good text bad a).1.cookie ≡ a.cookie
unfolding submit output_handler
submit-cookie j accepts cmd none act good text bad a = refl
submit-cookie j accepts cmd (some b) act good text bad a = ground arith

module _ (j : Json) (accepts : ℕ → Buffer → Bool) (cookies : Cookies) where
  -- What an event makes of the login and the session.
  abbrev Keeps : App → Event → Type 0
  Keeps a e =
      ((step j accepts cookies a e).cookie.client_login ≡ a.cookie.client_login)
      × ((step j accepts cookies a e).cookie.client_session
          ≡ session_after a.cookie.client_session (e ∷ []))

  login-cookie :
      (text : Buffer) (a : App) → (on_login_frame_callback j accepts text a).1.cookie ≡ a.cookie
  unfolding on_login_frame_callback
  login-cookie text a = ground (
    arith,
    output_handler-cookie on_login failed (codes "Invalid user or pass.") [] a,
    submit-cookie j accepts Cmd.auth (to j (auth_request a (split text).0 (split text).1)) on_login
        success (codes "Login...") (codes "Login failed.") a,
  )

  connect-cookie :
      (answers : Buffer → Buffer → ConnectAnswers) (drawn : ℕ) (text : Buffer) (a : App)
      → let b = (on_connect_frame_callback j accepts answers drawn text a).1 in
        (b.cookie.client_login ≡ a.cookie.client_login)
        × (b.cookie.client_session ≡ a.cookie.client_session)
  unfolding on_connect_frame_callback submit output_handler
  connect-cookie answers drawn text a = ground arith

  same :
      (b a : App)
      → b.cookie ≡ a.cookie
      → (b.cookie.client_login ≡ a.cookie.client_login)
        × (b.cookie.client_session ≡ a.cookie.client_session)
  same b a e = (ap (λ (c : Cookie). c.client_login) e, ap (λ (c : Cookie). c.client_session) e)

  step-Keeps : (a : App) (e : Event) → Keeps a e
  unfolding step on_logout_frame_callback on_disconnect_frame_callback on_send_frame_callback
      server_message_packet_handler server_message_reply_packet_handler
      server_hello_reply_packet_handler server_auth_reply_packet_handler
      server_bye_reply_packet_handler server_ping_reply_packet_handler output_handler reply_output
  step-Keeps a (logs_in text) =
      same (step j accepts cookies a (logs_in text)) a (login-cookie text a)
  step-Keeps a logs_out =
      same (step j accepts cookies a logs_out) a (submit-cookie j accepts _ _ _ _ _ _ a)
  step-Keeps a (connects answers drawn text) = connect-cookie answers drawn text a
  step-Keeps a disconnects = ground arith
  step-Keeps a (says text) =
      same (step j accepts cookies a (says text)) a (submit-cookie j accepts _ _ _ _ _ _ a)
  step-Keeps a (message request response) = ground arith
  step-Keeps a (message_reply response) = ground arith
  step-Keeps a (hello_reply response) = ground arith
  step-Keeps a (auth_reply response) = ground arith
  step-Keeps a (bye_reply response) = ground arith
  step-Keeps a (ping_reply response) = ground arith

  session_after-cons :
      (s : Buffer) (e : Event) (es : List Event)
      → session_after s (e ∷ es) ≡ session_after (session_after s (e ∷ [])) es
  session_after-cons s (logs_in text) es = refl
  session_after-cons s logs_out es = refl
  session_after-cons s (connects answers drawn text) es = refl
  session_after-cons s disconnects es = refl
  session_after-cons s (says text) es = refl
  session_after-cons s (message request response) es = refl
  session_after-cons s (message_reply response) es = refl
  session_after-cons s (hello_reply response) es = refl
  session_after-cons s (auth_reply response) es = refl
  session_after-cons s (bye_reply response) es = refl
  session_after-cons s (ping_reply response) es = refl

  -- No event changes the login that the client compares a sender's with, and the session is that of
  -- the last reply to a login, also of one that refused it.
  pub run-cookie :
      (a : App) (es : List Event)
      → ((run j accepts cookies a es).cookie.client_login ≡ a.cookie.client_login)
        × ((run j accepts cookies a es).cookie.client_session
            ≡ session_after a.cookie.client_session es)
  unfolding run
  run-cookie a [] = (refl, refl)
  run-cookie a (e ∷ es) =
      let kept = step-Keeps a e in
      let rest = run-cookie (step j accepts cookies a e) es in
      (
        rest.0 ∙ kept.0,
        rest.1
            ∙ ap (λ s. session_after s es) kept.1
            ∙ sym (session_after-cons a.cookie.client_session e es),
      )

  -- After any events on a client that starts with an empty login, as a new one does, every message of
  -- a sender whose login is not empty is shown in the window, if it has a handler for that, and its
  -- response has the status `failed`.
  pub message_refused :
      (a : App) (es : List Event) (request : Server.MsgRequest) (response : Client.MsgResponse)
      → a.cookie.client_login ≡ []
      → request.sender_login ≢ []
      → let now = run j accepts cookies a es in
        let (answer, next, raised) = server_message_packet_handler cookies request response now in
        (answer.status ≡ codes "failed")
        × (next ≡ output_handler on_recv success request.sender_login request.body now)
        × (raised ≡ false)
  unfolding server_message_packet_handler
  message_refused a es request response empty named = ground (
    arith,
    str_eq_ne request.sender_login (run j accepts cookies a es).cookie.client_login
        (λ e. named (e ∙ (run-cookie a es).0 ∙ empty)),
  )
