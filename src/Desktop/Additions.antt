-- ===== src/Desktop/Additions.antt =====
-- What the callbacks of the window and the handlers of the replies add to the window's output field.
use gologincase.Common.{
  ℕ, ◌≡◌, refl, ap, sym, ◌∙◌, Bool, true, [], ◌∷◌, ◌++◌, Option, none, some, Buffer, codes, arith,
}
use mathlib.Core.List.{append-nil}
use gologincase.Messages.Json.{Json, to}
use gologincase.Messages.Commands as Cmd
use gologincase.Messages.Client.{
  client_auth_request_message, client_hello_request_message, client_msg_response_message,
}
use gologincase.Provider.{Cookies}
use gologincase.Tcp.{is_connected, send}
use gologincase.Tcp.Client as Tcp
use gologincase.Tcp.Client.{ConnectAnswers, connect, start_thread, disconnect}
use gologincase.Gui.{
  App, End, UiAction, on_login, on_logout, on_connect, on_disconnect, on_send, on_recv, UiStatus,
  success, failed, pending, output_handler, split, submit, reply_output, on_login_frame_callback,
  on_logout_frame_callback, on_connect_frame_callback, on_disconnect_frame_callback,
  on_send_frame_callback, server_message_packet_handler, server_message_reply_packet_handler,
  server_hello_reply_packet_handler, server_auth_reply_packet_handler,
  server_bye_reply_packet_handler, server_ping_reply_packet_handler,
}
use gologincase.Gui.Requests.{auth_request}
use gologincase.Gui.Replies.{Reply, says, said, greeted, logged_in, logged_out, pinged, perform}
use gologincase.Frame.{Toolkit}
use gologincase.Frame.Transcript.{line, added, transcript, transcript-append}
use gologincase.Desktop.Waiting.{hello_request}
use gologincase.Desktop.Events.{conversation, goes_on, replied}

-- The client has a thread exactly while it is connected.
abbrev pub Joins : App → Type 0
Joins a = a.client.joinable ≡ is_connected a.client.conn.status

-- What a callback or a handler adds to the output field, and what it keeps.
abbrev pub Adds : App → Buffer → App → Type 0
Adds a t b =
    (b.handled ≡ a.handled)
    × (transcript b.outputs ≡ transcript a.outputs ++ t)
    × (Joins a → Joins b)

-- No output of an action adds anything.
abbrev IsQuiet : UiAction → Type 0
IsQuiet act = (st : UiStatus) (msg text : Buffer) → added act st msg text ≡ []

output_handler-Adds :
    (act : UiAction) (st : UiStatus) (msg text : Buffer) (a : App)
    → a.handled act ≡ true
    → Adds a (added act st msg text) (output_handler act st msg text a)
unfolding output_handler
output_handler-Adds act st msg text a handled = rw handled (
  refl,
  transcript-append a.outputs
        (record { action = act; status = st; msg = msg; data_text = text } ∷ [])
      ∙ ap (λ t. transcript a.outputs ++ t) (append-nil (added act st msg text)),
  (λ h. h),
)

output_handler-IsQuiet :
    (act : UiAction) (st : UiStatus) (msg text : Buffer) (a : App)
    → IsQuiet act
    → Adds a [] (output_handler act st msg text a)
unfolding output_handler
output_handler-IsQuiet act st msg text a quiet = ground (
  arith,
  transcript-append a.outputs
      (record { action = act; status = st; msg = msg; data_text = text } ∷ []),
  append-nil (transcript a.outputs),
  quiet st msg text,
)

Adds-refl : (a : App) → Adds a [] a
Adds-refl a = (refl, sym (append-nil (transcript a.outputs)), λ h. h)

-- A callback that adds nothing.
abbrev pub Silent : End × App → App → Type 0
Silent r a = (Joins a → goes_on r.0 ≡ true) × Adds a [] r.1

submit-Silent :
    (j : Json) (accepts : ℕ → Buffer → Bool) (cmd : Buffer) (packed : Option Buffer)
    (act : UiAction) (good : UiStatus) (text bad : Buffer) (a : App)
    → IsQuiet act
    → Silent (submit j accepts cmd packed act good text bad a) a
unfolding submit
submit-Silent j accepts cmd none act good text bad a quiet = ((λ h. refl), Adds-refl a)
submit-Silent j accepts cmd (some b) act good text bad a quiet =
    let calls = (send accepts a.client.conn cmd b).1 in
    let after : App = record a { client = record a.client { trace = a.client.trace ++ calls } } in
    ground (
      arith,
      output_handler-IsQuiet act good text [] after quiet,
      output_handler-IsQuiet act failed bad [] after quiet,
    )

reply_output-IsQuiet :
    (status : Buffer) (act : UiAction) (good : UiStatus) (text bad : Buffer) (a : App)
    → IsQuiet act
    → Adds a [] (reply_output status act good text bad a)
unfolding reply_output
reply_output-IsQuiet status act good text bad a quiet = ground (
  arith,
  output_handler-IsQuiet act good text [] a quiet,
  output_handler-IsQuiet act failed bad [] a quiet,
)

connect-Joins :
    (answers : ConnectAnswers) (c : Tcp.Client)
    → c.joinable ≡ is_connected c.conn.status
    → ((connect answers c).1 ≡ true)
      × ((connect answers c).0.joinable ≡ is_connected (connect answers c).0.conn.status)
unfolding connect start_thread
connect-Joins answers c h = ground arith

pub perform-Adds :
    (k : Toolkit) (c : Cookies) (r : Reply) (a : App)
    → a.handled on_recv ≡ true
    → Adds a (conversation {k = k} (replied c r ∷ [])) (perform c r a)
unfolding server_message_packet_handler server_message_reply_packet_handler
    server_hello_reply_packet_handler server_auth_reply_packet_handler
    server_bye_reply_packet_handler server_ping_reply_packet_handler
perform-Adds k c (says r) a handled = ground (
  arith,
  output_handler-Adds on_recv success r.sender_login r.body a handled,
  append-nil (line r.sender_login r.body),
)
perform-Adds k c (said r) a handled =
    reply_output-IsQuiet r.status on_send success (codes "Message was sended.") r.message a
      (λ st m t. refl)
perform-Adds k c (greeted r) a handled =
    output_handler-IsQuiet on_connect success (codes "Connection has been established.") [] a
      (λ st m t. refl)
perform-Adds k c (logged_in r) a handled =
    reply_output-IsQuiet r.status on_login success (codes "Login success.") r.message
      (record a { cookie = record a.cookie { client_session = r.session } }) (λ st m t. refl)
perform-Adds k c (logged_out r) a handled =
    reply_output-IsQuiet r.status on_logout pending (codes "Logout success.")
      (codes "Logout failed.") a (λ st m t. refl)
perform-Adds k c (pinged r) a handled =
    reply_output-IsQuiet r.status on_login success (codes "Ping success.") r.message a
      (λ st m t. refl)

pub disconnect-Adds : (a : App) → Adds a [] (on_disconnect_frame_callback a)
unfolding on_disconnect_frame_callback disconnect
disconnect-Adds a =
    let after : App = record a { client = disconnect a.client } in
    ground (
      arith,
      output_handler-IsQuiet on_disconnect success (codes "Disconnected.") [] after
          (λ st m t. refl),
      output_handler-IsQuiet on_disconnect failed (codes "Disconnection from server failed.") []
          after (λ st m t. refl),
    )

module _ (j : Json) (accepts : ℕ → Buffer → Bool) where
  pub login-Silent : (text : Buffer) (a : App) → Silent (on_login_frame_callback j accepts text a) a
  unfolding on_login_frame_callback
  login-Silent text a = ground (
    arith,
    output_handler-IsQuiet on_login failed (codes "Invalid user or pass.") [] a (λ st m t. refl),
    submit-Silent j accepts Cmd.auth (to j (auth_request a (split text).0 (split text).1)) on_login
        success (codes "Login...") (codes "Login failed.") a (λ st m t. refl),
  )

  pub logout-Silent : (a : App) → Silent (on_logout_frame_callback j accepts a) a
  unfolding on_logout_frame_callback
  logout-Silent a = submit-Silent j accepts Cmd.bye _ on_logout success _ _ a (λ st m t. refl)

  pub send-Silent : (text : Buffer) (a : App) → Silent (on_send_frame_callback j accepts text a) a
  unfolding on_send_frame_callback
  send-Silent text a = submit-Silent j accepts Cmd.msg _ on_send pending _ _ a (λ st m t. refl)

  pub connect-Silent :
      (answers : Buffer → Buffer → ConnectAnswers) (drawn : ℕ) (text : Buffer) (a : App)
      → Silent (on_connect_frame_callback j accepts answers drawn text a) a
  unfolding on_connect_frame_callback
  connect-Silent answers drawn text a =
      let (host, port) = split text in
      let made : App = record a { client = (connect (answers host port) a.client).0 } in
      let named : App = record made { cookie = record a.cookie { client_id = drawn } } in
      ground (
        arith,
        connect-Joins (answers host port) a.client,
        Adds-refl a,
        output_handler-IsQuiet on_connect failed (codes "Connect to server failed.") [] made
            (λ st m t. refl),
        submit-Silent j accepts Cmd.hello (to j (hello_request drawn)) on_connect pending
            (codes "Connect...") (codes "Connect failed.") named (λ st m t. refl),
      )
