-- ===== src/Desktop/Conversation.antt =====
-- What the window's output field holds after any events on the client program.
use gologincase.Common.{ℕ, ◌≡◌, refl, ap, sym, ◌∙◌, Bool, true, List, [], ◌∷◌, ◌++◌, Buffer, arith}
use mathlib.Core.List.{append_assoc, append-nil}
use gologincase.Messages.Json.{Json}
use gologincase.Messages.Client.{
  client_auth_request_message, client_hello_request_message, client_msg_response_message,
}
use gologincase.Tcp.Client as Tcp
use gologincase.Tcp.Client.{ConnectAnswers, connect, start_thread, disconnect}
use gologincase.Gui.{
  App, End, returns, UiAction, on_login, on_logout, on_connect, on_disconnect, on_send, on_recv,
  on_login_frame_callback, on_logout_frame_callback, on_connect_frame_callback,
  on_disconnect_frame_callback, on_send_frame_callback,
}
use gologincase.Gui.Replies.{says, said, greeted, logged_in, logged_out, pinged, perform}
use gologincase.Frame.{
  Toolkit, ToolkitLaws, load_ui, on_connect_event, on_disconnect_event, on_login_event,
  on_logout_event, on_send_event,
}
use gologincase.Frame.Transcript.{show_outputs-transcript}
use gologincase.Desktop.{
  Desktop, Button, connect_button, disconnect_button, login_button, logout_button, send_button,
  create, settle, receive, create_frame, input_handler, ask, press,
}
use gologincase.Desktop.Events.{Event, pressed, edited, replied, conversation, goes_on, step, run}
use gologincase.Desktop.Additions.{
  Joins, Adds, Silent, perform-Adds, login-Silent, logout-Silent, send-Silent, connect-Silent,
  disconnect-Adds,
}

module _ (j : Json) (accepts : ℕ → Buffer → Bool) (k : Toolkit) (laws : ToolkitLaws k) where
  -- The application has the window's output handler for messages, and its thread.
  abbrev Inv : Desktop k → Type 0
  Inv d = (d.app.handled on_recv ≡ true) × Joins d.app

  -- After an event the program is there, and its output field has grown by a text.
  abbrev Shows : Desktop k → Buffer → End × Desktop k → Type 0
  Shows d t r =
      (goes_on r.0 ≡ true)
      × Inv r.1
      × (k.get_value r.1.frame.output_field ≡ k.get_value d.frame.output_field ++ t)

  settle-Shows :
      (d : Desktop k) (t : Buffer) (end : End) (b : App)
      → Inv d
      → goes_on end ≡ true
      → Adds (record d.app { outputs = [] }) t b
      → Shows d t (end, settle k b d.frame)
  settle-Shows d t end b v on (handled, heard, joins) = (
    on,
    (ap (λ h. h on_recv) handled ∙ v.0, joins v.1),
    show_outputs-transcript k laws b.outputs d.frame
        ∙ ap (λ x. k.get_value d.frame.output_field ++ x) heard,
  )

  settle-Silent :
      (d : Desktop k) (f : App → End × App)
      → Inv d
      → ((a : App) → Silent (f a) a)
      → let r = f (record d.app { outputs = [] }) in Shows d [] (r.0, settle k r.1 d.frame)
  settle-Silent d f v h =
      let a : App = record d.app { outputs = [] } in
      settle-Shows d [] (f a).0 (f a).1 v ((h a).0 v.1) (h a).1

  module _ (answers : Buffer → Buffer → ConnectAnswers) (drawn : ℕ) where
    input_handler-Shows :
        (act : UiAction) (text : Buffer) (d : Desktop k)
        → Inv d
        → Shows d [] (input_handler j accepts answers drawn k act text d)
    unfolding input_handler create_frame
    input_handler-Shows on_login text d v =
        settle-Silent d (on_login_frame_callback j accepts text) v (login-Silent j accepts text)
    input_handler-Shows on_logout text d v =
        settle-Silent d (on_logout_frame_callback j accepts) v (logout-Silent j accepts)
    input_handler-Shows on_connect text d v =
        settle-Silent d (on_connect_frame_callback j accepts answers drawn text) v
          (connect-Silent j accepts answers drawn text)
    input_handler-Shows on_disconnect text d v =
        settle-Silent d (λ a. (returns, on_disconnect_frame_callback a)) v
          (λ a. ((λ h. refl), disconnect-Adds a))
    input_handler-Shows on_send text d v =
        settle-Silent d (on_send_frame_callback j accepts text) v (send-Silent j accepts text)
    input_handler-Shows on_recv text d v =
        (refl, v, sym (append-nil (k.get_value d.frame.output_field)))

    press-Shows :
        (button : Button) (d : Desktop k)
        → Inv d
        → Shows d [] (press j accepts answers drawn k button d)
    unfolding press ask on_connect_event on_disconnect_event on_login_event on_logout_event
        on_send_event
    press-Shows connect_button d v = ground (
      arith,
      input_handler-Shows on_connect (k.get_value d.frame.address_field) d v,
      append-nil (k.get_value d.frame.output_field),
    )
    press-Shows disconnect_button d v = input_handler-Shows on_disconnect [] d v
    press-Shows login_button d v = ground (
      arith,
      input_handler-Shows on_login (k.get_value d.frame.login_field) d v,
      append-nil (k.get_value d.frame.output_field),
    )
    press-Shows logout_button d v = input_handler-Shows on_logout [] d v
    press-Shows send_button d v = ground (
      arith,
      input_handler-Shows on_send (k.get_value d.frame.input_field) d v,
      append-nil (k.get_value d.frame.output_field),
    )

  step-Shows :
      (e : Event k) (d : Desktop k) → Inv d → Shows d (conversation (e ∷ [])) (step j accepts k e d)
  unfolding step receive
  step-Shows (pressed answers drawn button) d v = press-Shows answers drawn button d v
  step-Shows (edited address login input) d v =
      (refl, v, sym (append-nil (k.get_value d.frame.output_field)))
  step-Shows (replied c r) d v =
      settle-Shows d (conversation {k = k} (replied c r ∷ [])) returns
        (perform c r (record d.app { outputs = [] })) v refl
        (perform-Adds k c r (record d.app { outputs = [] }) v.0)

  conversation-cons :
      (e : Event k) (es : List (Event k))
      → conversation (e ∷ []) ++ conversation es ≡ conversation (e ∷ es)
  conversation-cons (pressed answers drawn button) es = refl
  conversation-cons (edited address login input) es = refl
  conversation-cons (replied c (says r)) es = ap (λ t. t ++ conversation es) (append-nil _)
  conversation-cons (replied c (said r)) es = refl
  conversation-cons (replied c (greeted r)) es = refl
  conversation-cons (replied c (logged_in r)) es = refl
  conversation-cons (replied c (logged_out r)) es = refl
  conversation-cons (replied c (pinged r)) es = refl

  run-conversation :
      (es : List (Event k)) (d : Desktop k)
      → Inv d
      → let (after, there) = run j accepts k es d in
        (there ≡ true)
        × (k.get_value after.frame.output_field
            ≡ k.get_value d.frame.output_field ++ conversation es)
  unfolding run
  run-conversation [] d v = (refl, sym (append-nil (k.get_value d.frame.output_field)))
  run-conversation (e ∷ es) d v =
      let (on, kept, grown) = step-Shows e d v in
      let (there, shown) = run-conversation es (step j accepts k e d).1 kept in
      rw on (
        there,
        shown
            ∙ ap (λ t. t ++ conversation es) grown
            ∙ append_assoc (k.get_value d.frame.output_field) (conversation (e ∷ []))
                (conversation es)
            ∙ ap (λ t. k.get_value d.frame.output_field ++ t) (conversation-cons e es),
      )

  -- Under the laws of wxWidgets: after any presses of buttons, edits of the fields and replies on a new
  -- client program, in any order and whatever the system answers, `std::terminate` has not been called,
  -- and the output field holds a line for each message among the replies, in their
  -- order, with the sender's login and the text, and nothing else.
  pub run-create-conversation :
      (es : List (Event k)) (socket number : ℕ)
      → let (after, there) = run j accepts k es (create k socket number) in
        (there ≡ true) × (k.get_value after.frame.output_field ≡ conversation es)
  unfolding create load_ui Tcp.create
  run-create-conversation es socket number =
      let (there, shown) = run-conversation es (create k socket number) (refl, refl) in
      (there, shown ∙ ap (λ t. t ++ conversation es) (laws.get_value-create []))
