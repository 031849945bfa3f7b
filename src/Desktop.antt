-- ===== src/Desktop.antt =====
-- The client program: its application and its window together, as `create_frame` of
-- src/client/app.cpp and `input_handler` of src/client/frame.cpp join them. A callback does not read the
-- window, so that what it tells the window is shown when it has returned.
pub mod Waiting
pub mod Refused
pub mod Events
pub mod Additions
pub mod Conversation
pub mod Startup
use gologincase.Common.{ℕ, Bool, true, List, [], Option, none, some, Buffer, if◌then◌else◌}
use gologincase.Messages.Json.{Json}
use gologincase.Tcp.Client as Tcp
use gologincase.Tcp.Client.{ConnectAnswers}
use gologincase.Gui.{
  App, End, returns, UiAction, on_login, on_logout, on_connect, on_disconnect, on_send, on_recv,
  on_login_frame_callback, on_logout_frame_callback, on_connect_frame_callback,
  on_disconnect_frame_callback, on_send_frame_callback,
}
use gologincase.Frame.{
  Toolkit, Frame, load_ui, on_connect_event, on_disconnect_event, on_login_event, on_logout_event,
  on_send_event,
}
use gologincase.Frame.Outputs.{show_outputs}

-- `app.outputs` are those of the last callback or handler.
pub record Desktop (k : Toolkit) : Type 0 where
  pub app : App
  pub frame : Frame k

pub data Button : Type 0 where
  connect_button disconnect_button login_button logout_button send_button : Button

-- What `app::main` makes: the window has put a handler for each action into the map. The socket and
-- the number of the client are not initialised.
unfoldable pub create : (k : Toolkit) → ℕ → ℕ → Desktop k
create k socket number = record {
  app = record {
    cookie = record { client_id = number; client_session = []; client_login = [] };
    client = Tcp.create socket;
    handled = λ act. true;
    outputs = [];
  };
  frame = load_ui k;
}

-- The outputs of a callback are shown.
abbrev pub settle : (k : Toolkit) → App → Frame k → Desktop k
settle k a f = record { app = a; frame = show_outputs k a.outputs f }

-- A packet handler runs.
unfoldable pub receive : (k : Toolkit) → (App → App) → Desktop k → Desktop k
receive k handler d = settle k (handler (record d.app { outputs = [] })) d.frame

module _ (j : Json) (accepts : ℕ → Buffer → Bool) (answers : Buffer → Buffer → ConnectAnswers)
    (drawn : ℕ) where
  -- The map that `create_frame` fills, `m_input_handlers`.
  unfoldable pub create_frame : UiAction → Option (Buffer → App → End × App)
  create_frame on_login = some (on_login_frame_callback j accepts)
  create_frame on_logout = some (λ text. on_logout_frame_callback j accepts)
  create_frame on_connect = some (on_connect_frame_callback j accepts answers drawn)
  create_frame on_disconnect = some (λ text a. (returns, on_disconnect_frame_callback a))
  create_frame on_send = some (on_send_frame_callback j accepts)
  create_frame on_recv = none

  module _ (k : Toolkit) where
    unfoldable pub input_handler : UiAction → Buffer → Desktop k → End × Desktop k
    unfolding create_frame
    input_handler act text d = elim (create_frame act) [
      | some h ↦ let (e, a) = h text (record d.app { outputs = [] }) in (e, settle k a d.frame)
      | none ↦ (returns, d)
    ]

    -- What a handler of a button does with what it asks for.
    unfoldable pub ask : Frame k × Option (UiAction × Buffer) → App → End × Desktop k
    ask (f, none) a = (returns, record { app = a; frame = f })
    ask (f, some (act, text)) a = input_handler act text (record { app = a; frame = f })

    -- A button is pressed: the connections at the end of `load_ui`.
    unfoldable pub press : Button → Desktop k → End × Desktop k
    press connect_button d = ask (on_connect_event k d.frame) d.app
    press disconnect_button d = ask (on_disconnect_event k d.frame) d.app
    press login_button d = ask (on_login_event k d.frame) d.app
    press logout_button d = ask (on_logout_event k d.frame) d.app
    press send_button d = ask (on_send_event k d.frame) d.app
