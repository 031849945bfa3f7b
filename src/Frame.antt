-- ===== src/Frame.antt =====
-- The client's window, src/client/frame.cpp: its controls, what its buttons ask for, and what its
-- output handlers show. wxWidgets is an interface; fonts, sizes and layout are left out.
pub mod View
pub mod Outputs
pub mod Transcript
use gologincase.Common.{
  ℕ, ◌≡◌, Bool, true, false, not, List, [], ◌∷◌, ◌++◌, Option, none, some, Buffer, codes, is_empty,
  if◌then◌else◌,
}
use gologincase.Gui.{
  UiStatus, success, failed, pending, UiAction, on_login, on_logout, on_connect, on_disconnect,
  on_send, on_recv, Output,
}

-- wxButton and wxTextCtrl, as far as the window calls them.
pub record Toolkit : Type 1 where
  pub Control : Type 0
  -- The constructor, with the label or the first text.
  pub create : Buffer → Control
  pub show : Bool → Control → Control
  pub enable : Bool → Control → Control
  pub is_enabled : Control → Bool
  pub is_shown : Control → Bool
  pub get_value : Control → Buffer
  pub clear : Control → Control
  pub append_text : Buffer → Control → Control

-- What wxWidgets documents of them: a control starts shown and enabled, and each call changes only
-- what it names.
pub record ToolkitLaws (k : Toolkit) : Type 0 where
  pub is_shown-create : (t : Buffer) → k.is_shown (k.create t) ≡ true
  pub is_enabled-create : (t : Buffer) → k.is_enabled (k.create t) ≡ true
  pub get_value-create : (t : Buffer) → k.get_value (k.create t) ≡ t
  pub is_shown-show : (b : Bool) (c : k.Control) → k.is_shown (k.show b c) ≡ b
  pub is_enabled-show : (b : Bool) (c : k.Control) → k.is_enabled (k.show b c) ≡ k.is_enabled c
  pub get_value-show : (b : Bool) (c : k.Control) → k.get_value (k.show b c) ≡ k.get_value c
  pub is_shown-enable : (b : Bool) (c : k.Control) → k.is_shown (k.enable b c) ≡ k.is_shown c
  pub is_enabled-enable : (b : Bool) (c : k.Control) → k.is_enabled (k.enable b c) ≡ b
  pub get_value-enable : (b : Bool) (c : k.Control) → k.get_value (k.enable b c) ≡ k.get_value c
  pub is_shown-clear : (c : k.Control) → k.is_shown (k.clear c) ≡ k.is_shown c
  pub is_enabled-clear : (c : k.Control) → k.is_enabled (k.clear c) ≡ k.is_enabled c
  pub get_value-clear : (c : k.Control) → k.get_value (k.clear c) ≡ []
  pub is_shown-append_text :
      (t : Buffer) (c : k.Control) → k.is_shown (k.append_text t c) ≡ k.is_shown c
  pub is_enabled-append_text :
      (t : Buffer) (c : k.Control) → k.is_enabled (k.append_text t c) ≡ k.is_enabled c
  pub get_value-append_text :
      (t : Buffer) (c : k.Control) → k.get_value (k.append_text t c) ≡ k.get_value c ++ t

module _ (k : Toolkit) where
  -- `status_bar` is the text that `SetStatusText` was last called with.
  pub record Frame : Type 0 where
    pub connect_button : k.Control
    pub disconnect_button : k.Control
    pub login_button : k.Control
    pub logout_button : k.Control
    pub send_button : k.Control
    pub input_field : k.Control
    pub address_field : k.Control
    pub login_field : k.Control
    pub output_field : k.Control
    pub status_bar : Buffer

  -- `load_ui`.
  unfoldable pub load_ui : Frame
  load_ui = record {
    address_field = k.create (codes "localhost:10500");
    login_field = k.enable false (k.create (codes "login:password"));
    input_field = k.enable false (k.create []);
    output_field = k.create [];
    connect_button = k.create (codes "Connect");
    disconnect_button = k.show false (k.create (codes "Disconnect"));
    login_button = k.enable false (k.create (codes "Login"));
    logout_button = k.show false (k.create (codes "Logout"));
    send_button = k.enable false (k.create (codes "Send"));
    status_bar = codes "Not connected.";
  }

  -- The handlers of the buttons: what they ask of `input_handler`, if anything.
  unfoldable pub on_connect_event : Frame → Frame × Option (UiAction × Buffer)
  on_connect_event f =
      let address = k.get_value f.address_field in
      if is_empty address
      then (record f { status_bar = codes "Invalid server address." }, none)
      else (f, some (on_connect, address))

  unfoldable pub on_disconnect_event : Frame → Frame × Option (UiAction × Buffer)
  on_disconnect_event f = (f, some (on_disconnect, []))

  unfoldable pub on_login_event : Frame → Frame × Option (UiAction × Buffer)
  on_login_event f =
      let userpass = k.get_value f.login_field in
      if is_empty userpass
      then (record f { status_bar = codes "Invalid login or password." }, none)
      else (f, some (on_login, userpass))

  unfoldable pub on_logout_event : Frame → Frame × Option (UiAction × Buffer)
  on_logout_event f = (f, some (on_logout, []))

  unfoldable pub on_send_event : Frame → Frame × Option (UiAction × Buffer)
  on_send_event f =
      let msg = k.get_value f.input_field in
      if is_empty msg
      then (record f { status_bar = codes "Invalid message." }, none)
      else (f, some (on_send, msg))

  -- The output handlers.
  unfoldable pub on_connect_output : UiStatus → Buffer → Frame → Frame
  on_connect_output success msg f =
      let shown = record f {
        disconnect_button = k.show true f.disconnect_button;
        address_field = k.enable false f.address_field;
      } in
      let login =
        if not (k.is_enabled shown.login_button)
        then record shown {
          login_button = k.enable true shown.login_button;
          login_field = k.enable true shown.login_field;
        }
        else shown in
      let logout =
        if not (k.is_enabled login.logout_button)
        then record login {
          logout_button = k.enable true login.logout_button;
          login_field = k.enable true login.login_field;
        }
        else login in
      record logout { connect_button = k.show false logout.connect_button; status_bar = msg }
  on_connect_output pending msg f = record f {
    address_field = k.enable false f.address_field;
    connect_button = k.enable false f.connect_button;
    status_bar = msg;
  }
  on_connect_output failed msg f = record f { status_bar = msg }

  unfoldable pub on_disconnect_output : UiStatus → Buffer → Frame → Frame
  on_disconnect_output success msg f =
      let offline = record f {
        connect_button = k.enable true (k.show true f.connect_button);
        address_field = k.enable true f.address_field;
        disconnect_button = k.show false f.disconnect_button;
      } in
      let silent =
        if k.is_enabled offline.send_button
        then record offline {
          send_button = k.enable false offline.send_button;
          input_field = k.enable false offline.input_field;
        }
        else offline in
      let unnamed =
        if k.is_enabled silent.login_button
        then record silent {
          login_button = k.enable false silent.login_button;
          login_field = k.enable false silent.login_field;
        }
        else silent in
      record unnamed {
        logout_button = k.show false unnamed.logout_button;
        login_button = k.show true unnamed.login_button;
        login_field = k.enable false unnamed.login_field;
        status_bar = msg;
      }
  on_disconnect_output pending msg f = record f {
    disconnect_button = k.enable false f.disconnect_button;
    status_bar = msg;
  }
  on_disconnect_output failed msg f = record f { status_bar = msg }

  unfoldable pub on_login_output : UiStatus → Buffer → Frame → Frame
  on_login_output success msg f = record f {
    logout_button = k.enable true (k.show true f.logout_button);
    login_field = k.enable false f.login_field;
    login_button = k.show false f.login_button;
    send_button = k.enable true f.send_button;
    input_field = k.enable true f.input_field;
    status_bar = msg;
  }
  on_login_output pending msg f = record f {
    login_button = k.enable false f.login_button;
    status_bar = msg;
  }
  on_login_output failed msg f = record f { status_bar = msg }

  unfoldable pub on_logout_output : UiStatus → Buffer → Frame → Frame
  on_logout_output success msg f = record f {
    login_button = k.show true f.login_button;
    login_field = k.enable true f.login_field;
    logout_button = k.show false f.logout_button;
    send_button = k.enable false f.send_button;
    input_field = k.enable false f.input_field;
    status_bar = msg;
  }
  on_logout_output pending msg f = record f {
    logout_button = k.enable false f.logout_button;
    status_bar = msg;
  }
  on_logout_output failed msg f = record f { status_bar = msg }

  unfoldable pub on_send_output : UiStatus → Buffer → Frame → Frame
  on_send_output pending msg f = record f { input_field = k.clear f.input_field; status_bar = msg }
  on_send_output _ msg f = f

  unfoldable pub on_recv_output : UiStatus → Buffer → Buffer → Frame → Frame
  on_recv_output success msg text f = record f {
    output_field =
        k.append_text (codes "\n")
          (k.append_text text (k.append_text (codes ": ") (k.append_text msg f.output_field)));
  }
  on_recv_output _ msg text f = f

  -- `output_hadnlers`: the map from an action to its handler.
  unfoldable pub output_handlers : Output → Frame → Frame
  output_handlers o f = elim o.action [
    | on_login ↦ on_login_output o.status o.msg f
    | on_logout ↦ on_logout_output o.status o.msg f
    | on_connect ↦ on_connect_output o.status o.msg f
    | on_disconnect ↦ on_disconnect_output o.status o.msg f
    | on_recv ↦ on_recv_output o.status o.msg o.data_text f
    | on_send ↦ on_send_output o.status o.msg f
  ]
