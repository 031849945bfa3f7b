-- ===== src/Frame/View.antt =====
-- Which controls of the window are shown and enabled, as a machine of its own.
use gologincase.Common.{◌≡◌, refl, Bool, true, false, not, ◌&&◌, ◌||◌, Buffer, arith}
use gologincase.Gui.{
  UiStatus, success, failed, pending, UiAction, on_login, on_logout, on_connect, on_disconnect,
  on_send, on_recv, Output,
}
use gologincase.Frame.{
  Toolkit, ToolkitLaws, Frame, load_ui, on_connect_output, on_disconnect_output, on_login_output,
  on_logout_output, on_send_output, on_recv_output, output_handlers,
}

-- The buttons that are shown or enabled, and the fields that are enabled.
pub record View : Type 0 where
  pub connect_shown : Bool
  pub connect_enabled : Bool
  pub disconnect_shown : Bool
  pub disconnect_enabled : Bool
  pub login_shown : Bool
  pub login_enabled : Bool
  pub logout_shown : Bool
  pub logout_enabled : Bool
  pub send_shown : Bool
  pub send_enabled : Bool
  pub input_enabled : Bool
  pub address_enabled : Bool
  pub login_field_enabled : Bool

abbrev pub view : (k : Toolkit) → Frame k → View
view k f = record {
  connect_shown = k.is_shown f.connect_button;
  connect_enabled = k.is_enabled f.connect_button;
  disconnect_shown = k.is_shown f.disconnect_button;
  disconnect_enabled = k.is_enabled f.disconnect_button;
  login_shown = k.is_shown f.login_button;
  login_enabled = k.is_enabled f.login_button;
  logout_shown = k.is_shown f.logout_button;
  logout_enabled = k.is_enabled f.logout_button;
  send_shown = k.is_shown f.send_button;
  send_enabled = k.is_enabled f.send_button;
  input_enabled = k.is_enabled f.input_field;
  address_enabled = k.is_enabled f.address_field;
  login_field_enabled = k.is_enabled f.login_field;
}

-- The view of a new window.
abbrev pub first_view : View
first_view = record {
  connect_shown = true;
  connect_enabled = true;
  disconnect_shown = false;
  disconnect_enabled = true;
  login_shown = true;
  login_enabled = false;
  logout_shown = false;
  logout_enabled = true;
  send_shown = true;
  send_enabled = false;
  input_enabled = false;
  address_enabled = true;
  login_field_enabled = false;
}

-- What a call of an output handler makes of the view.
unfoldable pub react : UiAction → UiStatus → View → View
react on_connect success v = record v {
  connect_shown = false;
  disconnect_shown = true;
  login_enabled = true;
  logout_enabled = true;
  login_field_enabled = not (v.login_enabled && v.logout_enabled) || v.login_field_enabled;
  address_enabled = false;
}
react on_connect pending v = record v { connect_enabled = false; address_enabled = false }
react on_disconnect success v = record v {
  connect_shown = true;
  connect_enabled = true;
  disconnect_shown = false;
  login_shown = true;
  login_enabled = false;
  logout_shown = false;
  send_enabled = false;
  input_enabled = not v.send_enabled && v.input_enabled;
  address_enabled = true;
  login_field_enabled = false;
}
react on_disconnect pending v = record v { disconnect_enabled = false }
react on_login success v = record v {
  login_shown = false;
  logout_shown = true;
  logout_enabled = true;
  send_enabled = true;
  input_enabled = true;
  login_field_enabled = false;
}
react on_login pending v = record v { login_enabled = false }
react on_logout success v = record v {
  login_shown = true;
  logout_shown = false;
  send_enabled = false;
  input_enabled = false;
  login_field_enabled = true;
}
react on_logout pending v = record v { logout_enabled = false }
react _ _ v = v

module _ (k : Toolkit) (laws : ToolkitLaws k) where
  pub view-load_ui : view k (load_ui k) ≡ first_view
  unfolding load_ui
  view-load_ui = grind (
    arith, laws.is_shown-create, laws.is_enabled-create, laws.is_shown-show, laws.is_enabled-show,
    laws.is_shown-enable, laws.is_enabled-enable,
  )

  view-on_connect_output :
      (st : UiStatus) (msg : Buffer) (f : Frame k)
      → view k (on_connect_output k st msg f) ≡ react on_connect st (view k f)
  unfolding on_connect_output react
  view-on_connect_output success msg f = grind (
    arith, laws.is_shown-show, laws.is_enabled-show, laws.is_shown-enable, laws.is_enabled-enable,
  )
  view-on_connect_output failed msg f = refl
  view-on_connect_output pending msg f = grind (
    arith, laws.is_shown-show, laws.is_enabled-show, laws.is_shown-enable, laws.is_enabled-enable,
  )

  view-on_disconnect_output :
      (st : UiStatus) (msg : Buffer) (f : Frame k)
      → view k (on_disconnect_output k st msg f) ≡ react on_disconnect st (view k f)
  unfolding on_disconnect_output react
  view-on_disconnect_output success msg f = grind (
    arith, laws.is_shown-show, laws.is_enabled-show, laws.is_shown-enable, laws.is_enabled-enable,
  )
  view-on_disconnect_output failed msg f = refl
  view-on_disconnect_output pending msg f =
      grind (arith, laws.is_shown-enable, laws.is_enabled-enable)

  view-on_login_output :
      (st : UiStatus) (msg : Buffer) (f : Frame k)
      → view k (on_login_output k st msg f) ≡ react on_login st (view k f)
  unfolding on_login_output react
  view-on_login_output success msg f = grind (
    arith, laws.is_shown-show, laws.is_enabled-show, laws.is_shown-enable, laws.is_enabled-enable,
  )
  view-on_login_output failed msg f = refl
  view-on_login_output pending msg f = grind (arith, laws.is_shown-enable, laws.is_enabled-enable)

  view-on_logout_output :
      (st : UiStatus) (msg : Buffer) (f : Frame k)
      → view k (on_logout_output k st msg f) ≡ react on_logout st (view k f)
  unfolding on_logout_output react
  view-on_logout_output success msg f = grind (
    arith, laws.is_shown-show, laws.is_enabled-show, laws.is_shown-enable, laws.is_enabled-enable,
  )
  view-on_logout_output failed msg f = refl
  view-on_logout_output pending msg f = grind (arith, laws.is_shown-enable, laws.is_enabled-enable)

  view-on_send_output :
      (st : UiStatus) (msg : Buffer) (f : Frame k)
      → view k (on_send_output k st msg f) ≡ react on_send st (view k f)
  unfolding on_send_output react
  view-on_send_output success msg f = refl
  view-on_send_output failed msg f = refl
  view-on_send_output pending msg f = grind (arith, laws.is_shown-clear, laws.is_enabled-clear)

  view-on_recv_output :
      (st : UiStatus) (msg text : Buffer) (f : Frame k)
      → view k (on_recv_output k st msg text f) ≡ react on_recv st (view k f)
  unfolding on_recv_output react
  view-on_recv_output success msg text f = refl
  view-on_recv_output failed msg text f = refl
  view-on_recv_output pending msg text f = refl

  pub view-output_handlers :
      (o : Output) (f : Frame k)
      → view k (output_handlers k o f) ≡ react o.action o.status (view k f)
  unfolding output_handlers
  view-output_handlers o f = by_action o.action
    where
      by_action :
          (act : UiAction)
          → view k (output_handlers k (record o { action = act }) f) ≡ react act o.status (view k f)
      by_action on_login = view-on_login_output o.status o.msg f
      by_action on_logout = view-on_logout_output o.status o.msg f
      by_action on_connect = view-on_connect_output o.status o.msg f
      by_action on_disconnect = view-on_disconnect_output o.status o.msg f
      by_action on_send = view-on_send_output o.status o.msg f
      by_action on_recv = view-on_recv_output o.status o.msg o.data_text f
