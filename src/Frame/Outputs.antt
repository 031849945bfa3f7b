-- ===== src/Frame/Outputs.antt =====
-- The window after any calls of its output handlers.
use gologincase.Common.{◌≡◌, refl, ap, sym, subst, ◌∙◌, true, not, List, [], ◌∷◌, arith}
use gologincase.Gui.{UiAction, UiStatus, Output}
use gologincase.Frame.{Toolkit, ToolkitLaws, Frame, load_ui, output_handlers}
use gologincase.Frame.View.{View, view, first_view, react, view-load_ui, view-output_handlers}

-- Calls of the output handlers, one after another.
unfoldable pub show_outputs : (k : Toolkit) → List Output → Frame k → Frame k
show_outputs k [] f = f
show_outputs k (o ∷ os) f = show_outputs k os (output_handlers k o f)

abbrev pub react_all : List Output → View → View
react_all [] v = v
react_all (o ∷ os) v = react_all os (react o.action o.status v)

module _ (k : Toolkit) (laws : ToolkitLaws k) where
  -- The view after some outputs.
  pub view-show_outputs :
      (os : List Output) (f : Frame k) → view k (show_outputs k os f) ≡ react_all os (view k f)
  unfolding show_outputs
  view-show_outputs [] f = refl
  view-show_outputs (o ∷ os) f =
      view-show_outputs os (output_handlers k o f)
      ∙ ap (react_all os) (view-output_handlers k laws o f)

  -- Under the laws of wxWidgets, the buttons that a new window shows, and the buttons and fields that
  -- are enabled, after any calls of its output handlers are those that the machine `react` gives from
  -- `first_view` on the same calls.
  pub view-show_outputs-load_ui :
      (os : List Output) → view k (show_outputs k os (load_ui k)) ≡ react_all os first_view
  view-show_outputs-load_ui os =
      view-show_outputs os (load_ui k) ∙ ap (react_all os) (view-load_ui k laws)

-- What holds of the view at all times.
pub record IsTidy (v : View) : Type 0 where
  pub one_connection : v.connect_shown ≡ not v.disconnect_shown
  pub one_login : v.login_shown ≡ not v.logout_shown
  pub input_sends : v.input_enabled ≡ v.send_enabled
  pub send_stays : v.send_shown ≡ true

react-IsTidy : (act : UiAction) (st : UiStatus) (v : View) → IsTidy v → IsTidy (react act st v)
unfolding react
react-IsTidy act st v h = ground arith

react_all-IsTidy : (os : List Output) (v : View) → IsTidy v → IsTidy (react_all os v)
react_all-IsTidy [] v h = h
react_all-IsTidy (o ∷ os) v h =
    react_all-IsTidy os (react o.action o.status v) (react-IsTidy o.action o.status v h)

-- Under the laws of wxWidgets, after any calls of the output handlers of a new window just one of its
-- buttons for connecting and disconnecting is shown, and just one of those for the login and the
-- logout; the button that sends is always shown, and it is enabled exactly if the input field is.
pub show_outputs-IsTidy :
    (k : Toolkit) (laws : ToolkitLaws k) (os : List Output)
    → IsTidy (view k (show_outputs k os (load_ui k)))
show_outputs-IsTidy k laws os = subst IsTidy (sym (view-show_outputs-load_ui k laws os)) (
    react_all-IsTidy os first_view
      (record { one_connection = refl; one_login = refl; input_sends = refl; send_stays = refl }))
