-- ===== src/Frame/Transcript.antt =====
-- The text of the window's output field.
use gologincase.Common.{◌≡◌, refl, ap, sym, ◌∙◌, List, [], ◌∷◌, ◌++◌, Buffer, codes, arith}
use mathlib.Core.List.{append_assoc, append-nil}
use gologincase.Gui.{
  UiAction, on_login, on_logout, on_connect, on_disconnect, on_send, on_recv, UiStatus, success,
  failed, pending, Output,
}
use gologincase.Frame.{
  Toolkit, ToolkitLaws, Frame, on_connect_output, on_disconnect_output, on_login_output,
  on_logout_output, on_send_output, on_recv_output, output_handlers,
}
use gologincase.Frame.Outputs.{show_outputs}

-- The line of a message.
abbrev pub line : Buffer → Buffer → Buffer
line login text = login ++ codes ": " ++ text ++ codes "\n"

-- What a call of an output handler adds.
abbrev pub added : UiAction → UiStatus → Buffer → Buffer → Buffer
added on_recv success msg text = line msg text
added _ _ _ _ = []

abbrev pub transcript : List Output → Buffer
transcript [] = []
transcript (o ∷ os) = added o.action o.status o.msg o.data_text ++ transcript os

pub transcript-append :
    (os ps : List Output) → transcript (os ++ ps) ≡ transcript os ++ transcript ps
transcript-append [] ps = refl
transcript-append (o ∷ os) ps =
    ap (λ t. added o.action o.status o.msg o.data_text ++ t) (transcript-append os ps)
    ∙ sym (append_assoc (added o.action o.status o.msg o.data_text) (transcript os) (transcript ps))

module _ (k : Toolkit) (laws : ToolkitLaws k) where
  output_handlers-transcript :
      (o : Output) (f : Frame k)
      → k.get_value (output_handlers k o f).output_field
        ≡ k.get_value f.output_field ++ added o.action o.status o.msg o.data_text
  unfolding output_handlers on_connect_output on_disconnect_output on_login_output on_logout_output
      on_send_output on_recv_output
  output_handlers-transcript o f = by_action o.action o.status
    where
      by_action :
          (act : UiAction) (st : UiStatus)
          → k.get_value (output_handlers k (record o { action = act; status = st }) f).output_field
            ≡ k.get_value f.output_field ++ added act st o.msg o.data_text
      by_action on_recv success = simp (laws.get_value-append_text, append_assoc)
      by_action on_recv failed = sym (append-nil (k.get_value f.output_field))
      by_action on_recv pending = sym (append-nil (k.get_value f.output_field))
      by_action on_connect st = ground (arith, append-nil (k.get_value f.output_field))
      by_action on_disconnect st = ground (arith, append-nil (k.get_value f.output_field))
      by_action on_login st = ground (arith, append-nil (k.get_value f.output_field))
      by_action on_logout st = ground (arith, append-nil (k.get_value f.output_field))
      by_action on_send st = ground (arith, append-nil (k.get_value f.output_field))

  -- The output field after some outputs.
  pub show_outputs-transcript :
      (os : List Output) (f : Frame k)
      → k.get_value (show_outputs k os f).output_field ≡ k.get_value f.output_field ++ transcript os
  unfolding show_outputs
  show_outputs-transcript [] f = sym (append-nil (k.get_value f.output_field))
  show_outputs-transcript (o ∷ os) f =
      show_outputs-transcript os (output_handlers k o f)
      ∙ ap (λ t. t ++ transcript os) (output_handlers-transcript o f)
      ∙ append_assoc (k.get_value f.output_field) (added o.action o.status o.msg o.data_text)
          (transcript os)
