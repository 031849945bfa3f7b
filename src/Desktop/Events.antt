-- ===== src/Desktop/Events.antt =====
-- Events on the client program: buttons that are pressed, fields that the user edits, and replies that
-- its thread handles.
use gologincase.Common.{ℕ, Bool, true, false, List, [], ◌∷◌, ◌++◌, Buffer, if◌then◌else◌}
use gologincase.Messages.Json.{Json}
use gologincase.Messages.Client.{
  client_auth_request_message, client_hello_request_message, client_msg_response_message,
}
use gologincase.Provider.{Cookies}
use gologincase.Tcp.Client.{ConnectAnswers}
use gologincase.Gui.{End, returns, terminates}
use gologincase.Gui.Replies.{Reply, says, perform}
use gologincase.Frame.{Toolkit}
use gologincase.Frame.Transcript.{line}
use gologincase.Desktop.{Desktop, Button, receive, press}

-- A button is pressed, with the answers of the system to a connection and the number that the random
-- engine draws; the user edits the address, the login and the input field; or a reply is handled.
pub data Event (k : Toolkit) : Type 0 where
  pressed : (Buffer → Buffer → ConnectAnswers) → ℕ → Button → Event k
  edited : (address login input : k.Control) → Event k
  replied : Cookies → Reply → Event k

-- The messages among the replies, in order, a line each.
abbrev pub conversation : {k : Toolkit} → List (Event k) → Buffer
conversation [] = []
conversation (replied c (says r) ∷ es) = line r.sender_login r.body ++ conversation es
conversation (_ ∷ es) = conversation es

-- Whether the program is there after a callback: an exception ends the handler of the button only.
abbrev pub goes_on : End → Bool
goes_on terminates = false
goes_on _ = true

module _ (j : Json) (accepts : ℕ → Buffer → Bool) (k : Toolkit) where
  unfoldable pub step : Event k → Desktop k → End × Desktop k
  step (pressed answers drawn button) d = press j accepts answers drawn k button d
  step (edited address login input) d = (
    returns,
    record d {
      frame = record d.frame { address_field = address; login_field = login; input_field = input };
    },
  )
  step (replied c r) d = (returns, receive k (perform c r) d)

  -- The events, one after another, until the program is terminated: `false`.
  unfoldable pub run : List (Event k) → Desktop k → Desktop k × Bool
  run [] d = (d, true)
  run (e ∷ es) d =
      let (end, next) = step e d in
      let rest = run es next in if goes_on end then rest else (next, false)
