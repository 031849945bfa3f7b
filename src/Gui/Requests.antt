-- ===== src/Gui/Requests.antt =====
-- What the callbacks of the window send to the server.
use gologincase.Common.{
  ℕ, ◌<◌, ◌^◌, ◌≡◌, ◌≢◌, refl, Bool, true, false, [], ◌∷◌, ◌++◌, none, some, Buffer, codes, length,
  is_empty, arith, if◌then◌else◌,
}
use gologincase.Packet.{create_packet}
use gologincase.Messages.Json.{Json, JsonLaws, from, to}
use gologincase.Messages.RoundTrip.{
  to_exact, from-to, client_auth_request-IsLawful, client_msg_request-IsLawful,
}
use gologincase.Messages.Commands as Cmd
use gologincase.Messages.Client
use gologincase.Messages.Client.{client_auth_request_message, client_msg_request_message}
use gologincase.Tcp.{sends}
use gologincase.Tcp.Server.Replies.{send_lem}
use gologincase.Gui.{
  App, returns, UiAction, UiStatus, success, failed, pending, on_login, on_send, output_handler,
  find_colon, split, submit, on_login_frame_callback, on_send_frame_callback,
}

find_colon-append :
    (before after : Buffer)
    → find_colon before ≡ none
    → find_colon (before ++ 58 ∷ after) ≡ some (before, after)
unfolding find_colon
find_colon-append [] after h = refl
find_colon-append (c ∷ cs) after h = ground (arith, find_colon-append cs after)

-- The text of a pair without a colon in its first part is split into that pair.
split-append :
    (before after : Buffer)
    → find_colon before ≡ none
    → split (before ++ 58 ∷ after) ≡ (before, after)
unfolding split
split-append before after h = rw (find_colon-append before after h, split) refl

pub is_empty_ne : (s : Buffer) → s ≢ [] → is_empty s ≡ false
is_empty_ne [] h = absurd (h refl)
is_empty_ne (b ∷ s) h = refl

-- The requests of a login and of a message.
abbrev pub auth_request : App → Buffer → Buffer → Client.AuthRequest
auth_request a login pass = record {
  id = a.cookie.client_id;
  command = Cmd.auth;
  login = login;
  password = pass;
}

abbrev pub msg_request : App → Buffer → Client.MsgRequest
msg_request a text = record {
  id = a.cookie.client_id;
  command = Cmd.msg;
  body = text;
  session = a.cookie.client_session;
}

module _ (accepts : ℕ → Buffer → Bool) where
  -- The state after a packet has been handed to the socket.
  abbrev pub handed : Buffer → Buffer → App → App
  handed cmd b a = record a {
    client = record a.client {
      trace = a.client.trace ++ sends a.client.conn.socket (create_packet cmd b) ∷ [];
    };
  }

  -- What the window is told, by whether the system takes the packet.
  abbrev pub told : Buffer → Buffer → UiAction → UiStatus → Buffer → Buffer → App → App
  told cmd b act good text bad a =
      if accepts a.client.conn.socket (create_packet cmd b)
      then output_handler act good text [] (handed cmd b a)
      else output_handler act failed bad [] (handed cmd b a)

  -- A request that is packed is sent, and the window is told.
  pub submit_lem :
      (j : Json) (cmd b : Buffer) (act : UiAction) (good : UiStatus) (text bad : Buffer) (a : App)
      → b ≢ []
      → length cmd < 16
      → submit j accepts cmd (some b) act good text bad a
        ≡ (returns, told cmd b act good text bad a)
  unfolding submit
  submit_lem j cmd b act good text bad a ne lt =
      rw (send_lem accepts a.client.conn cmd b ne lt, submit) (ground arith)

module _ (j : Json) (is_utf8 : Buffer → Bool) (laws : JsonLaws j is_utf8)
    (accepts : ℕ → Buffer → Bool) (a : App) (fit : a.cookie.client_id < 2 ^ 64) where
  -- A login that the packer has made `b` of is sent as `b`.
  pub on_login_frame_callback-sends :
      (login pass b : Buffer)
      → find_colon login ≡ none
      → login ≢ []
      → pass ≢ []
      → to j (auth_request a login pass) ≡ some b
      → b ≢ []
      → on_login_frame_callback j accepts (login ++ 58 ∷ pass) a ≡ (
        returns,
        told accepts Cmd.auth b on_login success (codes "Login...") (codes "Login failed.") a,
      )
  unfolding on_login_frame_callback
  on_login_frame_callback-sends login pass b no_colon named secret packed ne =
      rw
        (split-append login pass no_colon, is_empty_ne login named, is_empty_ne pass secret, packed)
        (submit_lem accepts j Cmd.auth b on_login success (codes "Login...") (codes "Login failed.")
          a ne (omega arith))

  -- Under the JSON library's laws and with a client number that fits 64 bits, a login and a password
  -- that are not empty, are valid UTF-8 and are written with a colon between them, of which the login
  -- has none, go to the server as one packet that is read back as the request with that login and
  -- that password. The window is told of success if the system takes the packet, and else of failure.
  pub on_login_frame_callback_lem :
      (login pass : Buffer)
      → find_colon login ≡ none
      → login ≢ []
      → pass ≢ []
      → is_utf8 login ≡ true
      → is_utf8 pass ≡ true
      → (b : Buffer) × (from j b ≡ some (auth_request a login pass))
        × (on_login_frame_callback j accepts (login ++ 58 ∷ pass) a ≡ (
          returns,
          told accepts Cmd.auth b on_login success (codes "Login...") (codes "Login failed.") a,
        ))
  on_login_frame_callback_lem login pass no_colon named secret l p =
      let request = auth_request a login pass in
      let (b, packed, ne) =
        (to_exact j is_utf8 laws client_auth_request-IsLawful request).0
          (ground (arith, laws.is_utf8_ascii Cmd.auth refl)) in
      (
        b,
        from-to j is_utf8 laws client_auth_request-IsLawful request b (ground arith) packed,
        on_login_frame_callback-sends login pass b no_colon named secret packed ne,
      )

  -- Under the same conditions a text that is valid UTF-8 goes to the server as one message packet,
  -- which is read back as the message with that text under the client's number and session, if the
  -- session is valid UTF-8 too.
  pub on_send_frame_callback_lem :
      (text : Buffer)
      → is_utf8 text ≡ true
      → is_utf8 a.cookie.client_session ≡ true
      → (b : Buffer) × (from j b ≡ some (msg_request a text))
        × (on_send_frame_callback j accepts text a ≡ (
          returns,
          told accepts Cmd.msg b on_send pending (codes "Mesaging...") (codes "Mesaging failed.") a,
        ))
  unfolding on_send_frame_callback
  on_send_frame_callback_lem text t s =
      let request = msg_request a text in
      let (b, packed, ne) =
        (to_exact j is_utf8 laws client_msg_request-IsLawful request).0
          (ground (arith, laws.is_utf8_ascii Cmd.msg refl)) in
      (
        b,
        from-to j is_utf8 laws client_msg_request-IsLawful request b (ground arith) packed,
        rw packed (
            submit_lem accepts j Cmd.msg b on_send pending (codes "Mesaging...")
              (codes "Mesaging failed.") a ne (omega arith)),
      )
