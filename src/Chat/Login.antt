-- ===== src/Chat/Login.antt =====
-- A login of a client, from the packet to the answer.
use gologincase.Common.{
  ℕ, ◌^◌, ◌<◌, ◌≡◌, ◌≢◌, refl, ap, ◌∙◌, Bool, true, false, [], ◌++◌, none, some, Buffer, Table,
  find, emplace, All, arith, codes, str_eq-eq, str_eq_refl,
}
use gologincase.Packet.{cmd_of}
use gologincase.Messages.Json.{to, Json, JsonLaws, from, all_valid}
use gologincase.Messages.RoundTrip.{Fits, from-to, server_auth_response-IsLawful}
use gologincase.Messages.Commands as Cmd
use gologincase.Messages.Client
use gologincase.Messages.Client.{client_auth_request_message}
use gologincase.Messages.Server
use gologincase.Messages.Server.{server_auth_response_message}
use gologincase.Provider.{Provider, Cookies, accepted, add_client, generate}
use gologincase.Provider.Invariant.{DrawsLetters, generate-IsSession}
use gologincase.Dispatcher.{Handler, wrap_request}
use gologincase.Tcp.Server.{packet_handler}
use gologincase.Tcp.Server.Replies.{socket_of, packet_to}
use gologincase.Chat.{World, ok, failed, client_login_packet_handler}
use gologincase.Chat.Answers.{answer_packet}
use gologincase.Chat.Commands.{Serves}
use gologincase.Chat.Broadcast.{IsSession-utf8}

-- A request names the configured login and password, and a number that is free.
abbrev pub Admits : Provider → Client.AuthRequest → Type 0
Admits p request =
    (request.login ≡ p.client_login)
    × (request.password ≡ p.client_pass)
    × (find request.id p.clients ≡ none)

module _ (engine : ℕ → ℕ → ℕ) (cookies : Cookies) (request : Client.AuthRequest) (s : World) where
  abbrev pub answered : Server.AuthResponse × World × Bool
  answered = client_login_packet_handler engine cookies request server_auth_response_message.blank s

  -- The handler of logins, on a response that is new, does not throw and sends nothing. It admits
  -- exactly the requests with the configured login and password under a free number: these get the
  -- status `ok` with a new session, and the client is stored with that session and its cookie. Any
  -- other request gets `failed` with an empty session, and the registered clients stay as they were.
  pub client_login_packet_handler_lem :
      let (response, next, raised) = answered in
      (raised ≡ false)
      × (response.id ≡ request.id)
      × (response.command ≡ Cmd.auth)
      × (next.trace ≡ s.trace)
      × (Admits s.app.provider request
          → (response.status ≡ ok)
            × (response.session ≡ generate (engine s.app.engines) 32 0)
            × (find request.id next.app.provider.clients
                ≡ some (record {
                  cookie = cookies;
                  id = request.id;
                  session = response.session;
                  login = s.app.provider.client_login;
                  status = accepted;
                })))
      × (¬ Admits s.app.provider request
          → (response.status ≡ failed) × (response.session ≡ []) × (next.app ≡ s.app))
  unfolding client_login_packet_handler add_client find emplace
  client_login_packet_handler_lem = ground (
    arith,
    str_eq-eq request.login s.app.provider.client_login,
    str_eq-eq request.password s.app.provider.client_pass,
    str_eq_refl request.login,
    str_eq_refl request.password,
  )

module _ (j : Json) (is_utf8 : Buffer → Bool) (laws : JsonLaws j is_utf8) (engine : ℕ → ℕ → ℕ)
    (s : World) (letters : DrawsLetters (engine s.app.engines)) where
  module _ (cookies : Cookies) (request : Client.AuthRequest) where
    session-utf8 : is_utf8 (answered engine cookies request s).0.session ≡ true
    unfolding client_login_packet_handler add_client
    session-utf8 = ground (
      arith,
      IsSession-utf8 j is_utf8 laws (generate (engine s.app.engines) 32 0)
          (generate-IsSession (engine s.app.engines) letters),
      laws.is_utf8_ascii [] refl,
    )

    response-valid :
        all_valid is_utf8
          (server_auth_response_message.members (answered engine cookies request s).0)
        ≡ true
    unfolding client_login_packet_handler
    response-valid = ground (
      arith,
      session-utf8,
      laws.is_utf8_ascii Cmd.auth refl,
      laws.is_utf8_ascii ok refl,
      laws.is_utf8_ascii failed refl,
      laws.is_utf8_ascii [] refl,
      laws.is_utf8_ascii (codes "wrong auth login or pass") refl,
    )

    response-Fits :
        request.id < 2 ^ 64
        → All Fits (server_auth_response_message.members (answered engine cookies request s).0)
    unfolding client_login_packet_handler
    response-Fits h = ground arith

    socket_of-answered :
        (object : ℕ) → socket_of (answered engine cookies request s).1 object ≡ socket_of s object
    unfolding client_login_packet_handler socket_of
    socket_of-answered object = ground arith

  module _ (accepts : ℕ → Buffer → Bool) (hash : Buffer → ℕ) (t : Table (Handler World))
      (serves : Serves hash t Cmd.auth (wrap_request j (client_login_packet_handler engine))) where
    -- The packet that answers a login.
    pub login_answer :
        (cid : ℕ) (header input : Buffer) (object : ℕ) (request : Client.AuthRequest)
        → cmd_of header ≡ some Cmd.auth
        → from j input ≡ some request
        → request.id < 2 ^ 64
        → let (response, next, raised) =
            answered engine (record { server_client_id = cid }) request s in
          (b : Buffer) × (to j response ≡ some b)
          × (b ≢ [])
          × (from j b ≡ some response)
          × (packet_handler accepts hash t cid header input object s
              ≡ some (record next { trace = s.trace ++ packet_to (socket_of s object) Cmd.auth b }))
    login_answer cid header input object request h e fit =
        let cookies : Cookies = record { server_client_id = cid } in
        let (response, next, raised) = answered engine cookies request s in
        let lem = client_login_packet_handler_lem engine cookies request s in
        let (b, packed, ne, sent) =
          answer_packet j is_utf8 laws accepts hash t (client_login_packet_handler engine) Cmd.auth
            cid header input object request response s next server_auth_response-IsLawful serves h e
            (ap (λ x. (response, next, x)) lem.0) (response-valid cookies request)
            (rw lem.2 (omega arith)) lem.3 (socket_of-answered cookies request object) in
        (
          b,
          packed,
          ne,
          from-to j is_utf8 laws server_auth_response-IsLawful response b
              (response-Fits cookies request fit) packed,
          sent
              ∙ ap
                  (λ c.
                    some (record next { trace = s.trace ++ packet_to (socket_of s object) c b }))
                  lem.2,
        )
