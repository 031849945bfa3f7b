-- ===== src/Chat/Keeping.antt =====
-- What no packet changes of the state of the server application: anything that neither the application's
-- own part of the state nor a call of `send` changes.
use gologincase.Common.{
  ℕ, suc, ◌≡◌, refl, ap, subst, ◌∙◌, inl, inr, Bool, true, false, List, [], ◌∷◌, some, Buffer,
  Table, find, arith, ◌==◌, Bool-cases, Option-cases,
}
use gologincase.Messages.Json.{Json, Message, to, from}
use gologincase.Messages.Commands as Cmd
use gologincase.Messages.Client.{
  client_hello_request_message, client_ping_request_message, client_auth_request_message,
  client_bye_request_message, client_msg_request_message, client_msg_response_message,
}
use gologincase.Messages.Server.{
  server_hello_response_message, server_auth_response_message, server_bye_response_message,
  server_msg_request_message, server_msg_response_message,
}
use gologincase.Provider.{AuthClient, Cookies, accepted, get_clients, add_client, rem_client}
use gologincase.Dispatcher.{Handler, Outcome, dispatch, wrap_request, wrap_notice, pack_response}
use gologincase.Dispatcher.Routes.{route, serve, dispatch_routes, distinct_routes}
use gologincase.Tcp.Server.{send_to, send_object}
use gologincase.Chat.{
  World, App, routes, create_dispatcher, message_for, broadcast, client_hello_packet_handler,
  client_ping_packet_handler, client_login_packet_handler, client_logout_packet_handler,
  client_message_packet_handler, client_message_reply_packet_handler,
}

module _ (j : Json) where
  pub pack_response-state :
      {Resp : Type 0} ⦃r : Message Resp⦄ (cmd out : Buffer) (resp : Resp) (s : World)
      (raised : Bool)
      → (pack_response j cmd out resp s raised).state ≡ s
  unfolding pack_response
  pack_response-state cmd out resp s true = refl
  pack_response-state ⦃r⦄ cmd out resp s false = ground arith

module _ {X : Type 0} (see : World → X)
    (blind : (a : App) (s : World) → see (record s { app = a }) ≡ see s)
    (sent : (accepts : ℕ → Buffer → Bool) (o : ℕ) (cmd buff : Buffer) (s : World)
      → see (send_object accepts o cmd buff s).1 ≡ see s) where
  -- A handler leaves what is seen of the state as it is.
  abbrev Keeps : Handler World → Type 0
  Keeps h =
      (cmd : Buffer) (cookies : Cookies) (input out : Buffer) (s : World)
      → see (h cmd cookies input out s).state ≡ see s

  module _ (j : Json) where
    wrap_request-Keeps :
        {Req Resp : Type 0} ⦃q : Message Req⦄ ⦃r : Message Resp⦄
        (f : Cookies → Req → Resp → World → Resp × World × Bool)
        → ((cookies : Cookies) (req : Req) (resp : Resp) (s : World)
            → see (f cookies req resp s).1 ≡ see s)
        → Keeps (wrap_request j f)
    unfolding wrap_request
    wrap_request-Keeps {Req} ⦃r = r⦄ f keeps cmd cookies input out s =
        elim (Option-cases (from j {M = Req} input)) [
          | inl e ↦ rw (e, wrap_request) refl
          | inr (req, e) ↦
              (let answered = f cookies req r.blank s in
                rw (e, wrap_request)
                  (ap (λ (w : World). see w)
                      (pack_response-state j cmd out answered.0 answered.1 answered.2)
                    ∙ keeps cookies req r.blank s))
        ]

    wrap_notice-Keeps :
        {Req : Type 0} ⦃q : Message Req⦄ (f : Cookies → Req → World → World)
        → ((cookies : Cookies) (req : Req) (s : World) → see (f cookies req s) ≡ see s)
        → Keeps (wrap_notice j f)
    unfolding wrap_notice
    wrap_notice-Keeps {Req} f keeps cmd cookies input out s =
        elim (Option-cases (from j {M = Req} input)) [
          | inl e ↦ rw (e, wrap_notice) refl
          | inr (req, e) ↦ rw (e, wrap_notice) (keeps cookies req s)
        ]

  send_to-see :
      (accepts : ℕ → Buffer → Bool) (cookies : Cookies) (cmd buff : Buffer) (s : World)
      → see (send_to accepts cookies cmd buff s).1 ≡ see s
  unfolding send_to
  send_to-see accepts cookies cmd buff s =
      elim (Option-cases (find cookies.server_client_id s.client_list)) [
        | inl e ↦ rw (e, send_to) refl
        | inr (o, e) ↦ rw (e, send_to) (sent accepts o cmd buff s)
      ]

  broadcast-see :
      (j : Json) (accepts : ℕ → Buffer → Bool) (cs : List AuthClient) (body : Buffer) (s : World)
      → see (broadcast j accepts cs body s).0 ≡ see s
  unfolding broadcast
  broadcast-see j accepts [] body s = refl
  broadcast-see j accepts (c ∷ cs) body s = elim (Option-cases (to j (message_for c body))) [
    | inl e ↦ rw (e, broadcast) refl
    | inr (b, e) ↦
        rw (e, broadcast)
          (broadcast-see j accepts cs body (send_to accepts c.cookie Cmd.msg b s).1
            ∙ send_to-see accepts c.cookie Cmd.msg b s)
  ]

  -- The handlers of a list of routes.
  abbrev AllKeep : List (Buffer × Handler World) → Type 0
  AllKeep [] = Unit {0}
  AllKeep ((c, h) ∷ rest) = Keeps h × AllKeep rest

  route-Keeps :
      (hash : Buffer → ℕ) (k : ℕ) (rs : List (Buffer × Handler World)) (h : Handler World)
      → AllKeep rs
      → route hash k rs ≡ some h
      → Keeps h
  unfolding route
  route-Keeps hash k [] h all e = cc
  route-Keeps hash k ((c, g) ∷ rs) h all e = elim (Bool-cases (hash c == k)) [
    | inl same ↦ (let eq : g ≡ h = cc (rw same at e) in subst Keeps eq all.0)
    | inr other ↦ route-Keeps hash k rs h all.1 (rw other at e)
  ]

  module _ (j : Json) (accepts : ℕ → Buffer → Bool) (engine : ℕ → ℕ → ℕ) where
    routes-AllKeep : AllKeep (routes j accepts engine)
    unfolding routes client_hello_packet_handler client_ping_packet_handler
        client_login_packet_handler client_logout_packet_handler client_message_packet_handler
        client_message_reply_packet_handler
    routes-AllKeep = (
      wrap_request-Keeps j client_hello_packet_handler (λ cookies req resp s. refl),
      (
        wrap_request-Keeps j client_ping_packet_handler (λ cookies req resp s. ground arith),
        (
          wrap_request-Keeps j (client_login_packet_handler engine) (λ cookies req resp s.
              (let added =
                  add_client s.app.provider (engine s.app.engines) req.id cookies req.login
                    req.password [] in
                ground (
                  arith,
                  blind (record { provider = added.1; engines = suc s.app.engines }) s,
                  blind (record s.app { provider = added.1 }) s,
                ))),
          (
            wrap_request-Keeps j client_logout_packet_handler (λ cookies req resp s. ground (
              arith,
              blind (record s.app { provider = (rem_client s.app.provider req.id req.session).1 })
                  s,
            )),
            (
              wrap_request-Keeps j (client_message_packet_handler j accepts) (λ cookies req resp s.
                  ground (
                    arith,
                    broadcast-see j accepts (get_clients s.app.provider accepted) req.body s,
                  )),
              (wrap_notice-Keeps j client_message_reply_packet_handler (λ cookies req s. refl), tt),
            ),
          ),
        ),
      ),
    )

    serve-see :
        (hash : Buffer → ℕ) (cmd : Buffer) (cookies : Cookies) (input out : Buffer) (s : World)
        → see
            (serve hash
              (route hash (hash cmd) (routes j accepts engine))
              cmd
              cookies
              input
              out
              s).0.state
          ≡ see s
    serve-see hash cmd cookies input out s =
        elim (Option-cases (route hash (hash cmd) (routes j accepts engine))) [
          | inl e ↦ rw e refl
          | inr (h, e) ↦ rw e (
              route-Keeps hash (hash cmd) (routes j accepts engine) h routes-AllKeep e cmd cookies
                input out s)
        ]

    -- No packet makes the dispatcher of the server application change what is seen.
    pub create_dispatcher-Keeps :
        (hash : Buffer → ℕ) (t : Table (Handler World))
        → create_dispatcher j accepts engine hash ≡ some t
        → (cmd : Buffer) (cookies : Cookies) (input out : Buffer) (s : World)
        → see (dispatch hash t cmd cookies input out s).0.state ≡ see s
    unfolding create_dispatcher
    create_dispatcher-Keeps hash t made cmd cookies input out s =
        elim (Bool-cases (distinct_routes hash (routes j accepts engine))) [
          | inl d ↦
              (let (t', made', all) = (dispatch_routes hash (routes j accepts engine)).1 d in
                let same : t ≡ t' = cc in
                ap
                  (λ (x : Table (Handler World)).
                    see (dispatch hash x cmd cookies input out s).0.state)
                  same
                ∙ ap (λ (o : Outcome World × Bool). see o.0.state) (all cmd cookies input out s)
                ∙ serve-see hash cmd cookies input out s)
          | inr d ↦ absurd (cc ((dispatch_routes hash (routes j accepts engine)).0 d))
        ]
