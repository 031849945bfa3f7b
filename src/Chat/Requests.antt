-- ===== src/Chat/Requests.antt =====
-- The handlers of the server application against its contract: what it answers follows from the
-- requests alone.
use gologincase.Common.{
  ℕ, ◌≡◌, refl, sym, ap, subst, ◌∙◌, inl, inr, Bool, true, false, not, ◌&&◌, ◌||◌, List, [], ◌∷◌,
  Buffer, find, is_some, arith, ◌==◌, str_eq, Option-cases,
}
use gologincase.Messages.Json.{Json, to}
use gologincase.Messages.Commands as Cmd
use gologincase.Messages.Client
use gologincase.Messages.Server.{
  server_hello_response_message, server_auth_response_message, server_bye_response_message,
  server_msg_request_message, server_msg_response_message,
}
use gologincase.Provider.{
  Provider, AuthClient, Cookies, accepted, create, get_clients, step, Call, add, rem,
}
use gologincase.Provider.Invariant.{Inv, DrawsLetters, IsFair, create-Inv, step-Inv}
use gologincase.Provider.History.{mark, step-mark, step-config}
use gologincase.Tcp.Server.{send_to, send_object}
use gologincase.Chat.{
  World, ok, message_for, broadcast, client_hello_packet_handler, client_ping_packet_handler,
  client_login_packet_handler, client_logout_packet_handler, client_message_packet_handler,
}

-- A request that has been unpacked, and the cookie of its client.
pub data Request : Type 0 where
  hello : Cookies → Client.HelloRequest → Request
  ping : Cookies → Client.PingRequest → Request
  login : Cookies → Client.AuthRequest → Request
  logout : Cookies → Client.ByeRequest → Request
  message : Cookies → Client.MsgRequest → Request

-- The contract: whether a request succeeds, and which numbers are registered after it.
abbrev pub allowed : Buffer → Buffer → Request → (ℕ → Bool) → Bool
allowed name pass (hello c r) on = true
allowed name pass (ping c r) on = on r.id
allowed name pass (login c r) on = str_eq r.login name && str_eq r.password pass && not (on r.id)
allowed name pass (logout c r) on = on r.id
allowed name pass (message c r) on = on r.id

abbrev pub registered : Buffer → Buffer → Request → (ℕ → Bool) → ℕ → Bool
registered name pass (login c r) on k =
    on k || (r.id == k && (str_eq r.login name && str_eq r.password pass))
registered name pass (logout c r) on k = on k && not (r.id == k)
registered name pass _ on k = on k

-- Whether some requests succeed.
abbrev pub expected : Buffer → Buffer → List Request → (ℕ → Bool) → List Bool
expected name pass [] on = []
expected name pass (q ∷ qs) on =
    allowed name pass q on ∷ expected name pass qs (registered name pass q on)

abbrev is_ok : Buffer → Bool
is_ok status = str_eq status ok

module _ (j : Json) (accepts : ℕ → Buffer → Bool) (engine : ℕ → ℕ → ℕ) where
  -- A request, by its handler on a response that is new: whether the status of the response is "ok",
  -- and the state that the handler leaves. A greeting has no status; it always succeeds.
  unfoldable pub handle_request : Request → World → Bool × World
  handle_request (hello c r) s =
      (true, (client_hello_packet_handler c r server_hello_response_message.blank s).1)
  handle_request (ping c r) s =
      let (response, next, raised) =
        client_ping_packet_handler c r server_auth_response_message.blank s in
      (is_ok response.status, next)
  handle_request (login c r) s =
      let (response, next, raised) =
        client_login_packet_handler engine c r server_auth_response_message.blank s in
      (is_ok response.status, next)
  handle_request (logout c r) s =
      let (response, next, raised) =
        client_logout_packet_handler c r server_bye_response_message.blank s in
      (is_ok response.status, next)
  handle_request (message c r) s =
      let (response, next, raised) =
        client_message_packet_handler j accepts c r server_msg_response_message.blank s in
      (is_ok response.status, next)

  unfoldable pub handle_requests : List Request → World → List Bool
  handle_requests [] s = []
  handle_requests (q ∷ qs) s =
      let (done, next) = handle_request q s in done ∷ handle_requests qs next

  -- Sending leaves the application as it is.
  send_to-app :
      (cookies : Cookies) (cmd buff : Buffer) (s : World)
      → (send_to accepts cookies cmd buff s).1.app ≡ s.app
  unfolding send_to send_object
  send_to-app cookies cmd buff s = ground arith

  broadcast-app :
      (cs : List AuthClient) (body : Buffer) (s : World)
      → (broadcast j accepts cs body s).0.app ≡ s.app
  unfolding broadcast
  broadcast-app [] body s = refl
  broadcast-app (c ∷ cs) body s = elim (Option-cases (to j (message_for c body))) [
    | inl e ↦ rw (e, broadcast) refl
    | inr (b, e) ↦
        rw (e, broadcast)
          (broadcast-app cs body (send_to accepts c.cookie Cmd.msg b s).1
            ∙ send_to-app c.cookie Cmd.msg b s)
  ]

  -- What a request makes of the provider.
  abbrev calls : Request → World → Provider
  calls (login c r) s = step s.app.provider (add (engine s.app.engines) r.id c r.login r.password)
  calls (logout c r) s = step s.app.provider (rem r.id r.session)
  calls _ s = s.app.provider

  provider_after : (q : Request) (s : World) → (handle_request q s).1.app.provider ≡ calls q s
  unfolding handle_request client_hello_packet_handler client_ping_packet_handler
      client_message_packet_handler client_login_packet_handler client_logout_packet_handler step
  provider_after (hello c r) s = refl
  provider_after (ping c r) s = ground arith
  provider_after (message c r) s =
      ground (arith, broadcast-app (get_clients s.app.provider accepted) r.body s)
  provider_after (login c r) s = ground arith
  provider_after (logout c r) s = ground arith

  module _ (letters : (n : ℕ) → DrawsLetters (engine n)) (name pass : Buffer) where
    -- The provider is one of the contract's.
    pub record Matches (p : Provider) (on : ℕ → Bool) : Type 0 where
      pub inv : Inv p
      pub same_login : p.client_login ≡ name
      pub same_pass : p.client_pass ≡ pass
      pub same_clients : (k : ℕ) → is_some (find k p.clients) ≡ on k

    step-Matches :
        (p : Provider) (call : Call) (on : ℕ → Bool)
        → IsFair call
        → Matches p on
        → Matches (step p call) (λ k. mark name pass k call (on k))
    step-Matches p call on fair m = record {
      inv = step-Inv p call fair m.inv;
      same_login = (step-config p call).0 ∙ m.same_login;
      same_pass = (step-config p call).1 ∙ m.same_pass;
      same_clients = λ k.
          step-mark p k call
          ∙ rw (m.same_login, m.same_pass) (ap (mark name pass k call) (m.same_clients k));
    }

    pub handle_request-Matches :
        (q : Request) (s : World) (on : ℕ → Bool)
        → Matches s.app.provider on
        → Matches (handle_request q s).1.app.provider (registered name pass q on)
    handle_request-Matches (hello c r) s on m =
        subst (λ p. Matches p on) (sym (provider_after (hello c r) s)) m
    handle_request-Matches (ping c r) s on m =
        subst (λ p. Matches p on) (sym (provider_after (ping c r) s)) m
    handle_request-Matches (message c r) s on m =
        subst (λ p. Matches p on) (sym (provider_after (message c r) s)) m
    handle_request-Matches (login c r) s on m =
        subst (λ p. Matches p (registered name pass (login c r) on))
          (sym (provider_after (login c r) s))
          (step-Matches s.app.provider (add (engine s.app.engines) r.id c r.login r.password) on
            (letters s.app.engines) m)
    handle_request-Matches (logout c r) s on m =
        subst (λ p. Matches p (registered name pass (logout c r) on))
          (sym (provider_after (logout c r) s))
          (step-Matches s.app.provider (rem r.id r.session) on tt m)

    pub create-Matches : Matches (create name pass) (λ k. false)
    unfolding create find
    create-Matches = record {
      inv = create-Inv name pass;
      same_login = refl;
      same_pass = refl;
      same_clients = λ k. refl;
    }
