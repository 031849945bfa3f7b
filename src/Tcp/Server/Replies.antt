-- ===== src/Tcp/Server/Replies.antt =====
-- Where the packets go that the server sends.
use gologincase.Common.{
  ℕ, ◌<◌, ◌≤◌, ◌⊎◌, ◌≡◌, ◌≢◌, refl, sym, ap, subst, ◌∙◌, inl, inr, Bool, false, List, [], ◌∷◌, ◌++◌,
  Option, none, some, Buffer, Table, find, length, arith, Option-cases, is_empty-false,
}
use mathlib.Core.List.{append-nil}
use gologincase.Packet.{create_packet, cmd_of}
use gologincase.Packet.Header.{length-create_packet, create_packet_refusal}
use gologincase.Provider.{Cookies}
use gologincase.Messages.Json.{Json, Message, to}
use gologincase.Dispatcher.{Handler, Outcome, dispatch, pack_response}
use gologincase.Tcp.{Connection, Sys, sends, send}
use gologincase.Tcp.Server.{State, send_object, send_to, packet_handler}

module _ {ℓ} {A : Type ℓ} where
  -- The socket of an object, and of the client that a cookie names.
  unfoldable pub socket_of : State A → ℕ → Option ℕ
  socket_of s object = elim (find object s.objects) [ none ↦ none | some c ↦ some c.socket ]

  unfoldable pub socket_at : State A → Cookies → Option ℕ
  socket_at s cookies = elim (find cookies.server_client_id s.client_list) [
    | none ↦ none
    | some object ↦ socket_of s object
  ]

-- One packet to the socket, if there is one.
abbrev pub packet_to : Option ℕ → Buffer → Buffer → List Sys
packet_to none cmd buff = []
packet_to (some socket) cmd buff = sends socket (create_packet cmd buff) ∷ []

module _ (accepts : ℕ → Buffer → Bool) where
  -- `send` makes the packet and passes it to the socket of the connection.
  pub send_lem :
      (c : Connection) (cmd buff : Buffer)
      → buff ≢ []
      → length cmd < 16
      → send accepts c cmd buff
        ≡ (accepts c.socket (create_packet cmd buff), sends c.socket (create_packet cmd buff) ∷ [])
  unfolding send
  send_lem c cmd [] ne lt = absurd (ne refl)
  send_lem c cmd (b ∷ bs) ne lt = rw (is_empty-false (create_packet cmd (b ∷ bs)) some_bytes) refl
    where
      some_bytes : 0 < length (create_packet cmd (b ∷ bs))
      some_bytes = omega (arith, length-create_packet cmd (b ∷ bs) ne lt)

logged_nothing {ℓ} : {A : Type ℓ} (s : State A) → record s { trace = s.trace ++ [] } ≡ s
logged_nothing s = ap (λ t. record s { trace = t }) (append-nil s.trace)

module _ {ℓ} {A : Type ℓ} (accepts : ℕ → Buffer → Bool) (cmd buff : Buffer) where
  -- A packet that can be made goes to the socket that the object has.
  pub send_object-trace :
      (object : ℕ) (s : State A)
      → buff ≢ []
      → length cmd < 16
      → (send_object accepts object cmd buff s).1
        ≡ record s { trace = s.trace ++ packet_to (socket_of s object) cmd buff }
  unfolding send_object socket_of
  send_object-trace object s ne lt = elim (Option-cases (find object s.objects)) [
    | inl e ↦ rw (e, send_object, socket_of) (sym (logged_nothing s))
    | inr (c, e) ↦
        rw (e, send_object, socket_of)
          (ap (λ (r : Bool × List Sys). record s { trace = s.trace ++ r.1 })
            (send_lem accepts c cmd buff ne lt))
  ]

  pub send_to-trace :
      (cookies : Cookies) (s : State A)
      → buff ≢ []
      → length cmd < 16
      → (send_to accepts cookies cmd buff s).1
        ≡ record s { trace = s.trace ++ packet_to (socket_at s cookies) cmd buff }
  unfolding send_to socket_at
  send_to-trace cookies s ne lt =
      elim (Option-cases (find cookies.server_client_id s.client_list)) [
        | inl e ↦ rw (e, send_to, socket_at) (sym (logged_nothing s))
        | inr (object, e) ↦ rw (e, send_to, socket_at) (send_object-trace object s ne lt)
      ]

-- Without a packet nothing is sent.
send_refused :
    (accepts : ℕ → Buffer → Bool) (c : Connection) (cmd buff : Buffer)
    → create_packet cmd buff ≡ []
    → send accepts c cmd buff ≡ (false, [])
unfolding send
send_refused accepts c cmd buff e = ground (arith, e)

send_object_refused {ℓ} :
    {A : Type ℓ} (accepts : ℕ → Buffer → Bool) (object : ℕ) (cmd buff : Buffer) (s : State A)
    → (buff ≡ []) ⊎ (16 ≤ length cmd)
    → send_object accepts object cmd buff s ≡ (false, s)
unfolding send_object
send_object_refused accepts object cmd buff s h = elim (Option-cases (find object s.objects)) [
  | inl e ↦ rw (e, send_object) refl
  | inr (c, e) ↦
      rw (e, send_object)
        (ap (λ (r : Bool × List Sys). (r.0, record s { trace = s.trace ++ r.1 }))
            (send_refused accepts c cmd buff ((create_packet_refusal cmd buff).0.1 h))
          ∙ ap (λ t. (false, t)) (logged_nothing s))
]

-- What the dispatch of a packet leaves.
abbrev pub outcome {ℓ} :
    {A : Type ℓ} (hash : Buffer → ℕ) (handlers : Table (Handler (State A)))
    → ℕ
    → Buffer
    → Buffer
    → State A
    → Outcome (State A)
outcome hash handlers cid cmd buff s =
    (dispatch hash handlers cmd (record { server_client_id = cid }) buff [] s).0

module _ {ℓ} {A : Type ℓ} (accepts : ℕ → Buffer → Bool) (hash : Buffer → ℕ)
    (handlers : Table (Handler (State A))) where
  -- If the header of a packet names a command, and the dispatch leaves an output that is not empty and
  -- a command of fewer than 16 bytes, the packet is answered by one packet with these to the socket
  -- that the client's object then has; if the output is empty or the command longer, nothing is sent;
  -- and if the header has no terminator, the behaviour is undefined.
  pub packet_handler_reply :
      (cid : ℕ) (header buff : Buffer) (object : ℕ) (s : State A)
      → (cmd_of header ≡ none
          → packet_handler accepts hash handlers cid header buff object s ≡ none)
        × ((cmd : Buffer)
            → cmd_of header ≡ some cmd
            → let r = outcome hash handlers cid cmd buff s in
              ((r.out ≡ []) ⊎ (16 ≤ length r.cmd)
                → packet_handler accepts hash handlers cid header buff object s ≡ some r.state)
              × (r.out ≢ []
                  → length r.cmd < 16
                  → packet_handler accepts hash handlers cid header buff object s
                    ≡ some (record r.state {
                      trace = r.state.trace ++ packet_to (socket_of r.state object) r.cmd r.out;
                    })))
  unfolding packet_handler
  packet_handler_reply cid header buff object s = (
    λ e. rw e refl,
    λ cmd e. (
      λ q. rw e (ap some (unanswered (outcome hash handlers cid cmd buff s) q)),
      λ ne lt. rw e (ap some (send_object-trace accepts _ _ object _ ne lt)),
    ),
  )
    where
      unanswered :
          (r : Outcome (State A))
          → (r.out ≡ []) ⊎ (16 ≤ length r.cmd)
          → (send_object accepts object r.cmd r.out r.state).1 ≡ r.state
      unanswered r q =
          ap (λ (t : Bool × State A). t.1)
            (send_object_refused accepts object r.cmd r.out r.state q)

  -- What a packet comes to, by how its dispatch ends.
  abbrev Answered : ℕ → Buffer → Buffer → ℕ → State A → Outcome (State A) → Type ℓ
  Answered cid header buff object s r =
      ((r.out ≡ []) ⊎ (16 ≤ length r.cmd)
        → packet_handler accepts hash handlers cid header buff object s ≡ some r.state)
      × (r.out ≢ []
          → length r.cmd < 16
          → packet_handler accepts hash handlers cid header buff object s
            ≡ some (record r.state {
              trace = r.state.trace ++ packet_to (socket_of r.state object) r.cmd r.out;
            }))

  module _ (j : Json) {Resp : Type 0} ⦃m : Message Resp⦄ where
    outcome-Answered :
        (cid : ℕ) (header buff : Buffer) (object : ℕ) (s : State A) (cmd : Buffer) (resp : Resp)
        (next : State A)
        → cmd_of header ≡ some cmd
        → outcome hash handlers cid cmd buff s ≡ pack_response j cmd [] resp next false
        → Answered cid header buff object s (pack_response j cmd [] resp next false)
    outcome-Answered cid header buff object s cmd resp next h e =
        subst (Answered cid header buff object s) e
          ((packet_handler_reply cid header buff object s).1 cmd h)

    -- A packet whose response cannot be packed is not answered.
    pub response_lost :
        (cid : ℕ) (header buff : Buffer) (object : ℕ) (s : State A) (cmd : Buffer) (resp : Resp)
        (next : State A)
        → cmd_of header ≡ some cmd
        → outcome hash handlers cid cmd buff s ≡ pack_response j cmd [] resp next false
        → to j resp ≡ none
        → packet_handler accepts hash handlers cid header buff object s ≡ some next
    unfolding pack_response
    response_lost cid header buff object s cmd resp next h e lost =
        (rw (lost, pack_response) at
            (outcome-Answered cid header buff object s cmd resp next h e)).0
          (inl refl)

    -- A response that can be packed is sent to the client's socket, under its own command.
    pub response_sent :
        (cid : ℕ) (header buff : Buffer) (object : ℕ) (s : State A) (cmd : Buffer) (resp : Resp)
        (next : State A) (b : Buffer)
        → cmd_of header ≡ some cmd
        → outcome hash handlers cid cmd buff s ≡ pack_response j cmd [] resp next false
        → to j resp ≡ some b
        → b ≢ []
        → length (m.command resp) < 16
        → packet_handler accepts hash handlers cid header buff object s
          ≡ some (record next {
            trace = next.trace ++ packet_to (socket_of next object) (m.command resp) b;
          })
    unfolding pack_response
    response_sent cid header buff object s cmd resp next b h e packed ne lt =
        (rw (packed, pack_response) at
            (outcome-Answered cid header buff object s cmd resp next h e)).1
          ne lt
