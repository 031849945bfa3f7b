-- ===== src/Chat/Broadcast.antt =====
-- What a message of one client makes the server send to the others.
use gologincase.Common.{
  ℕ, ◌≤◌, ◌≡◌, ◌≢◌, refl, sym, ap, ◌∙◌, Bool, true, false, List, [], ◌∷◌, ◌++◌, none, some, Buffer,
  Table, values, All, all, ltb, arith,
}
use mathlib.Core.List.{append-nil, append_assoc}
use gologincase.Messages.Json.{Json, JsonLaws, to, all_valid}
use gologincase.Messages.RoundTrip.{to_exact, server_msg_request-IsLawful}
use gologincase.Messages.Commands as Cmd
use gologincase.Messages.Server.{server_msg_request_message}
use gologincase.Provider.{AuthClient}
use gologincase.Provider.Invariant.{IsEntry, IsSession, AllEntries}
use gologincase.Tcp.{Sys}
use gologincase.Tcp.Server.Replies.{socket_at, socket_of, packet_to, send_to-trace}
use gologincase.Chat.{World, message_for, broadcast}

-- A session of letters is ASCII.
letters_ascii : (s : Buffer) → All (λ c. (97 ≤ c) × (c ≤ 122)) s → all (λ b. ltb b 128) s ≡ true
letters_ascii [] h = refl
letters_ascii (c ∷ s) h = ground (arith, letters_ascii s h.1)

module _ (j : Json) (is_utf8 : Buffer → Bool) (laws : JsonLaws j is_utf8) where
  pub IsSession-utf8 : (s : Buffer) → IsSession s → is_utf8 s ≡ true
  IsSession-utf8 s h = laws.is_utf8_ascii s (letters_ascii s h.1)

  message_for-valid :
      (login : Buffer) (k : ℕ) (c : AuthClient) (body : Buffer)
      → IsEntry login k c
      → is_utf8 login ≡ true
      → is_utf8 body ≡ true
      → all_valid is_utf8 (server_msg_request_message.members (message_for c body)) ≡ true
  unfolding message_for
  message_for-valid login k c body entry l b = ground (
    arith,
    IsSession-utf8 c.session entry.session_drawn,
    laws.is_utf8_ascii Cmd.msg refl,
    entry.shared_login,
  )

  -- A registered client's message can be packed.
  abbrev pub Packable : Buffer → AuthClient → Type 0
  Packable body c = (b : Buffer) × (to j (message_for c body) ≡ some b) × (b ≢ [])

  pub entry-Packable :
      (login : Buffer) (k : ℕ) (c : AuthClient) (body : Buffer)
      → IsEntry login k c
      → is_utf8 login ≡ true
      → is_utf8 body ≡ true
      → Packable body c
  entry-Packable login k c body entry l b =
      (to_exact j is_utf8 laws server_msg_request-IsLawful (message_for c body)).0
        (message_for-valid login k c body entry l b)

  pub entries-Packable :
      (login : Buffer) (m : Table AuthClient) (body : Buffer)
      → AllEntries login m
      → is_utf8 login ≡ true
      → is_utf8 body ≡ true
      → All (Packable body) (values m)
  entries-Packable login [] body h l b = tt
  entries-Packable login ((k, c) ∷ m) body h l b =
      (entry-Packable login k c body h.0 l b, entries-Packable login m body h.1 l b)

module _ (j : Json) where
  -- The packed message for a client.
  unfoldable pub packed : AuthClient → Buffer → Buffer
  packed c body = elim (to j (message_for c body)) [ some b ↦ b | none ↦ [] ]

  -- One packet with the message to each of the clients, in their order, on the socket that the
  -- server's list has for its cookie, and none to a client that the list does not have.
  unfoldable pub deliveries : World → List AuthClient → Buffer → List Sys
  unfolding packed
  deliveries s [] body = []
  deliveries s (c ∷ cs) body =
      packet_to (socket_at s c.cookie) Cmd.msg (packed c body) ++ deliveries s cs body

  deliveries-trace :
      (s : World) (t : List Sys) (cs : List AuthClient) (body : Buffer)
      → deliveries (record s { trace = t }) cs body ≡ deliveries s cs body
  unfolding deliveries socket_at socket_of
  deliveries-trace s t [] body = refl
  deliveries-trace s t (c ∷ cs) body =
      ap (λ d. packet_to (socket_at s c.cookie) Cmd.msg (packed c body) ++ d)
        (deliveries-trace s t cs body)

module _ (j : Json) (is_utf8 : Buffer → Bool) (laws : JsonLaws j is_utf8)
    (accepts : ℕ → Buffer → Bool) where
  pub broadcast-Packable :
      (cs : List AuthClient) (body : Buffer) (s : World)
      → All (Packable j is_utf8 laws body) cs
      → broadcast j accepts cs body s
        ≡ (record s { trace = s.trace ++ deliveries j s cs body }, false)
  unfolding broadcast deliveries
  broadcast-Packable [] body s h =
      ap (λ t. (record s { trace = t }, false)) (sym (append-nil s.trace))
  broadcast-Packable (c ∷ cs) body s h =
      rw (packs, broadcast)
        (ap (broadcast j accepts cs body)
            (send_to-trace accepts Cmd.msg b c.cookie s h.0.2 (omega arith))
          ∙ broadcast-Packable cs body next h.1
          ∙ ap (λ t. (record s { trace = t }, false)) regrouped)
    where
      b : Buffer
      b = h.0.0

      packs : to j (message_for c body) ≡ some b
      packs = h.0.1

      packed_b : packed j c body ≡ b
      packed_b = rw (packs, packed) refl

      sent : List Sys
      sent = packet_to (socket_at s c.cookie) Cmd.msg b

      next : World
      next = record s { trace = s.trace ++ sent }

      regrouped :
          (s.trace ++ sent) ++ deliveries j next cs body
          ≡ s.trace
            ++ (packet_to (socket_at s c.cookie) Cmd.msg (packed j c body)
                ++ deliveries j s cs body)
      regrouped =
          ap (λ d. (s.trace ++ sent) ++ d) (deliveries-trace j s (s.trace ++ sent) cs body)
          ∙ append_assoc s.trace sent (deliveries j s cs body)
          ∙ ap
              (λ x.
                s.trace ++ (packet_to (socket_at s c.cookie) Cmd.msg x ++ deliveries j s cs body))
              (sym packed_b)
