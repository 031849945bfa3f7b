-- ===== src/Chat/Delivery.antt =====
-- What one registered client is sent of a message.
use gologincase.Common.{
  ℕ, ◌%◌, ◌^◌, ◌<◌, ◌≡◌, ◌≢◌, refl, sym, ap, ◌∙◌, Bool, true, List, [], ◌∷◌, ◌++◌, some, Buffer,
  Table, find, values, arith, is_some, ◌==◌, Bool-cases, inl, inr,
}
use mathlib.Core.List.{append_assoc}
use native.Mathlib.Decide.{dec_lt}
use gologincase.Packet.{cmd_of}
use gologincase.Messages.Json.{Json, JsonLaws, from}
use gologincase.Messages.RoundTrip.{from-to, server_msg_request-IsLawful}
use gologincase.Messages.Commands as Cmd
use gologincase.Messages.Client
use gologincase.Messages.Client.{client_msg_request_message}
use gologincase.Messages.Server.{server_msg_request_message, server_msg_response_message}
use gologincase.Provider.{AuthClient}
use gologincase.Provider.Invariant.{Inv, find-IsEntry}
use gologincase.Dispatcher.{Handler, wrap_request}
use gologincase.Tcp.{Sys}
use gologincase.Tcp.Server.{packet_handler}
use gologincase.Tcp.Server.Replies.{socket_at, socket_of, packet_to}
use gologincase.Chat.{World, message_for, client_message_packet_handler}
use gologincase.Chat.Commands.{Serves}
use gologincase.Chat.Broadcast.{packed, deliveries, entry-Packable}
use gologincase.Chat.Message.{said, message_packet}

-- A list of calls has some in its midst.
abbrev pub Contains : List Sys → List Sys → Type 0
Contains all part = (before : List Sys) × (after : List Sys) × (all ≡ before ++ (part ++ after))

Contains-append :
    (first all last part : List Sys)
    → Contains all part
    → Contains (first ++ all) part × Contains (all ++ last) part
Contains-append first all last part (before, after, e) = (
  (
    first ++ before,
    after,
    ap (λ l. first ++ l) e ∙ sym (append_assoc first before (part ++ after)),
  ),
  (
    before,
    after ++ last,
    ap (λ l. l ++ last) e
        ∙ append_assoc before (part ++ after) last
        ∙ ap (λ l. before ++ l) (append_assoc part after last),
  ),
)

module _ (j : Json) (s : World) (body : Buffer) where
  deliveries-Contains :
      (t : Table AuthClient) (k : ℕ) (m : AuthClient)
      → find k t ≡ some m
      → Contains
          (deliveries j s (values t) body)
          (packet_to (socket_at s m.cookie) Cmd.msg (packed j m body))
  unfolding find deliveries
  deliveries-Contains [] k m h = absurd (cc h)
  deliveries-Contains ((i, c) ∷ t) k m h = elim (Bool-cases (i == k)) [
    | inl same ↦
        (let here : c ≡ m = cc (rw same at h) in
          (
            [],
            deliveries j s (values t) body,
            ap
                (λ (x : AuthClient).
                  packet_to (socket_at s x.cookie) Cmd.msg (packed j x body)
                  ++ deliveries j s (values t) body)
                here,
          ))
    | inr other ↦
        (Contains-append (packet_to (socket_at s c.cookie) Cmd.msg (packed j c body))
          (deliveries j s (values t) body) [] _ (deliveries-Contains t k m (rw other at h))).0
  ]

module _ (j : Json) (is_utf8 : Buffer → Bool) (laws : JsonLaws j is_utf8)
    (accepts : ℕ → Buffer → Bool) (s : World) (v : Inv s.app.provider)
    (login_utf8 : is_utf8 s.app.provider.client_login ≡ true) where
  -- The text for a registered client is not empty, and is read back as its message.
  pub packed-message_for :
      (k : ℕ) (m : AuthClient) (body : Buffer)
      → find k s.app.provider.clients ≡ some m
      → k < 2 ^ 64
      → is_utf8 body ≡ true
      → (from j (packed j m body) ≡ some (message_for m body)) × (packed j m body ≢ [])
  unfolding packed message_for
  packed-message_for k m body found fit b =
      let entry =
        find-IsEntry s.app.provider.client_login k s.app.provider.clients m v.entries found in
      let (text, packs, ne) =
        entry-Packable j is_utf8 laws s.app.provider.client_login k m body entry login_utf8 b in
      rw (packs, packed)
        (
          from-to j is_utf8 laws server_msg_request-IsLawful (message_for m body) text
              (ground (arith, entry.keyed)) packs,
          ne,
        )

  module _ (hash : Buffer → ℕ) (t : Table (Handler World))
      (serves : Serves hash t Cmd.msg
        (wrap_request j (client_message_packet_handler j accepts))) where
    -- The message of a registered client is sent to each registered client.
    pub message_packet-Contains :
        (cid : ℕ) (header input : Buffer) (object : ℕ) (request : Client.MsgRequest) (k : ℕ)
        (m : AuthClient)
        → cmd_of header ≡ some Cmd.msg
        → from j input ≡ some request
        → is_utf8 request.body ≡ true
        → request.id < 2 ^ 64
        → is_some (find request.id s.app.provider.clients) ≡ true
        → find k s.app.provider.clients ≡ some m
        → (next : World) × (packet_handler accepts hash t cid header input object s ≡ some next)
          × Contains next.trace (packet_to (socket_at s m.cookie) Cmd.msg (packed j m request.body))
    unfolding said
    message_packet-Contains cid header input object request k m h e b fit registered found =
        let result =
          message_packet j is_utf8 laws accepts s v login_utf8 hash t serves cid header input object
            request h e b fit in
        elim (dec_lt (request.id % 256) 128) [
          | no stray ↦ (said j s request, result.0 (omega arith), sent)
          | yes ascii ↦
              (let (reply, read, handled) = result.1 ascii in
                (
                  record (said j s request) {
                    trace =
                        (said j s request).trace
                        ++ packet_to (socket_of s object) Cmd.msg_reply reply;
                  },
                  handled,
                  (Contains-append [] (said j s request).trace _ _ sent).1,
                ))
        ]
      where
        said-trace :
            (said j s request).trace
            ≡ s.trace ++ deliveries j s (values s.app.provider.clients) request.body
        said-trace = rw registered refl

        sent :
            Contains
              (said j s request).trace
              (packet_to (socket_at s m.cookie) Cmd.msg (packed j m request.body))
        sent =
            rw said-trace
              (Contains-append s.trace _ [] _
                (deliveries-Contains j s request.body s.app.provider.clients k m found)).0
