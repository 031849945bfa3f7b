-- ===== src/Messages/RoundTrip.antt =====
-- A packed message is read back as it was, for each message of the protocol.
use gologincase.Common.{
  ℕ, ◌<◌, ◌^◌, ◌≡◌, ◌≢◌, refl, ◌∙◌, Bool, true, false, [], ◌∷◌, Option, none, some, Buffer, str_eq,
  str_eq_refl, All, All-map, All-map₂, arith,
}
use gologincase.Messages.Json.{
  Json, JsonLaws, Message, Field, uint, text, Members, member, to_values, get_uint, get_text, to,
  from, all_valid, has_key, proper_keys,
}
use gologincase.Messages.Client
use gologincase.Messages.Server
use gologincase.Messages.Client.{
  client_hello_request_message, client_bye_request_message, client_ping_request_message,
  client_auth_request_message, client_msg_request_message, client_msg_response_message,
}
use gologincase.Messages.Server.{
  server_hello_response_message, server_bye_response_message, server_ping_response_message,
  server_auth_response_message, server_msg_request_message, server_msg_response_message,
}

-- The getters return the values of a member.
abbrev pub Agrees : (Buffer → Option ℕ) → (Buffer → Option Buffer) → Buffer × Field → Type 0
Agrees as_uint as_text (k, uint n) = as_uint k ≡ some n
Agrees as_uint as_text (k, text s) = as_text k ≡ some s

-- A number of the message fits `std::uint64_t`.
abbrev pub Fits : Buffer × Field → Type 0
Fits (k, uint n) = n < 2 ^ 64
Fits (k, text s) = Unit {0}

-- A message type whose reader undoes `members`.
pub record IsLawful (M : Type 0) ⦃m : Message M⦄ : Type 0 where
  pub read-members :
      (x : M) (as_uint : Buffer → Option ℕ) (as_text : Buffer → Option Buffer)
      → All (Agrees as_uint as_text) (m.members x)
      → m.read as_uint as_text ≡ some x
  pub keys_proper : (x : M) → proper_keys (m.members x) ≡ true

pub client_hello_request-IsLawful : IsLawful Client.HelloRequest
unfolding str_eq
client_hello_request-IsLawful = record {
  read-members = λ x as_uint as_text h. cc;
  keys_proper = λ x. refl;
}

pub client_bye_request-IsLawful : IsLawful Client.ByeRequest
unfolding str_eq
client_bye_request-IsLawful = record {
  read-members = λ x as_uint as_text h. cc;
  keys_proper = λ x. refl;
}

pub client_ping_request-IsLawful : IsLawful Client.PingRequest
unfolding str_eq
client_ping_request-IsLawful = record {
  read-members = λ x as_uint as_text h. cc;
  keys_proper = λ x. refl;
}

pub client_auth_request-IsLawful : IsLawful Client.AuthRequest
unfolding str_eq
client_auth_request-IsLawful = record {
  read-members = λ x as_uint as_text h. cc;
  keys_proper = λ x. refl;
}

pub client_msg_request-IsLawful : IsLawful Client.MsgRequest
unfolding str_eq
client_msg_request-IsLawful = record {
  read-members = λ x as_uint as_text h. cc;
  keys_proper = λ x. refl;
}

pub client_msg_response-IsLawful : IsLawful Client.MsgResponse
unfolding str_eq
client_msg_response-IsLawful = record {
  read-members = λ x as_uint as_text h. cc;
  keys_proper = λ x. refl;
}

pub server_hello_response-IsLawful : IsLawful Server.HelloResponse
unfolding str_eq
server_hello_response-IsLawful = record {
  read-members = λ x as_uint as_text h. cc;
  keys_proper = λ x. refl;
}

pub server_bye_response-IsLawful : IsLawful Server.ByeResponse
unfolding str_eq
server_bye_response-IsLawful = record {
  read-members = λ x as_uint as_text h. cc;
  keys_proper = λ x. refl;
}

pub server_ping_response-IsLawful : IsLawful Server.PingResponse
unfolding str_eq
server_ping_response-IsLawful = record {
  read-members = λ x as_uint as_text h. cc;
  keys_proper = λ x. refl;
}

pub server_auth_response-IsLawful : IsLawful Server.AuthResponse
unfolding str_eq
server_auth_response-IsLawful = record {
  read-members = λ x as_uint as_text h. cc;
  keys_proper = λ x. refl;
}

pub server_msg_request-IsLawful : IsLawful Server.MsgRequest
unfolding str_eq
server_msg_request-IsLawful = record {
  read-members = λ x as_uint as_text h. cc;
  keys_proper = λ x. refl;
}

pub server_msg_response-IsLawful : IsLawful Server.MsgResponse
unfolding str_eq
server_msg_response-IsLawful = record {
  read-members = λ x as_uint as_text h. cc;
  keys_proper = λ x. refl;
}

module _ (j : Json) where
  -- The object that is dumped has at the key of a member the value of that member.
  abbrev Holds : Members j.Value → Buffer × Field → Type 0
  Holds vs (k, f) = member k vs ≡ some (j.of_field f)

  member-absent :
      (k : Buffer) (ms : Members Field) → has_key k ms ≡ false → member k (to_values j ms) ≡ none
  unfolding member
  member-absent k [] h = refl
  member-absent k ((i, f) ∷ ms) h = ground (arith, member-absent k ms)

  Holds-cons :
      (i : Buffer) (v : j.Value) (vs : Members j.Value) (m : Buffer × Field)
      → Holds vs m
      → Holds ((i, v) ∷ vs) m
  unfolding member
  Holds-cons i v vs (k, f) h = rw h refl

  to_values-Holds : (ms : Members Field) → proper_keys ms ≡ true → All (Holds (to_values j ms)) ms
  unfolding member
  to_values-Holds [] d = tt
  to_values-Holds ((k, f) ∷ ms) d = (
    ground (arith, member-absent k ms, str_eq_refl k),
    All-map (Holds-cons k (j.of_field f) (to_values j ms)) ms (to_values-Holds ms (ground arith)),
  )

module _ (j : Json) (is_utf8 : Buffer → Bool) (laws : JsonLaws j is_utf8) where
  Holds-Agrees :
      (vs us : Members j.Value)
      → ((k : Buffer) → member k us ≡ member k vs)
      → (m : Buffer × Field) → Holds j vs m
      → Fits m
      → Agrees (get_uint j us) (get_text j us) m
  unfolding get_uint get_text
  Holds-Agrees vs us same (k, uint n) h fit =
      rw (same k ∙ h, get_uint) (laws.as_uint-of_field n fit)
  Holds-Agrees vs us same (k, text s) h fit = rw (same k ∙ h, get_text) (laws.as_text-of_field s)

  -- The members of a packed message are read back.
  packed-Agrees :
      {M : Type 0} ⦃m : Message M⦄ (lawful : IsLawful M) (x : M) (b : Buffer)
      → All Fits (m.members x)
      → to j x ≡ some b
      → (us : Members j.Value) × (j.parse b ≡ some us)
        × All (Agrees (get_uint j us) (get_text j us)) (m.members x)
  unfolding to
  packed-Agrees ⦃m⦄ lawful x b fit packed =
      let (us, parsed, same) = laws.parse-dump (m.members x) b packed in
      (
        us,
        parsed,
        All-map₂ (Holds-Agrees (to_values j (m.members x)) us same) (m.members x)
            (to_values-Holds j (m.members x) (lawful.keys_proper x)) fit,
      )

  -- What `packer::from` reads from the output of `packer::to` is the message, for a message whose
  -- numbers fit 64 bits.
  pub from-to :
      {M : Type 0} ⦃m : Message M⦄ (lawful : IsLawful M) (x : M) (b : Buffer)
      → All Fits (m.members x)
      → to j x ≡ some b
      → from j b ≡ some x
  unfolding from
  from-to lawful x b fit packed =
      let (us, parsed, agrees) = packed-Agrees lawful x b fit packed in
      rw parsed (lawful.read-members x _ _ agrees)

  -- The answer to a login is read as the answer to a ping, without its session.
  pub from-to_ping :
      (x : Server.AuthResponse) (b : Buffer)
      → x.id < 2 ^ 64
      → to j x ≡ some b
      → let answer : Server.PingResponse = record {
        id = x.id;
        command = x.command;
        status = x.status;
        message = x.message;
      } in
        from j b ≡ some answer
  unfolding from
  from-to_ping x b fit packed =
      let (us, parsed, agrees) =
        packed-Agrees server_auth_response-IsLawful x b (fit, (tt, (tt, (tt, (tt, tt))))) packed in
      rw parsed cc

  -- `packer::to` returns a text, which is not empty, exactly for the messages whose strings are
  -- valid UTF-8; on any other message it throws.
  pub to_exact :
      {M : Type 0} ⦃m : Message M⦄ (lawful : IsLawful M) (x : M)
      → (all_valid is_utf8 (m.members x) ≡ true → (b : Buffer) × (to j x ≡ some b) × (b ≢ []))
        × (all_valid is_utf8 (m.members x) ≡ false → to j x ≡ none)
  unfolding to
  to_exact ⦃m⦄ lawful x = (written, laws.dump_invalid (m.members x) (lawful.keys_proper x))
    where
      written :
          all_valid is_utf8 (m.members x) ≡ true
          → (b : Buffer) × (j.dump (to_values j (m.members x)) ≡ some b) × (b ≢ [])
      written v =
          let (b, e) = laws.dump_valid (m.members x) (lawful.keys_proper x) v in
          (b, e, laws.dump_nonempty (m.members x) b e)
