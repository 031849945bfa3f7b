-- ===== src/Messages/Client.antt =====
-- The messages of `namespace client` in src/messages/messages.hpp.
use gologincase.Common.{ℕ, [], ◌∷◌, some, Buffer, codes, ◌>>=◌}
use gologincase.Messages.Json.{Message, uint, text}

pub record HelloRequest : Type 0 where
  pub id : ℕ
  pub command : Buffer

instance abbrev pub client_hello_request_message : Message HelloRequest
client_hello_request_message = record {
  blank = record { id = 0; command = [] };
  members = λ m. (codes "id", uint m.id) ∷ (codes "command", text m.command) ∷ [];
  read = λ as_uint as_text. do
    id ← as_uint (codes "id")
    command ← as_text (codes "command")
    some (record { id = id; command = command });
  command = λ m. m.command;
}

pub record ByeRequest : Type 0 where
  pub id : ℕ
  pub command : Buffer
  pub session : Buffer

instance abbrev pub client_bye_request_message : Message ByeRequest
client_bye_request_message = record {
  blank = record { id = 0; command = []; session = [] };
  members = λ m.
      (codes "id", uint m.id)
      ∷ (codes "command", text m.command)
      ∷ (codes "session", text m.session)
      ∷ [];
  read = λ as_uint as_text. do
    id ← as_uint (codes "id")
    command ← as_text (codes "command")
    session ← as_text (codes "session")
    some (record { id = id; command = command; session = session });
  command = λ m. m.command;
}

pub record PingRequest : Type 0 where
  pub id : ℕ
  pub command : Buffer
  pub session : Buffer

instance abbrev pub client_ping_request_message : Message PingRequest
client_ping_request_message = record {
  blank = record { id = 0; command = []; session = [] };
  members = λ m.
      (codes "id", uint m.id)
      ∷ (codes "command", text m.command)
      ∷ (codes "session", text m.session)
      ∷ [];
  read = λ as_uint as_text. do
    id ← as_uint (codes "id")
    command ← as_text (codes "command")
    session ← as_text (codes "session")
    some (record { id = id; command = command; session = session });
  command = λ m. m.command;
}

pub record AuthRequest : Type 0 where
  pub id : ℕ
  pub command : Buffer
  pub login : Buffer
  pub password : Buffer

instance abbrev pub client_auth_request_message : Message AuthRequest
client_auth_request_message = record {
  blank = record { id = 0; command = []; login = []; password = [] };
  members = λ m.
      (codes "id", uint m.id)
      ∷ (codes "command", text m.command)
      ∷ (codes "login", text m.login)
      ∷ (codes "password", text m.password)
      ∷ [];
  read = λ as_uint as_text. do
    id ← as_uint (codes "id")
    command ← as_text (codes "command")
    login ← as_text (codes "login")
    password ← as_text (codes "password")
    some (record { id = id; command = command; login = login; password = password });
  command = λ m. m.command;
}

pub record MsgRequest : Type 0 where
  pub id : ℕ
  pub command : Buffer
  pub body : Buffer
  pub session : Buffer

instance abbrev pub client_msg_request_message : Message MsgRequest
client_msg_request_message = record {
  blank = record { id = 0; command = []; body = []; session = [] };
  members = λ m.
      (codes "id", uint m.id)
      ∷ (codes "command", text m.command)
      ∷ (codes "body", text m.body)
      ∷ (codes "session", text m.session)
      ∷ [];
  read = λ as_uint as_text. do
    id ← as_uint (codes "id")
    command ← as_text (codes "command")
    body ← as_text (codes "body")
    session ← as_text (codes "session")
    some (record { id = id; command = command; body = body; session = session });
  command = λ m. m.command;
}

pub record MsgResponse : Type 0 where
  pub id : ℕ
  pub command : Buffer
  pub status : Buffer
  pub client_id : Buffer
  pub message : Buffer

instance abbrev pub client_msg_response_message : Message MsgResponse
client_msg_response_message = record {
  blank = record { id = 0; command = []; status = []; client_id = []; message = [] };
  members = λ m.
      (codes "id", uint m.id)
      ∷ (codes "command", text m.command)
      ∷ (codes "status", text m.status)
      ∷ (codes "client_id", text m.client_id)
      ∷ (codes "message", text m.message)
      ∷ [];
  read = λ as_uint as_text. do
    id ← as_uint (codes "id")
    command ← as_text (codes "command")
    status ← as_text (codes "status")
    client_id ← as_text (codes "client_id")
    message ← as_text (codes "message")
    some (record {
      id = id;
      command = command;
      status = status;
      client_id = client_id;
      message = message;
    });
  command = λ m. m.command;
}
