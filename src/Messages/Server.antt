-- ===== src/Messages/Server.antt =====
-- The messages of `namespace server` in src/messages/messages.hpp.
use gologincase.Common.{ℕ, [], ◌∷◌, some, Buffer, codes, ◌>>=◌}
use gologincase.Messages.Json.{Message, uint, text}

pub record HelloResponse : Type 0 where
  pub id : ℕ
  pub command : Buffer
  pub auth_method : Buffer

instance abbrev pub server_hello_response_message : Message HelloResponse
server_hello_response_message = record {
  blank = record { id = 0; command = []; auth_method = [] };
  members = λ m.
      (codes "id", uint m.id)
      ∷ (codes "command", text m.command)
      ∷ (codes "auth_method", text m.auth_method)
      ∷ [];
  read = λ as_uint as_text. do
    id ← as_uint (codes "id")
    command ← as_text (codes "command")
    auth_method ← as_text (codes "auth_method")
    some (record { id = id; command = command; auth_method = auth_method });
  command = λ m. m.command;
}

pub record ByeResponse : Type 0 where
  pub id : ℕ
  pub command : Buffer
  pub status : Buffer

instance abbrev pub server_bye_response_message : Message ByeResponse
server_bye_response_message = record {
  blank = record { id = 0; command = []; status = [] };
  members = λ m.
      (codes "id", uint m.id)
      ∷ (codes "command", text m.command)
      ∷ (codes "status", text m.status)
      ∷ [];
  read = λ as_uint as_text. do
    id ← as_uint (codes "id")
    command ← as_text (codes "command")
    status ← as_text (codes "status")
    some (record { id = id; command = command; status = status });
  command = λ m. m.command;
}

pub record PingResponse : Type 0 where
  pub id : ℕ
  pub command : Buffer
  pub status : Buffer
  pub message : Buffer

instance abbrev pub server_ping_response_message : Message PingResponse
server_ping_response_message = record {
  blank = record { id = 0; command = []; status = []; message = [] };
  members = λ m.
      (codes "id", uint m.id)
      ∷ (codes "command", text m.command)
      ∷ (codes "status", text m.status)
      ∷ (codes "message", text m.message)
      ∷ [];
  read = λ as_uint as_text. do
    id ← as_uint (codes "id")
    command ← as_text (codes "command")
    status ← as_text (codes "status")
    message ← as_text (codes "message")
    some (record { id = id; command = command; status = status; message = message });
  command = λ m. m.command;
}

pub record AuthResponse : Type 0 where
  pub id : ℕ
  pub command : Buffer
  pub status : Buffer
  pub session : Buffer
  pub message : Buffer

instance abbrev pub server_auth_response_message : Message AuthResponse
server_auth_response_message = record {
  blank = record { id = 0; command = []; status = []; session = []; message = [] };
  members = λ m.
      (codes "id", uint m.id)
      ∷ (codes "command", text m.command)
      ∷ (codes "status", text m.status)
      ∷ (codes "session", text m.session)
      ∷ (codes "message", text m.message)
      ∷ [];
  read = λ as_uint as_text. do
    id ← as_uint (codes "id")
    command ← as_text (codes "command")
    status ← as_text (codes "status")
    session ← as_text (codes "session")
    message ← as_text (codes "message")
    some (record {
      id = id;
      command = command;
      status = status;
      session = session;
      message = message;
    });
  command = λ m. m.command;
}

pub record MsgRequest : Type 0 where
  pub id : ℕ
  pub command : Buffer
  pub body : Buffer
  pub sender_login : Buffer
  pub session : Buffer

instance abbrev pub server_msg_request_message : Message MsgRequest
server_msg_request_message = record {
  blank = record { id = 0; command = []; body = []; sender_login = []; session = [] };
  members = λ m.
      (codes "id", uint m.id)
      ∷ (codes "command", text m.command)
      ∷ (codes "body", text m.body)
      ∷ (codes "sender_login", text m.sender_login)
      ∷ (codes "session", text m.session)
      ∷ [];
  read = λ as_uint as_text. do
    id ← as_uint (codes "id")
    command ← as_text (codes "command")
    body ← as_text (codes "body")
    sender_login ← as_text (codes "sender_login")
    session ← as_text (codes "session")
    some (record {
      id = id;
      command = command;
      body = body;
      sender_login = sender_login;
      session = session;
    });
  command = λ m. m.command;
}

pub record MsgResponse : Type 0 where
  pub id : ℕ
  pub command : Buffer
  pub status : Buffer
  pub client_id : Buffer
  pub message : Buffer

instance abbrev pub server_msg_response_message : Message MsgResponse
server_msg_response_message = record {
  blank = record { id = 0; command = []; status = []; client_id = []; message = [] };
  members = λ m.
      (codes "id", uint m.id)
      ∷ (codes "command", text m.command)
      ∷ (codes "status", text m.status)
      ∷ (codes "client_id", text m.client_id)
      ∷ (codes "message", text m.message)
      ∷ [];
  read = λ as_uint as_text. do
    id ← as_uint (codes "id")
    command ← as_text (codes "command")
    status ← as_text (codes "status")
    client_id ← as_text (codes "client_id")
    message ← as_text (codes "message")
    some (record {
      id = id;
      command = command;
      status = status;
      client_id = client_id;
      message = message;
    });
  command = λ m. m.command;
}
