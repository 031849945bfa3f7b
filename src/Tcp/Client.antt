-- ===== src/Tcp/Client.antt =====
-- src/tcp/client: the connection of the client program.
pub mod Connections
pub mod Stream
use gologincase.Common.{
  ℕ, Bool, true, false, not, List, [], ◌∷◌, ◌++◌, Buffer, Table, replicate, if◌then◌else◌, ◌==◌,
  Option, none, some, ◌>>=◌,
}
use gologincase.Packet.{header_size, size_of, cmd_of}
use gologincase.Provider.{Cookies}
use gologincase.Dispatcher.{Handler, dispatch}
use gologincase.Tcp.{
  Connection, Status, connected, init_error, connect_error, disconnected, is_connected, Sys, opens,
  shuts, closes, invalid_socket, client,
}
use gologincase.Tcp.Session.{Delivery, got, failed, fill}

-- `joinable` is that of `m_handler_thread`.
pub record Client : Type 0 where
  pub conn : Connection
  pub joinable : Bool
  pub trace : List Sys

-- The constructor. The socket is not initialised.
unfoldable pub create : ℕ → Client
create socket = record {
  conn = record { socket = socket; id = []; type = client; status = disconnected };
  joinable = false;
  trace = [];
}

abbrev with_status : Status → Client → Client
with_status status c = record c { conn = record c.conn { status = status } }

-- The answers to `::socket`, `::getaddrinfo` and `::connect`.
pub record ConnectAnswers : Type 0 where
  pub socket : ℕ
  pub resolved : Bool
  pub connected : Bool

-- The last part of `connect`: the thread is started. `false`: the old thread is joinable, and the
-- assignment terminates the program.
unfoldable pub start_thread : Client → Client × Bool
start_thread c = (record (with_status connected c) { joinable = true }, not c.joinable)

-- `connect`. A host that is not resolved is not an error: the status becomes `connected`.
unfoldable pub connect : ConnectAnswers → Client → Client × Bool
connect a c =
    if is_connected c.conn.status
    then (c, true)
    else if a.socket == invalid_socket
    then (with_status init_error (record c { conn = record c.conn { socket = a.socket } }), true)
    else (let opened = record c {
      conn = record c.conn { socket = a.socket };
      trace = c.trace ++ opens a.socket ∷ [];
    } in
        if a.resolved
        then if not a.connected
          then (
            with_status connect_error
                (record opened { trace = opened.trace ++ closes a.socket ∷ [] }),
            true,
          )
          else start_thread opened
        else start_thread opened)

-- `disconnect`. The join waits until the thread has ended.
unfoldable pub disconnect : Client → Client
disconnect c =
    if is_connected c.conn.status
    then record (with_status disconnected c) {
      joinable = false;
      trace = c.trace ++ shuts c.conn.socket ∷ closes c.conn.socket ∷ [];
    }
    else c

-- The destructor. A join waits until the thread has ended.
unfoldable pub destroy : Client → Client
destroy c =
    let closed = disconnect c in
    if closed.joinable then record closed { joinable = false } else closed

-- What `recv` returns, and the header and the buffer that it fills.
pub record Received : Type 0 where
  pub ok : Bool
  pub header : Buffer
  pub buff : Buffer

unfoldable pub read_body : Delivery → Buffer → Received
read_body answer header =
    if size_of header == 0
    then record { ok = false; header = header; buff = [] }
    else (let zeros = replicate (size_of header) 0 in
        elim answer [
          | got bytes ↦ record {
            ok = true;
            header = header;
            buff = fill (size_of header) bytes zeros;
          }
          | failed ↦ record { ok = false; header = header; buff = zeros }
        ])

-- `recv`: of the header only the end of the stream is told apart, so that a failed read goes on
-- with what the memory of the header holds.
unfoldable pub recv : Buffer → Delivery → Delivery → Received
recv memory (got []) body = record { ok = false; header = memory; buff = [] }
recv memory (got (b ∷ bytes)) body = read_body body (fill header_size (b ∷ bytes) memory)
recv memory failed body = read_body body memory

-- One round of the thread: the status at the test of the loop, what the memory of the header holds,
-- and the answers to the two reads.
pub record Round : Type 0 where
  pub status : Status
  pub memory : Buffer
  pub header : Delivery
  pub body : Delivery

module _ {ℓ} {S : Type ℓ} (hash : Buffer → ℕ) (handlers : Table (Handler S)) where
  -- What the thread does with a packet; the output of the handler is dropped. `none`: the type of
  -- the header has no terminator, and the program reads past it.
  unfoldable pub handle_packet : ℕ → Received → S → Option S
  handle_packet socket r s =
      if r.ok
      then (do
        cmd ← cmd_of r.header
        some
            (dispatch hash handlers cmd (record { server_client_id = socket }) r.buff [] s).0.state)
      else some s

  -- The loop of the thread that `connect` starts. It looks at nothing but the status, so that it
  -- goes on after a failed read. `some (s, true)`: it has left the loop.
  unfoldable pub thread_loop : ℕ → List Round → S → Option (S × Bool)
  thread_loop socket [] s = some (s, false)
  thread_loop socket (r ∷ rounds) s =
      if is_connected r.status
      then (do
        next ← handle_packet socket (recv r.memory r.header r.body) s
        thread_loop socket rounds next)
      else some (s, true)
