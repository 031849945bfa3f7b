-- ===== src/Tcp/Session.antt =====
-- `server_client` of src/tcp/server: one connection on the server's side.
pub mod Receive
pub mod Failures
use gologincase.Common.{
  ℕ, Bool, true, false, not, List, [], ◌∷◌, ◌++◌, Buffer, take, replicate, ◌==◌, if◌then◌else◌,
}
use gologincase.Packet.{header_size, write_at, size_of}
use gologincase.Tcp.{
  Connection, Sys, shuts, closes, Status, connected, disconnected, invalid_socket, client,
}
use gologincase.Tcp.Errors.{
  WsaError, Errno, no_error, eagain, etimedout, econnreset, epipe, get_last_error,
}

-- The constructor.
unfoldable pub create : ℕ → Connection
create socket = record { socket = socket; id = []; type = client; status = connected }

-- The destructor.
unfoldable pub destroy : Connection → List Sys
destroy c = if c.socket == invalid_socket then [] else shuts c.socket ∷ closes c.socket ∷ []

unfoldable pub disconnect : Connection → Connection × List Sys
disconnect c = if c.socket == invalid_socket then (record c { status = disconnected }, []) else (
  record c { status = disconnected; socket = invalid_socket },
  shuts c.socket ∷ closes c.socket ∷ [],
)

-- What `::recv` delivers: bytes, none of them at the end of the stream, or -1.
pub data Delivery : Type 0 where
  got : Buffer → Delivery
  failed : Delivery

-- The answers of the system to one `recv`: to the reads of the header and of the body, and, if the
-- first fails, to `WSAGetLastError`, `getsockopt(SO_ERROR)` and `ioctlsocket`.
pub record Answers : Type 0 where
  pub header : Delivery
  pub body : Delivery
  pub last_error : WsaError
  pub so_error : Errno
  pub ioctl_done : Bool

-- What `recv` returns, the header and the buffer that it fills, the connection and its calls.
pub record Received : Type 0 where
  pub ok : Bool
  pub header : Buffer
  pub buff : Buffer
  pub conn : Connection
  pub calls : List Sys

-- The bytes of a read of `n` bytes into memory.
unfoldable pub fill : ℕ → Buffer → Buffer → Buffer
fill n bytes mem = write_at 0 (take n bytes) mem

-- From the test of `_header.size` on. The result of the read of the body is not compared with the
-- size: a short body leaves the zeros of `resize`.
unfoldable pub read_body : Delivery → Connection → Buffer → Received
read_body answer c header =
    if size_of header == 0
    then record { ok = false; header = header; buff = []; conn = c; calls = [] }
    else (let zeros = replicate (size_of header) 0 in
        elim answer [
          | got bytes ↦ record {
            ok = true;
            header = header;
            buff = fill (size_of header) bytes zeros;
            conn = c;
            calls = [];
          }
          | failed ↦ record { ok = false; header = header; buff = zeros; conn = c; calls = [] }
        ])

unfoldable pub give_up : Connection → Buffer → Received
give_up c header =
    let (d, calls) = disconnect c in
    record { ok = false; header = header; buff = []; conn = d; calls = calls }

-- The `switch`. The three named errors run on into the default case, which disconnects again.
unfoldable pub after_error : Errno → Delivery → Connection → Buffer → Received
after_error no_error answer c header = read_body answer c header
after_error eagain answer c header = record {
  ok = false;
  header = header;
  buff = [];
  conn = c;
  calls = [];
}
after_error etimedout answer c header =
    let (d, first) = disconnect c in
    let r = give_up d header in record r { calls = first ++ r.calls }
after_error econnreset answer c header =
    let (d, first) = disconnect c in
    let r = give_up d header in record r { calls = first ++ r.calls }
after_error epipe answer c header =
    let (d, first) = disconnect c in
    let r = give_up d header in record r { calls = first ++ r.calls }
after_error _ answer c header = give_up c header

unfoldable pub or_so_error : Errno → Errno → Errno
or_so_error no_error e = e
or_so_error e _ = e

-- By what the read of the header returns: 0, -1 or a number of bytes.
unfoldable pub after_header : Delivery → Connection → Buffer → Answers → Received
after_header (got []) c memory a = give_up c memory
after_header (got (b ∷ bytes)) c memory a = read_body a.body c (fill header_size (b ∷ bytes) memory)
after_header failed c memory a =
    if a.ioctl_done
    then after_error (or_so_error (get_last_error a.last_error) a.so_error) a.body c memory
    else record { ok = false; header = memory; buff = []; conn = c; calls = [] }

-- `recv`. `memory` is what the header's 32 bytes hold before: it is not initialised.
unfoldable pub recv : Connection → Buffer → Answers → Received
unfolding after_header
recv c memory a = after_header a.header c memory a
