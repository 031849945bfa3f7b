-- ===== src/Tcp.antt =====
-- src/tcp: the sockets of both programs, in the Windows build. What an operating-system call returns
-- is an argument; the calls that a function makes with an effect on a socket are listed as `Sys`.
pub mod Errors
pub mod Session
pub mod Server
pub mod Lifecycle
pub mod Client
use gologincase.Common.{
  ℕ, ◌-◌, ◌^◌, Bool, true, false, List, [], ◌∷◌, ◌++◌, Buffer, is_empty, if◌then◌else◌, ◌==◌,
}
use gologincase.Packet.{create_packet}

-- `server_traits::status`.
pub data ServerStatus : Type 0 where
  up init_error bind_error keep_alive_error listening_error close : ServerStatus

abbrev pub is_up : ServerStatus → Bool
is_up up = true
is_up _ = false

-- `client_traits::status`.
pub data Status : Type 0 where
  connected init_error bind_error connect_error disconnected : Status

abbrev pub is_connected : Status → Bool
is_connected connected = true
is_connected _ = false

-- `INVALID_SOCKET`: `SOCKET` is an unsigned 64-bit number.
abbrev pub invalid_socket : ℕ
invalid_socket = 2 ^ 64 - 1

-- `socket_traits::type`.
pub data SocketType : Type 0 where
  client server : SocketType

-- `client_base`, less the address, which nothing reads.
pub record Connection : Type 0 where
  pub socket : ℕ
  pub id : Buffer
  pub type : SocketType
  pub status : Status

-- Calls on a socket: `::socket`, `::send`, `::shutdown`, `::closesocket`.
pub data Sys : Type 0 where
  opens : ℕ → Sys
  sends : ℕ → Buffer → Sys
  shuts : ℕ → Sys
  closes : ℕ → Sys

-- `client_base::send`. `accepts` tells whether `::send` returns 0 or more.
unfoldable pub send : (ℕ → Buffer → Bool) → Connection → Buffer → Buffer → Bool × List Sys
send accepts c cmd buff =
    if is_empty buff
    then (false, [])
    else (let packet = create_packet cmd buff in
        if is_empty packet
        then (false, [])
        else (accepts c.socket packet, sends c.socket packet ∷ []))
