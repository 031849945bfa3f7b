-- ===== src/Tcp/Session/Failures.antt =====
-- What a failed read of a header does to the connection.
use gologincase.Common.{◌≡◌, ◌≢◌, ◌↔◌, ◌⊎◌, false, Buffer, arith}
use gologincase.Tcp.{Connection, invalid_socket}
use gologincase.Tcp.Errors.{
  WsaError, Errno, no_error, eagain, epipe, get_last_error, wsa_none, wsaewouldblock,
}
use gologincase.Tcp.Session.{
  Answers, Delivery, failed, recv, disconnect, give_up, after_error, or_so_error,
}

-- The error numbers that `recv` tells apart each stand for just one code of Windows, and none stands
-- for `epipe`.
get_last_error_lem :
    (e : WsaError)
    → ((get_last_error e ≡ no_error) ↔ (e ≡ wsa_none))
      × ((get_last_error e ≡ eagain) ↔ (e ≡ wsaewouldblock))
      × (get_last_error e ≢ epipe)
unfolding get_last_error
get_last_error_lem e = ground arith

after_error-keeps :
    (e : Errno) (body : Delivery) (c : Connection) (memory : Buffer)
    → c.socket ≢ invalid_socket
    → e ≢ no_error
    → (((after_error e body c memory).conn ≡ c) ↔ (e ≡ eagain))
      × ((after_error e body c memory).ok ≡ false)
unfolding after_error give_up disconnect
after_error-keeps e body c memory valid ne = ground arith

-- When the read of a header on a valid socket fails with an error of Windows, `recv` fails; it keeps
-- the connection as it was exactly if the error is `WSAEWOULDBLOCK` or `ioctlsocket` fails too.
pub recv_keeps :
    (c : Connection) (memory : Buffer) (a : Answers)
    → c.socket ≢ invalid_socket
    → a.header ≡ failed
    → a.last_error ≢ wsa_none
    → ((recv c memory a).ok ≡ false)
      × (((recv c memory a).conn ≡ c) ↔ ((a.last_error ≡ wsaewouldblock) ⊎ (a.ioctl_done ≡ false)))
unfolding recv or_so_error
recv_keeps c memory a valid fails error = ground (
  arith,
  get_last_error_lem a.last_error,
  after_error-keeps (get_last_error a.last_error) a.body c memory valid,
)
