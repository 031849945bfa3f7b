-- ===== src/Tcp/Errors.antt =====
-- `get_last_error` of src/tcp/core/core.hpp, in the Windows build.

-- What `WSAGetLastError` returns, by the name of its constant; `other_wsa` is any code that the
-- switch does not name.
pub data WsaError : Type 0 where
  wsa_none wsaeintr wsaeinval wsa_invalid_handle wsa_not_enough_memory : WsaError
  wsa_invalid_parameter wsaenametoolong wsaenotempty wsaewouldblock wsaeinprogress : WsaError
  wsaealready wsaenotsock wsaedestaddrreq wsaemsgsize wsaeprototype wsaenoprotoopt : WsaError
  wsaeprotonosupport wsaeopnotsupp wsaeafnosupport wsaeaddrinuse wsaeaddrnotavail : WsaError
  wsaenetdown wsaenetunreach wsaenetreset wsaeconnaborted wsaeconnreset wsaenobufs : WsaError
  wsaeisconn wsaenotconn wsaetimedout wsaeconnrefused wsaeloop wsaehostunreach : WsaError
  other_wsa : WsaError

-- The error numbers of the C library, by name; `other` is any that the program does not name.
pub data Errno : Type 0 where
  no_error eintr einval ebadf enomem enametoolong enotempty eagain einprogress ealready : Errno
  enotsock edestaddrreq emsgsize eprototype enoprotoopt eprotonosupport eopnotsupp : Errno
  eafnosupport eaddrinuse eaddrnotavail enetdown enetunreach enetreset econnaborted : Errno
  econnreset enobufs eisconn enotconn etimedout econnrefused eloop ehostunreach eio epipe : Errno
  other : Errno

unfoldable pub get_last_error : WsaError → Errno
get_last_error wsa_none = no_error
get_last_error wsaeintr = eintr
get_last_error wsaeinval = einval
get_last_error wsa_invalid_handle = ebadf
get_last_error wsa_not_enough_memory = enomem
get_last_error wsa_invalid_parameter = einval
get_last_error wsaenametoolong = enametoolong
get_last_error wsaenotempty = enotempty
get_last_error wsaewouldblock = eagain
get_last_error wsaeinprogress = einprogress
get_last_error wsaealready = ealready
get_last_error wsaenotsock = enotsock
get_last_error wsaedestaddrreq = edestaddrreq
get_last_error wsaemsgsize = emsgsize
get_last_error wsaeprototype = eprototype
get_last_error wsaenoprotoopt = enoprotoopt
get_last_error wsaeprotonosupport = eprotonosupport
get_last_error wsaeopnotsupp = eopnotsupp
get_last_error wsaeafnosupport = eafnosupport
get_last_error wsaeaddrinuse = eaddrinuse
get_last_error wsaeaddrnotavail = eaddrnotavail
get_last_error wsaenetdown = enetdown
get_last_error wsaenetunreach = enetunreach
get_last_error wsaenetreset = enetreset
get_last_error wsaeconnaborted = econnaborted
get_last_error wsaeconnreset = econnreset
get_last_error wsaenobufs = enobufs
get_last_error wsaeisconn = eisconn
get_last_error wsaenotconn = enotconn
get_last_error wsaetimedout = etimedout
get_last_error wsaeconnrefused = econnrefused
get_last_error wsaeloop = eloop
get_last_error wsaehostunreach = ehostunreach
get_last_error other_wsa = eio
