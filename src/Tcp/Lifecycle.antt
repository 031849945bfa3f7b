-- ===== src/Tcp/Lifecycle.antt =====
-- `server` of src/tcp/server: its start and stop, and the thread that accepts clients.
pub mod Threads
use gologincase.Common.{
  ℕ, Table, Bool, true, false, not, ◌&&◌, ◌||◌, List, [], ◌∷◌, ◌++◌, if◌then◌else◌, ◌==◌,
}
use gologincase.Tcp.{
  ServerStatus, up, init_error, bind_error, listening_error, close, is_up, Sys, opens, shuts,
  closes, invalid_socket,
}

-- The fields of the server that these functions change; `joinable` is that of `m_handler_thread`,
-- `client_threads` holds the sockets of the threads in `m_client_handler_threads`, and `client_list` is
-- `m_client_list`.
pub record Life : Type 0 where
  pub status : ServerStatus
  pub socket : ℕ
  pub joinable : Bool
  pub client_threads : List ℕ
  pub client_list : Table ℕ
  pub trace : List Sys

-- How a call ends: it returns, `join` throws on a thread that is not joinable, or the assignment to
-- a thread that is joinable terminates the program.
pub data End : Type 0 where
  returns throws terminates : End

-- The constructor. The socket is not initialised.
unfoldable pub create : ℕ → Life
create socket = record {
  status = close;
  socket = socket;
  joinable = false;
  client_threads = [];
  client_list = [];
  trace = [];
}

-- The joins wait until the threads have ended.
unfoldable pub stop : Life → End × Life
stop l =
    let closed = record l { status = close; trace = l.trace ++ closes l.socket ∷ [] } in
    if l.joinable
    then (returns, record closed { joinable = false; client_threads = []; client_list = [] })
    else (throws, closed)

-- The answers to `::socket`, `::setsockopt`, `::bind` and `::listen`: the first is a socket, and the
-- others tell whether the call succeeded.
pub record StartAnswers : Type 0 where
  pub socket : ℕ
  pub option_set : Bool
  pub bound : Bool
  pub listening : Bool

-- `start` from the call of `::socket` on.
unfoldable pub start_closed : StartAnswers → Life → End × Life
start_closed a l =
    if a.socket == invalid_socket
    then (returns, record l { socket = a.socket; status = init_error })
    else (let opened = record l { socket = a.socket; trace = l.trace ++ opens a.socket ∷ [] } in
        if not a.option_set || not a.bound
        then (returns, record opened { status = bind_error })
        else if not a.listening
        then (returns, record opened { status = listening_error })
        else if l.joinable
        then (terminates, record opened { status = up })
        else (returns, record opened { status = up; joinable = true }))

after_stop : StartAnswers → End × Life → End × Life
after_stop a (returns, l) = start_closed a l
after_stop a (e, l) = (e, l)

unfoldable pub start : StartAnswers → Life → End × Life
unfolding after_stop
start a l = if is_up l.status then after_stop a (stop l) else start_closed a l

-- The destructor.
unfoldable pub destroy : Life → End × Life
destroy l = if is_up l.status then stop l else (returns, l)

-- One round of `handler_thread_routine`: the status at the test of the loop, what `::accept`
-- returns, the status after that, and whether `::setsockopt` and `::WSAIoctl` succeed.
pub record Accepted : Type 0 where
  pub status : ServerStatus
  pub socket : ℕ
  pub status_after : ServerStatus
  pub option_set : Bool
  pub ioctl_done : Bool

unfoldable pub set_keep_alive : Accepted → Bool
set_keep_alive a = if not a.option_set then false else if not a.ioctl_done then false else true

-- The body of the loop. After a failed `set_keep_alive` the thread is started all the same.
unfoldable pub accept_client : Accepted → Life → Life
accept_client a l =
    if not (a.socket == 0) && is_up a.status_after
    then if a.socket == invalid_socket
      then l
      else (let kept =
            if set_keep_alive a
            then l
            else record l { trace = l.trace ++ shuts a.socket ∷ closes a.socket ∷ [] } in
          record kept { client_threads = kept.client_threads ++ a.socket ∷ [] })
    else l

unfoldable pub handler_thread_routine : List Accepted → Life → Life
handler_thread_routine [] l = l
handler_thread_routine (a ∷ rounds) l =
    let rest = handler_thread_routine rounds (accept_client a l) in
    if is_up a.status then rest else l
