-- ===== src/Examples/Sockets.antt =====
-- Connections and threads.
use gologincase.Common.{
  ℕ, ◌+◌, ◌≡◌, ◌≢◌, ◌↔◌, refl, true, false, List, [], ◌∷◌, ◌++◌, none, some, Buffer, Table, find,
  codes, arith, take, drop, replicate, keep,
}
use gologincase.Packet.{create_packet, size_of, cmd_of}
use gologincase.Packet.Header.{NoNul}
use gologincase.Messages.Commands as Cmd
use gologincase.Tcp.{closes, Connection, up, close, is_connected, invalid_socket, opens, is_up}
use gologincase.Tcp.Errors.{wsa_none, wsaeconnreset, no_error}
use gologincase.Tcp.Session as Session
use gologincase.Tcp.Session.{Answers, Received, Delivery, got, failed, recv, destroy}
use gologincase.Tcp.Session.Receive.{closed_count-recv, closed_count, recv-create_packet}
use gologincase.Tcp.Server.Members.{handle_each, find-handle_each}
use gologincase.Tcp.Lifecycle as Lifecycle
use gologincase.Tcp.Lifecycle.{
  Life, End, returns, throws, start, stop, StartAnswers, Accepted, handler_thread_routine,
}
use gologincase.Tcp.Lifecycle.Threads.{
  IsSound, perform-IsSound, start_failure, handler_thread_routine-threads, sockets, is_client,
  while_up,
}
use gologincase.Tcp.Client as Client
use gologincase.Tcp.Client.{ConnectAnswers}
use gologincase.Tcp.Client.Connections.{
  connects, disconnects, perform_all, perform_all-create, opened_count,
}
use gologincase.Tcp.Client.Connections as Connections
use gologincase.Examples.Data.{hash}

abbrev conn : Connection
conn = Session.create 7

msg-NoNul : NoNul Cmd.msg
msg-NoNul = ground arith

abbrev stream : Buffer
stream = create_packet Cmd.msg (codes "hi") ++ 9 ∷ []

abbrev in_full : Answers
in_full = record {
  header = got (take 32 stream);
  body = got (take (size_of (take 32 stream)) (drop 32 stream));
  last_error = wsa_none;
  so_error = no_error;
  ioctl_done = true;
}

recv-create_packet_example :
    let r = recv conn (replicate 32 0) in_full in
    (r.ok ≡ true) × (cmd_of r.header ≡ some Cmd.msg) × (r.buff ≡ codes "hi") × (r.conn ≡ conn)
recv-create_packet_example =
    recv-create_packet conn (replicate 32 0) Cmd.msg (codes "hi") (9 ∷ []) in_full refl
      (ground arith) (omega arith) (omega arith) msg-NoNul (refl, refl)

-- The connection has been reset.
abbrev reset : Answers
reset = record {
  header = failed;
  body = failed;
  last_error = wsaeconnreset;
  so_error = no_error;
  ioctl_done = true;
}

open_socket : conn.socket ≢ invalid_socket
unfolding Session.create
open_socket = omega arith

closed_count-recv_example :
    let r = recv conn (replicate 32 0) reset in
    closed_count conn.socket (r.calls ++ destroy r.conn) ≡ 1
closed_count-recv_example = closed_count-recv conn open_socket (replicate 32 0) reset

abbrev registrations : Table ℕ
registrations = handle_each hash ((Cmd.msg, 1) ∷ []) []

find-handle_each_example : find (hash Cmd.msg) registrations ≡ none
find-handle_each_example = find-handle_each hash ((Cmd.msg, 1) ∷ []) (hash Cmd.msg)

abbrev stopped_server : Life
stopped_server = Lifecycle.create 0

stopped_server-IsSound : IsSound stopped_server
unfolding Lifecycle.create
stopped_server-IsSound = refl

perform-IsSound_example :
    ((a : StartAnswers)
      → IsSound (start a stopped_server).1 × ((start a stopped_server).0 ≡ returns))
    × IsSound (stop stopped_server).1
    × (((stop stopped_server).0 ≡ throws) ↔ (is_up stopped_server.status ≡ false))
    × ((stop stopped_server).0 ≡ returns
        → ((stop stopped_server).1.client_list ≡ [])
          × ((stop stopped_server).1.client_threads ≡ []))
    × IsSound (Lifecycle.destroy stopped_server).1
    × ((Lifecycle.destroy stopped_server).0 ≡ returns)
perform-IsSound_example = perform-IsSound stopped_server stopped_server-IsSound

-- The port is taken.
abbrev taken : StartAnswers
taken = record { socket = 5; option_set = true; bound = false; listening = true }

is_down : is_up stopped_server.status ≡ false
unfolding Lifecycle.create
is_down = refl

start_failure_example :
    let after = (start taken stopped_server).1 in
    ((after.status ≡ up) ↔ ((true ≡ true) × (false ≡ true) × (true ≡ true)))
    × (after.trace ≡ stopped_server.trace ++ opens 5 ∷ [])
    × (after.status ≢ up
        → ((Lifecycle.destroy after).1.trace ≡ stopped_server.trace ++ opens 5 ∷ [])
          × ((Lifecycle.stop after).0 ≡ Lifecycle.throws)
          × ((Lifecycle.stop after).1.trace
              ≡ (stopped_server.trace ++ opens 5 ∷ []) ++ closes 5 ∷ []))
start_failure_example =
    start_failure taken stopped_server stopped_server-IsSound is_down (omega arith)

-- A client is accepted, whose keep-alive options cannot be set; then the server is stopped.
abbrev rounds : List Accepted
rounds =
    record { status = up; socket = 9; status_after = up; option_set = false; ioctl_done = true }
    ∷ record {
      status = close;
      socket = 10;
      status_after = up;
      option_set = true;
      ioctl_done = true;
    }
    ∷ []

handler_thread_routine-threads_example :
    (handler_thread_routine rounds stopped_server).client_threads
    ≡ stopped_server.client_threads ++ sockets (keep is_client (while_up rounds))
handler_thread_routine-threads_example = handler_thread_routine-threads rounds stopped_server

rounds_kept : sockets (keep is_client (while_up rounds)) ≡ 9 ∷ []
unfolding while_up
rounds_kept = refl

-- The host is not resolved.
abbrev unresolved : ConnectAnswers
unresolved = record { socket = 5; resolved = false; connected = true }

perform_all-create_example :
    let (c, alive) = perform_all (connects unresolved ∷ []) (Client.create 0) in
    (alive ≡ true)
    × (c.joinable ≡ is_connected c.conn.status)
    × ((n : ℕ) → opened_count n c.trace ≡ Connections.closed_count n c.trace + Connections.held n c)
    × ((Client.destroy c).joinable ≡ false)
    × ((n : ℕ)
        → opened_count n (Client.destroy c).trace
          ≡ Connections.closed_count n (Client.destroy c).trace)
perform_all-create_example = perform_all-create (connects unresolved ∷ []) 0
