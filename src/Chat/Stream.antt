-- ===== src/Chat/Stream.antt =====
-- A whole connection of the server application: a client connects, sends packets, and closes.
use gologincase.Common.{
  ℕ, ◌<◌, ◌≡◌, ◌≢◌, Bool, List, some, Buffer, Table, All, length, emplace, put, find-put, arith,
}
use gologincase.Packet.Stream.{Fits, stream}
use gologincase.Messages.Json.{Json}
use gologincase.Dispatcher.{Handler}
use gologincase.Tcp.{invalid_socket}
use gologincase.Tcp.Session.{create}
use gologincase.Tcp.Server.{client_handler}
use gologincase.Tcp.Server.Stream.{rounds_of, serve_packets, Ended, client_loop-stream}
use gologincase.Chat.{World, create_dispatcher}
use gologincase.Chat.Listed.{create_dispatcher-KeepsTables}

module _ (j : Json) (accepts : ℕ → Buffer → Bool) (engine : ℕ → ℕ → ℕ) (hash : Buffer → ℕ)
    (t : Table (Handler World)) (made : create_dispatcher j accepts engine hash ≡ some t) where
  -- The server application after a client has connected.
  abbrev pub connected : ℕ → ℕ → World → World
  connected socket object s = record s {
    objects = put object (create socket) s.objects;
    client_list = emplace socket object s.client_list;
  }

  -- A client of the server application sends any packets that fit a header, and closes the connection;
  -- its socket is valid, the server stays up, and the system answers its reads in full. Then its thread
  -- serves each packet once and in order, and ends: the socket has then been closed once, and no table
  -- has the client.
  pub client_handler-stream :
      (socket object : ℕ) (ps : List (Buffer × Buffer)) (ms : List Buffer) (s : World)
      → socket ≢ invalid_socket
      → All Fits ps
      → All (λ m. length m ≡ 32) ms
      → length ps < length ms
      → Ended accepts hash t socket object
          (create socket)
          (serve_packets accepts hash t socket object ps (connected socket object s))
          (client_handler accepts hash t socket (rounds_of ms (stream ps)) object s)
  unfolding client_handler create
  client_handler-stream socket object ps ms s valid fits full enough =
      client_loop-stream accepts hash t socket object
        (create_dispatcher-KeepsTables j accepts engine hash t made) (create socket) valid ps ms
        (connected socket object s)
        (ground (arith, find-put object object (create socket) s.objects)) fits full enough
