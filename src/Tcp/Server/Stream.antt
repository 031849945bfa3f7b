-- ===== src/Tcp/Server/Stream.antt =====
-- The thread of a server's client on a stream that it reads in full.
use gologincase.Common.{
  ℕ, ◌<◌, ◌≡◌, ◌≢◌, sym, ap, subst, ◌∙◌, refl, true, false, Bool, List, [], ◌∷◌, ◌++◌, none, some,
  Buffer, Table, All, length, arith, find, put, put_same, find_erased, ==_ne,
}
use mathlib.Core.List.{append-nil}
use gologincase.Packet.{create_packet, cmd_of}
use gologincase.Packet.Stream.{Fits, stream, header_of, body_of, rest_of, stream-Fits}
use gologincase.Dispatcher.{Handler}
use gologincase.Tcp.{Connection, disconnected, shuts, closes, up, invalid_socket}
use gologincase.Tcp.Errors.{wsa_none, no_error}
use gologincase.Tcp.Session.{Answers, Received, got, recv, give_up, disconnect, destroy}
use gologincase.Tcp.Session.Receive.{recv-create_packet, recv_success}
use gologincase.Tcp.Server.{
  State, Round, Ending, waiting, lost, send_object, packet_handler, after_recv, client_round,
  client_loop,
}
use gologincase.Tcp.Server.Replies.{outcome}
use gologincase.Tcp.Server.Interleaving.Invariant.{KeepsTables}
use gologincase.Tcp.Server.Interleaving.Steps.{send_object-tables}

abbrev reads : Buffer → Answers
reads s = record {
  header = got (header_of s);
  body = got (body_of s);
  last_error = wsa_none;
  so_error = no_error;
  ioctl_done = true;
}

-- Rounds of a server that is up, one for each header's memory, that read a stream in full.
abbrev pub rounds_of : List Buffer → Buffer → List Round
rounds_of [] s = []
rounds_of (m ∷ ms) s =
    record { status = up; memory = m; answers = reads s } ∷ rounds_of ms (rest_of s)

-- `recv` of the first packet.
recv-stream :
    (c : Connection) (memory cmd body rest : Buffer)
    → length memory ≡ 32
    → Fits (cmd, body)
    → let r = recv c memory (reads (create_packet cmd body ++ rest)) in
      (r.ok ≡ true) × (cmd_of r.header ≡ some cmd) × (r.buff ≡ body) × (r.conn ≡ c) × (r.calls ≡ [])
recv-stream c memory cmd body rest m fits =
    let a = reads (create_packet cmd body ++ rest) in
    let r =
      recv-create_packet c memory cmd body rest a m fits.0 fits.1 fits.2 fits.3 (refl, refl) in
    (r.0, r.1, r.2, r.3, (recv_success c memory a r.0).3)

recv_ended :
    (c : Connection) (memory : Buffer)
    → c.socket ≢ invalid_socket
    → recv c memory (reads []) ≡ record {
      ok = false;
      header = memory;
      buff = [];
      conn = record c { status = disconnected; socket = invalid_socket };
      calls = shuts c.socket ∷ closes c.socket ∷ [];
    }
unfolding recv give_up disconnect
recv_ended c memory valid = rw (==_ne c.socket invalid_socket valid) refl

module _ {ℓ} {A : Type ℓ} (accepts : ℕ → Buffer → Bool) (hash : Buffer → ℕ)
    (handlers : Table (Handler (State A))) (cid object : ℕ) where
  -- A packet is dispatched, and what its dispatch leaves is sent back.
  abbrev serve_packet : Buffer × Buffer → State A → State A
  serve_packet p s =
      let r = outcome hash handlers cid p.0 p.1 s in
      (send_object accepts object r.cmd r.out r.state).1

  abbrev pub serve_packets : List (Buffer × Buffer) → State A → State A
  serve_packets [] s = s
  serve_packets (p ∷ ps) s = serve_packets ps (serve_packet p s)

  after_recv_packet :
      (r : Received) (c : Connection) (p : Buffer × Buffer) (s : State A)
      → find object s.objects ≡ some c
      → (r.ok ≡ true)
        × (cmd_of r.header ≡ some p.0)
        × (r.buff ≡ p.1)
        × (r.conn ≡ c)
        × (r.calls ≡ [])
      → after_recv accepts hash handlers r cid object
          (record s { objects = put object r.conn s.objects; trace = s.trace ++ r.calls })
        ≡ (waiting, serve_packet p s)
  unfolding after_recv packet_handler cmd_of send_object
  after_recv_packet r c p s found (ok, named, filled, same, silent) =
      rw (ok, named, filled, same, silent, put_same object c s.objects found, append-nil s.trace)
        refl

  client_round-stream :
      (memory : Buffer) (p : Buffer × Buffer) (rest : Buffer) (c : Connection) (s : State A)
      → find object s.objects ≡ some c
      → length memory ≡ 32
      → Fits p
      → client_round accepts hash handlers
          (record { status = up; memory = memory; answers = reads (create_packet p.0 p.1 ++ rest) })
          cid
          object
          s
        ≡ (waiting, serve_packet p s)
  unfolding client_round
  client_round-stream memory p rest c s found m fits =
      rw (found, client_round)
        (after_recv_packet (recv c memory (reads (create_packet p.0 p.1 ++ rest))) c p s found
          (recv-stream c memory p.0 p.1 rest m fits))

  -- How the thread of a connection ends that the peer has closed.
  abbrev pub Ended : Connection → State A → Ending × State A → Type ℓ
  Ended c s r =
      (r.0 ≡ lost)
      × (r.1.app ≡ s.app)
      × (r.1.trace ≡ s.trace ++ shuts c.socket ∷ closes c.socket ∷ [])
      × (find cid r.1.client_list ≡ none)
      × (find object r.1.objects ≡ none)

  client_round-Ended :
      (memory : Buffer) (c : Connection) (s : State A)
      → find object s.objects ≡ some c
      → c.socket ≢ invalid_socket
      → Ended c s (
          client_round accepts hash handlers
            (record { status = up; memory = memory; answers = reads [] })
            cid
            object
            s)
  unfolding client_round after_recv destroy
  client_round-Ended memory c s found valid =
      rw (found, client_round, recv_ended c memory valid)
        (refl, refl, append-nil _, find_erased cid s.client_list, find_erased object _)

  -- A round that ends the loop, and one after which it goes on.
  client_loop_last :
      (r : Round) (rounds : List Round) (s : State A)
      → (client_round accepts hash handlers r cid object s).0 ≡ lost
      → client_loop accepts hash handlers (r ∷ rounds) cid object s
        ≡ client_round accepts hash handlers r cid object s
  unfolding client_loop
  client_loop_last r rounds s h = ground (arith, h)

  client_loop_next :
      (r : Round) (rounds : List Round) (s next : State A)
      → client_round accepts hash handlers r cid object s ≡ (waiting, next)
      → client_loop accepts hash handlers (r ∷ rounds) cid object s
        ≡ client_loop accepts hash handlers rounds cid object next
  unfolding client_loop
  client_loop_next r rounds s next h =
      rw (h, client_loop)
        (ap (λ (q : Ending × State A). client_loop accepts hash handlers rounds cid object q.1) h)

  serve_packet-objects :
      (p : Buffer × Buffer) (s : State A)
      → KeepsTables hash handlers
      → (serve_packet p s).objects ≡ s.objects
  serve_packet-objects p s keeps =
      let r = outcome hash handlers cid p.0 p.1 s in
      ap (λ (t : Table ℕ × Table Connection). t.1)
        (send_object-tables accepts object r.cmd r.out r.state
          ∙ keeps p.0 (record { server_client_id = cid }) p.1 [] s)

  module _ (keeps : KeepsTables hash handlers) (c : Connection)
      (valid : c.socket ≢ invalid_socket) where
    -- While the server is up and the system answers the reads of a client in full, on a
    -- stream of packets that fit a header, of which the handlers leave the tables as they are: the
    -- thread serves each packet once and in order. At the end of the stream it ends; the socket has been
    -- closed once, and no table has the client.
    pub client_loop-stream :
        (ps : List (Buffer × Buffer)) (ms : List Buffer) (s : State A)
        → find object s.objects ≡ some c
        → All Fits ps
        → All (λ m. length m ≡ 32) ms
        → length ps < length ms
        → Ended c
            (serve_packets ps s)
            (client_loop accepts hash handlers (rounds_of ms (stream ps)) cid object s)
    client_loop-stream ps [] s found fits full enough = absurd (omega arith)
    client_loop-stream [] (m ∷ ms) s found fits full enough =
        let last = client_round-Ended m c s found valid in
        subst (Ended c s) (sym (client_loop_last _ (rounds_of ms (rest_of [])) s last.0)) last
    client_loop-stream (p ∷ ps) (m ∷ ms) s found fits full enough =
        let first = stream-Fits p.0 p.1 (stream ps) fits.0 in
        let next = serve_packet p s in
        let rest =
          client_loop-stream ps ms next (ap (find object) (serve_packet-objects p s keeps) ∙ found)
            fits.1 full.1 (omega arith) in
        subst (Ended c (serve_packets ps next))
          (sym (
            client_loop_next _ _ s next
              (client_round-stream m p (stream ps) c s found full.0 fits.0)
            ∙ ap (λ b. client_loop accepts hash handlers (rounds_of ms b) cid object next) first.4))
          rest
