-- ===== src/Tcp/Client/Stream.antt =====
-- The thread of the client on a stream that it reads in full.
use gologincase.Common.{
  ℕ, ◌≤◌, ◌≡◌, sym, ap, ◌∙◌, refl, true, false, List, [], ◌∷◌, ◌++◌, some, Buffer, Table, All,
  length, replicate, arith, length-replicate,
}
use gologincase.Packet.{create_packet, size_of}
use gologincase.Packet.Stream.{Fits, stream, header_of, body_of, rest_of, rest_of_nil, stream-Fits}
use gologincase.Dispatcher.{Handler, dispatch}
use gologincase.Tcp.{connected}
use gologincase.Tcp.Session.{got}
use gologincase.Tcp.Session.Receive.{fill_exact}
use gologincase.Tcp.Client.{Round, read_body, recv, handle_packet, thread_loop}

-- Rounds of a connected client, one for each header's memory, that read a stream in full; at its end
-- a read of the header delivers nothing.
abbrev pub rounds_of : List Buffer → Buffer → List Round
rounds_of [] s = []
rounds_of (m ∷ ms) s =
    record { status = connected; memory = m; header = got (header_of s); body = got (body_of s) }
    ∷ rounds_of ms (rest_of s)

-- `recv` takes the first packet.
recv-stream :
    (memory cmd body rest : Buffer)
    → length memory ≡ 32
    → Fits (cmd, body)
    → let s = create_packet cmd body ++ rest in
      recv memory (got (header_of s)) (got (body_of s))
      ≡ record { ok = true; header = header_of s; buff = body }
unfolding read_body recv
recv-stream memory cmd body rest m fits =
    let first = stream-Fits cmd body rest fits in
    rw first.3 (by_header (header_of (create_packet cmd body ++ rest)) first.0 first.1)
  where
    by_body :
        (header : Buffer)
        → size_of header ≡ length body
        → read_body (got body) header ≡ record { ok = true; header = header; buff = body }
    by_body header sized = ground (
      arith,
      fits.0,
      fill_exact (size_of header) body (replicate (size_of header) 0) (sym sized)
          (length-replicate {A = ℕ} (size_of header) 0),
    )

    by_header :
        (header : Buffer)
        → length header ≡ 32
        → size_of header ≡ length body
        → recv memory (got header) (got body) ≡ record { ok = true; header = header; buff = body }
    by_header [] e sized = absurd (omega arith)
    by_header (b ∷ bs) e sized =
        ap (λ h. read_body (got body) h) (fill_exact 32 (b ∷ bs) memory e m)
        ∙ by_body (b ∷ bs) sized

module _ {ℓ} {S : Type ℓ} (hash : Buffer → ℕ) (handlers : Table (Handler S)) (socket : ℕ) where
  -- The packets are dispatched one after another, under the client's socket.
  abbrev pub dispatch_all : List (Buffer × Buffer) → S → S
  dispatch_all [] s = s
  dispatch_all (p ∷ ps) s =
      dispatch_all ps
        (dispatch hash handlers p.0 (record { server_client_id = socket }) p.1 [] s).0.state

  -- After the end of the stream nothing changes, and the loop goes on.
  thread_loop_ended :
      (ms : List Buffer) (s : S)
      → thread_loop hash handlers socket (rounds_of ms []) s ≡ some (s, false)
  unfolding thread_loop handle_packet recv
  thread_loop_ended [] s = refl
  thread_loop_ended (m ∷ ms) s =
      ap (λ rest. thread_loop hash handlers socket (rounds_of ms rest) s) rest_of_nil
      ∙ thread_loop_ended ms s

  -- While a client stays connected and the system answers its reads in full, on a stream of packets
  -- that fit a header: the thread dispatches each packet just once and in order, whatever the
  -- handlers are. The end of the stream does not end it: after any number of further rounds it is
  -- still in its loop, and has done nothing more.
  pub thread_loop-stream :
      (ps : List (Buffer × Buffer)) (ms : List Buffer) (s : S)
      → All Fits ps
      → All (λ m. length m ≡ 32) ms
      → length ps ≤ length ms
      → thread_loop hash handlers socket (rounds_of ms (stream ps)) s
        ≡ some (dispatch_all ps s, false)
  unfolding thread_loop handle_packet
  thread_loop-stream [] ms s fits full enough = thread_loop_ended ms s
  thread_loop-stream (p ∷ ps) [] s fits full enough = absurd (omega arith)
  thread_loop-stream (p ∷ ps) (m ∷ ms) s fits full enough =
      let first = stream-Fits p.0 p.1 (stream ps) fits.0 in
      rw (recv-stream m p.0 p.1 (stream ps) full.0 fits.0, first.2, first.4)
        (thread_loop-stream ps ms _ fits.1 full.1 (omega arith))
