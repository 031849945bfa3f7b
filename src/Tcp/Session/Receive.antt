-- ===== src/Tcp/Session/Receive.antt =====
-- What `server_client::recv` delivers, and what it does to the socket.
use gologincase.Common.{
  ℕ, zero, suc, ◌+◌, ◌<◌, ◌^◌, ◌≡◌, ◌≢◌, inl, inr, refl, sym, ap, ◌∙◌, true, List, [], ◌∷◌, ◌++◌,
  some, Buffer, length, take, drop, replicate, arith, ◌==◌, if◌then◌else◌, length-replicate,
  length-take, take_all, length-append, Bool-cases,
}
use mathlib.Core.List.{append-nil}
use native.Mathlib.Nat.{mod-eq_of_lt}
use gologincase.Packet.{create_packet, size_of, cmd_of, write_at, header_size}
use gologincase.Packet.Layout.{write_at-front}
use gologincase.Packet.Header.{NoNul, create_packet_reads_back, length-create_packet}
use gologincase.Tcp.{Connection, Sys, opens, sends, shuts, closes, invalid_socket}
use gologincase.Tcp.Errors.{Errno, no_error, get_last_error}
use gologincase.Tcp.Session.{
  Answers, Received, Delivery, got, failed, recv, read_body, fill, destroy, disconnect, give_up,
  after_error, or_so_error, after_header,
}

length-write_at : (o : ℕ) (src dst : Buffer) → length (write_at o src dst) ≡ length dst
unfolding write_at
length-write_at zero [] dst = refl
length-write_at zero (b ∷ bs) [] = refl
length-write_at zero (b ∷ bs) (d ∷ ds) = ap suc (length-write_at zero bs ds)
length-write_at (suc o) src [] = refl
length-write_at (suc o) src (d ∷ ds) = ap suc (length-write_at o src ds)

pub length-fill : (n : ℕ) (bytes mem : Buffer) → length (fill n bytes mem) ≡ length mem
unfolding fill
length-fill n bytes mem = length-write_at 0 (take n bytes) mem

-- A read that is answered in full leaves just the bytes.
pub fill_exact :
    (n : ℕ) (bytes mem : Buffer) → length bytes ≡ n → length mem ≡ n → fill n bytes mem ≡ bytes
unfolding fill
fill_exact n bytes mem e h =
    rw (take_all n bytes (omega arith))
      (rw (append-nil mem, append-nil bytes) at (write_at-front bytes mem [] (omega arith)))

-- What a successful `recv` leaves.
abbrev Delivered : Connection → Received → Type 0
Delivered c r =
    (size_of r.header ≢ 0) × (length r.buff ≡ size_of r.header) × (r.conn ≡ c) × (r.calls ≡ [])

read_body-Delivered :
    (answer : Delivery) (c : Connection) (header : Buffer)
    → (read_body answer c header).ok ≡ true
    → Delivered c (read_body answer c header)
unfolding read_body
read_body-Delivered failed c header h = ground arith
read_body-Delivered (got bytes) c header h = ground (
  arith,
  length-fill (size_of header) bytes (replicate (size_of header) 0),
  length-replicate {A = ℕ} (size_of header) 0,
)

after_error-Delivered :
    (e : Errno) (answer : Delivery) (c : Connection) (header : Buffer)
    → (after_error e answer c header).ok ≡ true
    → Delivered c (after_error e answer c header)
unfolding after_error give_up
after_error-Delivered no_error answer c header h = read_body-Delivered answer c header h
after_error-Delivered _ answer c header h = ground arith

after_header-Delivered :
    (h : Delivery) (c : Connection) (memory : Buffer) (a : Answers)
    → (after_header h c memory a).ok ≡ true
    → Delivered c (after_header h c memory a)
unfolding after_header give_up
after_header-Delivered (got []) c memory a h = ground arith
after_header-Delivered (got (b ∷ bytes)) c memory a h =
    read_body-Delivered a.body c (fill header_size (b ∷ bytes) memory) h
after_header-Delivered failed c memory a h = ground (
  arith,
  after_error-Delivered (or_so_error (get_last_error a.last_error) a.so_error) a.body c memory,
)

-- A successful `recv` has a header of a size that is not 0 and a buffer of that size, and leaves the
-- connection alone.
pub recv_success :
    (c : Connection) (memory : Buffer) (a : Answers)
    → (recv c memory a).ok ≡ true
    → Delivered c (recv c memory a)
unfolding recv
recv_success c memory a h = after_header-Delivered a.header c memory a h

-- How often a socket is closed in a list of calls.
abbrev pub closed_count : ℕ → List Sys → ℕ
closed_count s [] = 0
closed_count s (opens t ∷ cs) = closed_count s cs
closed_count s (sends t b ∷ cs) = closed_count s cs
closed_count s (shuts t ∷ cs) = closed_count s cs
closed_count s (closes t ∷ cs) = (if t == s then 1 else 0) + closed_count s cs

-- The calls, and those of the destructor after them, close the socket once.
abbrev ClosesOnce : ℕ → Received → Type 0
ClosesOnce s r = closed_count s (r.calls ++ destroy r.conn) ≡ 1

module _ (c : Connection) (valid : c.socket ≢ invalid_socket) where
  give_up-ClosesOnce : (header : Buffer) → ClosesOnce c.socket (give_up c header)
  unfolding give_up disconnect destroy
  give_up-ClosesOnce header = ground arith

  read_body-ClosesOnce :
      (answer : Delivery) (header : Buffer) → ClosesOnce c.socket (read_body answer c header)
  unfolding read_body destroy
  read_body-ClosesOnce answer header = ground arith

  after_error-ClosesOnce :
      (e : Errno) (answer : Delivery) (header : Buffer)
      → ClosesOnce c.socket (after_error e answer c header)
  unfolding after_error give_up disconnect destroy
  after_error-ClosesOnce no_error answer header = read_body-ClosesOnce answer header
  after_error-ClosesOnce _ answer header = ground arith

  after_header-ClosesOnce :
      (h : Delivery) (memory : Buffer) (a : Answers)
      → ClosesOnce c.socket (after_header h c memory a)
  unfolding after_header destroy
  after_header-ClosesOnce (got []) memory a = give_up-ClosesOnce memory
  after_header-ClosesOnce (got (b ∷ bytes)) memory a =
      read_body-ClosesOnce a.body (fill header_size (b ∷ bytes) memory)
  after_header-ClosesOnce failed memory a =
      let e = or_so_error (get_last_error a.last_error) a.so_error in
      elim (Bool-cases a.ioctl_done) [
        | inl done ↦ rw (done, after_header) (after_error-ClosesOnce e a.body memory)
        | inr not_done ↦ rw (not_done, after_header) (ground arith)
      ]

  -- Whatever the system answers to a `recv` on an open socket, the call and the destructor after it
  -- close that socket exactly once.
  pub closed_count-recv :
      (memory : Buffer) (a : Answers)
      → let r = recv c memory a in closed_count c.socket (r.calls ++ destroy r.conn) ≡ 1
  unfolding recv
  closed_count-recv memory a = after_header-ClosesOnce a.header memory a

-- The answers of a stream that holds at least a whole packet, when each read is answered in full.
abbrev pub ReadsInFull : Buffer → Answers → Type 0
ReadsInFull stream a =
    (a.header ≡ got (take 32 stream))
    × (a.body ≡ got (take (size_of (take 32 stream)) (drop 32 stream)))

read_body_exact :
    (c : Connection) (header body : Buffer)
    → size_of header ≡ length body
    → body ≢ []
    → read_body (got body) c header
      ≡ record { ok = true; header = header; buff = body; conn = c; calls = [] }
unfolding read_body
read_body_exact c header [] e ne = absurd (ne refl)
read_body_exact c header (b ∷ bs) e ne = ground (
  arith,
  fill_exact (size_of header) (b ∷ bs) (replicate (size_of header) 0) (sym e)
      (length-replicate {A = ℕ} (size_of header) 0),
)

after_header_exact :
    (c : Connection) (memory bytes : Buffer) (a : Answers)
    → length memory ≡ 32
    → length bytes ≡ 32
    → after_header (got bytes) c memory a ≡ read_body a.body c bytes
unfolding after_header
after_header_exact c memory [] a m e = absurd (omega arith)
after_header_exact c memory (b ∷ bs) a m e =
    ap (read_body a.body c) (fill_exact header_size (b ∷ bs) memory e m)

-- When the system answers each read in full, `recv` takes from a stream the packet that
-- `create_packet` has put at its front: it succeeds with the command and the body of that packet,
-- for a command with no zero byte and a body that is not empty and shorter than 2 ^ 32 bytes.
pub recv-create_packet :
    (c : Connection) (memory cmd body rest : Buffer) (a : Answers)
    → length memory ≡ 32
    → body ≢ []
    → length body < 2 ^ 32
    → length cmd < 16
    → NoNul cmd
    → ReadsInFull (create_packet cmd body ++ rest) a
    → let r = recv c memory a in
      (r.ok ≡ true) × (cmd_of r.header ≡ some cmd) × (r.buff ≡ body) × (r.conn ≡ c)
unfolding recv
recv-create_packet c memory cmd body rest a m ne lt room nonul full =
    rw (exact ∙ whole) (refl, named, refl, refl)
  where
    stream : Buffer
    stream = create_packet cmd body ++ rest

    sized : size_of (take 32 stream) ≡ length body
    sized = (create_packet_reads_back cmd body ne room nonul rest).0 ∙ mod-eq_of_lt lt

    named : cmd_of (take 32 stream) ≡ some cmd
    named = (create_packet_reads_back cmd body ne room nonul rest).1

    header_full : length (take 32 stream) ≡ 32
    header_full = omega (
      arith,
      length-take 32 stream,
      length-append (create_packet cmd body) rest,
      length-create_packet cmd body ne room,
    )

    delivered : a.body ≡ got body
    delivered = full.1 ∙ ap got (rw sized (create_packet_reads_back cmd body ne room nonul rest).2)

    exact : after_header a.header c memory a ≡ read_body a.body c (take 32 stream)
    exact =
        ap (λ h. after_header h c memory a) full.0
        ∙ after_header_exact c memory (take 32 stream) a m header_full

    whole :
        read_body a.body c (take 32 stream)
        ≡ record { ok = true; header = take 32 stream; buff = body; conn = c; calls = [] }
    whole =
        ap (λ d. read_body d c (take 32 stream)) delivered
        ∙ read_body_exact c (take 32 stream) body sized ne
