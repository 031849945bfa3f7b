-- ===== src/Packet/Stream.antt =====
-- Packets one after another, as they stand in a stream.
use gologincase.Common.{
  ℕ, zero, suc, ◌<◌, ◌^◌, ◌≡◌, ◌≢◌, ◌∙◌, refl, List, [], ◌∷◌, ◌++◌, some, Buffer, length, take,
  drop, arith, length-take, length-append,
}
use native.Mathlib.Nat.{mod-eq_of_lt}
use gologincase.Packet.{create_packet, size_of, cmd_of}
use gologincase.Packet.Header.{NoNul, create_packet_reads_back, length-create_packet}

-- A command and a body of which `create_packet` makes a packet that is read back as it was.
abbrev pub Fits : Buffer × Buffer → Type 0
Fits p = (p.1 ≢ []) × (length p.1 < 2 ^ 32) × (length p.0 < 16) × NoNul p.0

-- The bytes of some packets.
abbrev pub stream : List (Buffer × Buffer) → Buffer
stream [] = []
stream (p ∷ ps) = create_packet p.0 p.1 ++ stream ps

-- The header that `recv` reads, the body that it reads after it, and what is left.
abbrev pub header_of : Buffer → Buffer
header_of s = take 32 s

abbrev pub body_of : Buffer → Buffer
body_of s = take (size_of (take 32 s)) (drop 32 s)

abbrev pub rest_of : Buffer → Buffer
rest_of s = drop (size_of (take 32 s)) (drop 32 s)

-- Nothing is left of nothing.
pub rest_of_nil : rest_of [] ≡ []
rest_of_nil = by_size (size_of [])
  where
    by_size : (n : ℕ) → drop {A = ℕ} n [] ≡ []
    by_size zero = refl
    by_size (suc n) = refl

-- The first packet of a stream.
pub stream-Fits :
    (cmd body rest : Buffer)
    → Fits (cmd, body)
    → let s = create_packet cmd body ++ rest in
      (length (header_of s) ≡ 32)
      × (size_of (header_of s) ≡ length body)
      × (cmd_of (header_of s) ≡ some cmd)
      × (body_of s ≡ body)
      × (rest_of s ≡ rest)
stream-Fits cmd body rest fits =
    let back = create_packet_reads_back cmd body fits.0 fits.2 fits.3 rest in
    let sized = back.0 ∙ mod-eq_of_lt fits.1 in
    (
      omega (
        arith,
        length-take 32 (create_packet cmd body ++ rest),
        length-append (create_packet cmd body) rest,
        length-create_packet cmd body fits.0 fits.2,
      ),
      sized,
      back.1,
      rw sized back.2,
      rw sized back.3,
    )
