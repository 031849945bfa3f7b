-- ===== src/Packet/Header.antt =====
-- What the receiving side reads back from the bytes of a packet.
use gologincase.Common.{
  ℕ, suc, ◌+◌, ◌-◌, ◌≤◌, ◌<◌, ◌%◌, ◌^◌, ◌≡◌, refl, sym, ap, ◌∙◌, ◌≢◌, ◌↔◌, ◌⊎◌, inl, inr, [], ◌∷◌,
  ◌++◌, some, Buffer, length, take, drop, All, length-append, length-replicate, take-append,
  drop-append, arith, le_bytes, from_le, length-take, length-le_bytes,
}
use gologincase.Packet.{create_packet, size_of, type_of, c_str, cmd_of}
use gologincase.Packet.Layout.{fields, zeros, create_packet-fields}
use mathlib.Core.List.{append_assoc}
use native.Mathlib.Decide.{dec_lt}

-- No byte is zero.
abbrev pub NoNul : Buffer → Type 0
NoNul = All (λ b. 0 < b)

pub c_str-terminated : (s rest : Buffer) → NoNul s → c_str (s ++ 0 ∷ rest) ≡ some s
unfolding c_str
c_str-terminated [] rest h = refl
c_str-terminated (b ∷ s) rest h = ground (arith, c_str-terminated s rest h.1)

-- A C string ends inside its array, and holds no zero byte.
pub c_str_bounds : (b s : Buffer) → c_str b ≡ some s → (length s < length b) × NoNul s
unfolding c_str
c_str_bounds [] s h = cc
c_str_bounds (b ∷ bs) [] h = ground arith
c_str_bounds (b ∷ bs) (x ∷ s) h = ground (arith, c_str_bounds bs s)

from_le_four : (n : ℕ) → n < 2 ^ 32 → from_le (le_bytes 4 n) ≡ n
unfolding le_bytes from_le
from_le_four n h = omega arith

module _ (cmd buff : Buffer) where
  -- The header part of the layout.
  abbrev header : Buffer
  header =
      zeros 8
      ++ (le_bytes 4 (length buff % 2 ^ 32) ++ (cmd ++ (zeros (16 - length cmd) ++ zeros 4)))

  fields-header : fields cmd buff ≡ header ++ buff
  fields-header = simp append_assoc

  size_of-header : size_of header ≡ length buff % 2 ^ 32
  unfolding size_of le_bytes
  size_of-header = from_le_four (length buff % 2 ^ 32) (omega arith)

  length-header : length cmd < 16 → length header ≡ 32
  length-header h = omega (
    arith,
    length-append (le_bytes 4 (length buff % 2 ^ 32)) (cmd ++ (zeros (16 - length cmd) ++ zeros 4)),
    length-le_bytes 4 (length buff % 2 ^ 32),
    length-append cmd (zeros (16 - length cmd) ++ zeros 4),
    length-append (zeros (16 - length cmd)) (zeros 4),
    length-replicate {A = ℕ} (16 - length cmd) 0,
  )

  type_of-header : length cmd < 16 → type_of header ≡ cmd ++ zeros (16 - length cmd)
  unfolding type_of le_bytes
  type_of-header h =
      rw (← append_assoc cmd (zeros (16 - length cmd)) (zeros 4))
        (take-append 16 (cmd ++ zeros (16 - length cmd)) (zeros 4) exact)
    where
      exact : 16 ≡ length (cmd ++ zeros (16 - length cmd))
      exact = omega (
        arith,
        length-append cmd (zeros (16 - length cmd)),
        length-replicate {A = ℕ} (16 - length cmd) 0,
      )

  cmd_of-header : length cmd < 16 → NoNul cmd → cmd_of header ≡ some cmd
  unfolding cmd_of
  cmd_of-header h n =
      rw (type_of-header h, pad_cons) (c_str-terminated cmd (zeros (15 - length cmd)) n)
    where
      spare : 16 - length cmd ≡ suc (15 - length cmd)
      spare = omega arith

      pad_cons : zeros (16 - length cmd) ≡ 0 ∷ zeros (15 - length cmd)
      pad_cons = ap zeros spare

  create_packet-header :
      buff ≢ []
      → length cmd < 16
      → (rest : Buffer) → create_packet cmd buff ++ rest ≡ header ++ (buff ++ rest)
  create_packet-header ne lt rest =
      rw (create_packet-fields cmd buff ne lt ∙ fields-header) (append_assoc header buff rest)

  pub length-create_packet :
      buff ≢ [] → length cmd < 16 → length (create_packet cmd buff) ≡ 32 + length buff
  length-create_packet ne lt = omega (
    arith,
    ap length (create_packet-fields cmd buff ne lt ∙ fields-header),
    length-append header buff,
    length-header lt,
  )

  -- A packet that is followed by other bytes is read back as it was written: the first 32 bytes
  -- hold the size of the body modulo 2 ^ 32 and, if it has no zero byte, the command; the body
  -- follows, and then the other bytes.
  pub create_packet_reads_back :
      buff ≢ []
      → length cmd < 16
      → NoNul cmd
      → (rest : Buffer)
      → let stream = create_packet cmd buff ++ rest in
        (size_of (take 32 stream) ≡ length buff % 2 ^ 32)
        × (cmd_of (take 32 stream) ≡ some cmd)
        × (take (length buff) (drop 32 stream) ≡ buff)
        × (drop (length buff) (drop 32 stream) ≡ rest)
  create_packet_reads_back ne lt n rest =
      rw
        (
          create_packet-header ne lt rest,
          take-append 32 header (buff ++ rest) (sym (length-header lt)),
          drop-append 32 header (buff ++ rest) (sym (length-header lt)),
        )
        (
          size_of-header,
          cmd_of-header lt n,
          take-append (length buff) buff rest refl,
          drop-append (length buff) buff rest refl,
        )

refused : (cmd buff : Buffer) → create_packet cmd buff ≡ [] → (buff ≡ []) ⊎ (16 ≤ length cmd)
refused cmd [] e = inl refl
refused cmd (b ∷ bs) e = elim (dec_lt (length cmd) 16) [
  | yes lt ↦ absurd (omega (arith, ap length e, length-create_packet cmd (b ∷ bs) (λ q. cc) lt))
  | no ge ↦ inr (omega arith)
]

rejects : (cmd buff : Buffer) → (buff ≡ []) ⊎ (16 ≤ length cmd) → create_packet cmd buff ≡ []
unfolding create_packet
rejects cmd buff h = ground arith

-- `create_packet` refuses exactly the empty body and the command with no room for its terminator;
-- any other packet is 32 bytes longer than its body.
pub create_packet_refusal :
    (cmd buff : Buffer)
    → ((create_packet cmd buff ≡ []) ↔ ((buff ≡ []) ⊎ (16 ≤ length cmd)))
      × (buff ≢ [] → length cmd < 16 → length (create_packet cmd buff) ≡ 32 + length buff)
create_packet_refusal cmd buff =
    ((refused cmd buff, rejects cmd buff), length-create_packet cmd buff)

-- A command read from a header is short enough for `create_packet`, and has no zero byte.
pub cmd_of_bounds : (h s : Buffer) → cmd_of h ≡ some s → (length s < 16) × NoNul s
unfolding cmd_of type_of
cmd_of_bounds h s e =
    let b = c_str_bounds (type_of h) s e in (omega (arith, b.0, length-take 16 (drop 12 h)), b.1)
