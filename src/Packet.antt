-- ===== src/Packet.antt =====
-- src/core/types.hpp and `create_packet`, `header_packet` of src/tcp/core: the bytes of a packet.
-- The header is the object representation of `packet_header_t` on x86-64: little-endian, `sign` at
-- 0, `size` at 8, `type` at 12 and four bytes of padding at 28.
pub mod Layout
pub mod Header
pub mod Stream
use gologincase.Common.{
  ℕ, zero, suc, ◌+◌, ◌%◌, ◌^◌, List, [], ◌∷◌, Option, none, some, Buffer, length, take, drop,
  replicate, is_empty, ltb, ◌==◌, if◌then◌else◌, le_bytes, from_le,
}
use mathlib.Core.Option

-- `sizeof(core::types::packet_header_t)`: 8 + 4 + 16, rounded up to the alignment of `sign`.
abbrev pub header_size : ℕ
header_size = 32

abbrev pub size_offset : ℕ
size_offset = 8

abbrev pub type_offset : ℕ
type_offset = 12

-- `sizeof(core::types::packet_header_t::type)`.
abbrev pub type_size : ℕ
type_size = 16

-- `std::memcpy` to an offset of a buffer. What would run past the end is not written: no call
-- below does that.
unfoldable pub write_at : ℕ → Buffer → Buffer → Buffer
write_at zero [] dst = dst
write_at zero (b ∷ bs) [] = []
write_at zero (b ∷ bs) (d ∷ ds) = b ∷ write_at zero bs ds
write_at (suc o) src [] = []
write_at (suc o) src (d ∷ ds) = d ∷ write_at o src ds

-- `create_packet`: `resize` fills with zeros, then come the three stores.
unfoldable pub create_packet : Buffer → Buffer → Buffer
create_packet cmd buff =
    if is_empty buff
    then []
    else if ltb (length cmd) type_size
    then (let packet = replicate (header_size + length buff) 0 in
        let sized = write_at size_offset (le_bytes 4 (length buff % 2 ^ 32)) packet in
        write_at header_size buff (write_at type_offset cmd sized))
    else []

-- `_header.size` of the header that a buffer begins with (`header_packet` reads it in place).
unfoldable pub size_of : Buffer → ℕ
size_of header = from_le (take 4 (drop size_offset header))

-- The 16 bytes of `_header.type`.
unfoldable pub type_of : Buffer → Buffer
type_of header = take type_size (drop type_offset header)

-- `std::string{chars}` of a character array. `none`: no byte of the array is zero, so that the
-- constructor reads on past its end, which is undefined.
unfoldable pub c_str : Buffer → Option Buffer
c_str [] = none
c_str (b ∷ bs) = let rest = c_str bs in if b == 0 then some [] else Option.map (λ s. b ∷ s) rest

-- `std::string{_header.type}`.
unfoldable pub cmd_of : Buffer → Option Buffer
unfolding c_str type_of
cmd_of header = c_str (type_of header)
