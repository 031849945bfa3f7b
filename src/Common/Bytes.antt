-- ===== src/Common/Bytes.antt =====
-- Byte strings (`std::string`, `std::vector<char>`), the little-endian layout of numbers, and the
-- texts of the source as byte strings.
use Prim.Native.Nat.{ℕ, zero, suc, ◌+◌, ◌*◌, ◌/◌, ◌%◌, ◌<◌}
use Prim.Native.Char.{code}
use Prim.Native.String.{String}
use mathlib.Core.Path.{◌≡◌, refl, ap}
use mathlib.Core.Logic.{◌≢◌, inl, inr}
use mathlib.Core.Bool.{Bool, true, false, ◌&&◌}
use mathlib.Core.List.{List, [], ◌∷◌}
use native.Mathlib.Omega.{arith}
use gologincase.Common.Tests.{◌==◌, Bool-cases}
use gologincase.Common.Lists.{length}

-- A byte is a number below 256.
abbrev pub Buffer : Type 0
Buffer = List ℕ

abbrev pub codes : String → Buffer
codes String.[] = []
codes (String.◌∷◌ c s) = code c ∷ codes s

-- `std::string::operator==`.
unfoldable pub str_eq : Buffer → Buffer → Bool
str_eq [] [] = true
str_eq [] (y ∷ ys) = false
str_eq (x ∷ xs) [] = false
str_eq (x ∷ xs) (y ∷ ys) = x == y && str_eq xs ys

pub str_eq-eq : (s t : Buffer) → str_eq s t ≡ true → s ≡ t
unfolding str_eq
str_eq-eq [] [] h = refl
str_eq-eq [] (y ∷ ys) h = ground arith
str_eq-eq (x ∷ xs) [] h = ground arith
str_eq-eq (x ∷ xs) (y ∷ ys) h = ground (arith, str_eq-eq xs ys)

pub str_eq_refl : (s : Buffer) → str_eq s s ≡ true
unfolding str_eq
str_eq_refl [] = refl
str_eq_refl (x ∷ xs) = ground (arith, str_eq_refl xs)

pub str_eq_ne : (s t : Buffer) → s ≢ t → str_eq s t ≡ false
str_eq_ne s t h = elim (Bool-cases (str_eq s t)) [
  | inl e ↦ absurd (h (str_eq-eq s t e))
  | inr e ↦ e
]

-- The `k` bytes of a number, the lowest first: what a store of a `k`-byte integer leaves.
unfoldable pub le_bytes : ℕ → ℕ → Buffer
le_bytes zero n = []
le_bytes (suc k) n = n % 256 ∷ le_bytes k (n / 256)

-- The number that such bytes stand for.
unfoldable pub from_le : Buffer → ℕ
from_le [] = 0
from_le (b ∷ bs) = b + 256 * from_le bs

pub length-le_bytes : (k n : ℕ) → length (le_bytes k n) ≡ k
unfolding le_bytes
length-le_bytes zero n = refl
length-le_bytes (suc k) n = ap suc (length-le_bytes k (n / 256))

abbrev pub IsBytes : Buffer → Type 0
IsBytes [] = Unit {0}
IsBytes (b ∷ bs) = (b < 256) × IsBytes bs
