-- ===== src/Examples/Codec.antt =====
-- A JSON library for the examples: an object is the number of its members, then each with its sizes.
use gologincase.Common.{
  ℕ, zero, suc, ◌≡◌, refl, ap, inl, inr, Bool, [], ◌∷◌, ◌++◌, Option, none, some, Buffer, length,
  take, drop, all, ltb, take-append, drop-append, Bool-cases, if◌then◌else◌, ◌>>=◌, arith,
}
use gologincase.Messages.Json.{Field, uint, text, Members, Json, JsonLaws, to_values, all_valid}

abbrev pub is_ascii : Buffer → Bool
is_ascii s = all (λ b. ltb b 128) s

abbrev encode : Members Field → Buffer
encode [] = []
encode ((k, uint n) ∷ ms) = length k ∷ 0 ∷ n ∷ k ++ encode ms
encode ((k, text s) ∷ ms) = length k ∷ 1 ∷ length s ∷ k ++ (s ++ encode ms)

abbrev decode : ℕ → Buffer → Option (Members Field)
decode (suc n) (l ∷ zero ∷ m ∷ b) = do ms ← decode n (drop l b); some ((take l b, uint m) ∷ ms)
decode (suc n) (l ∷ suc t ∷ m ∷ b) = do
  ms ← decode n (drop m (drop l b))
  some ((take l b, text (take m (drop l b))) ∷ ms)
decode (suc n) _ = none
decode zero b = some []

abbrev count : Members Field → ℕ
count [] = zero
count (m ∷ ms) = suc (count ms)

decode-encode : (ms : Members Field) → decode (count ms) (encode ms) ≡ some ms
decode-encode [] = refl
decode-encode ((k, uint n) ∷ ms) =
    rw
      (
        take-append (length k) k (encode ms) refl,
        drop-append (length k) k (encode ms) refl,
        decode-encode ms,
      )
      refl
decode-encode ((k, text s) ∷ ms) =
    rw
      (
        take-append (length k) k (s ++ encode ms) refl,
        drop-append (length k) k (s ++ encode ms) refl,
        take-append (length s) s (encode ms) refl,
        drop-append (length s) s (encode ms) refl,
        decode-encode ms,
      )
      refl

abbrev decode_object : Buffer → Option (Members Field)
decode_object [] = none
decode_object (n ∷ b) = decode n b

abbrev number : Field → Option ℕ
number (uint n) = some n
number (text s) = none

abbrev string : Field → Option Buffer
string (uint n) = none
string (text s) = some s

abbrev encode_object : Members Field → Option Buffer
encode_object ms = if all_valid is_ascii ms then some (count ms ∷ encode ms) else none

abbrev pub codec : Json
codec = record {
  Value = Field;
  of_field = λ f. f;
  as_uint = number;
  as_text = string;
  dump = encode_object;
  parse = decode_object;
}

to_values-codec : (ms : Members Field) → to_values codec ms ≡ ms
to_values-codec [] = refl
to_values-codec (m ∷ ms) = ap (λ ns. m ∷ ns) (to_values-codec ms)

decode_object-encode_object :
    (ms : Members Field) (b : Buffer) → encode_object ms ≡ some b → decode_object b ≡ some ms
decode_object-encode_object ms b e = elim (Bool-cases (all_valid is_ascii ms)) [
  | inl v ↦ ground (arith, v, decode-encode ms)
  | inr v ↦ ground (arith, v)
]

pub codec_laws : JsonLaws codec is_ascii
codec_laws = record {
  as_uint-of_field = λ n h. refl;
  as_text-of_field = λ s. refl;
  dump_valid = λ ms p v. rw (to_values-codec ms, v) (count ms ∷ encode ms, refl);
  dump_invalid = λ ms p v. rw (to_values-codec ms, v) refl;
  dump_nonempty = λ ms b e. ground arith;
  parse-dump = λ ms b e.
      (to_values codec ms, decode_object-encode_object (to_values codec ms) b e, λ k. refl);
  is_utf8_ascii = λ s h. h;
  is_utf8_stray = λ b h. ground arith;
}
