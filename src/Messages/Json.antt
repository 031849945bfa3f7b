-- ===== src/Messages/Json.antt =====
-- The JSON library as an interface, and the packer over it: `google::json::packer` and
-- `get_from_json` of contrib/google/tagged_json.hpp, `json::packer` of src/messages/json/packer.hpp.
use gologincase.Common.{
  ℕ, ◌<◌, ◌≤◌, ◌^◌, ◌≡◌, ◌≢◌, Bool, true, false, ◌&&◌, ◌||◌, not, List, [], ◌∷◌, Option, none, some,
  Buffer, str_eq, all, ltb, if◌then◌else◌, ◌>>=◌,
}

-- The value of a member of a tagged tuple: `std::uint64_t` or `std::string`.
pub data Field : Type 0 where
  uint : ℕ → Field
  text : Buffer → Field

abbrev pub Members : Type 0 → Type 0
Members V = List (Buffer × V)

-- The value that a key has after the assignments `json[key] = value`, made in order.
unfoldable pub member {ℓ} : {V : Type ℓ} → Buffer → List (Buffer × V) → Option V
member k [] = none
member k ((j, v) ∷ ms) =
    let rest = member k ms in
    elim rest [ some w ↦ some w | none ↦ if str_eq j k then some v else none ]

-- nlohmann::json, as far as the packer calls it. `none` stands for an exception.
pub record Json : Type 1 where
  pub Value : Type 0
  -- The conversion of a C++ value.
  pub of_field : Field → Value
  -- `get<std::uint64_t>()` and `get<std::string>()`.
  pub as_uint : Value → Option ℕ
  pub as_text : Value → Option Buffer
  -- `dump()` of the object that the assignments of these members build.
  pub dump : Members Value → Option Buffer
  -- `json::parse`: the members of the object, and none of a value that is no object.
  pub parse : Buffer → Option (Members Value)

abbrev pub to_values : (j : Json) → Members Field → Members j.Value
to_values j [] = []
to_values j ((k, f) ∷ ms) = (k, j.of_field f) ∷ to_values j ms

abbrev pub field_valid : (Buffer → Bool) → Field → Bool
field_valid is_utf8 (uint n) = true
field_valid is_utf8 (text s) = is_utf8 s

abbrev pub all_valid : (Buffer → Bool) → Members Field → Bool
all_valid is_utf8 [] = true
all_valid is_utf8 ((k, f) ∷ ms) = field_valid is_utf8 f && all_valid is_utf8 ms

abbrev pub has_key : Buffer → Members Field → Bool
has_key k [] = false
has_key k ((j, f) ∷ ms) = str_eq j k || has_key k ms

-- The keys are distinct ASCII strings.
abbrev pub proper_keys : Members Field → Bool
proper_keys [] = true
proper_keys ((k, f) ∷ ms) = all (λ b. ltb b 128) k && not (has_key k ms) && proper_keys ms

-- What the library documents; `is_utf8` tells the byte strings that are valid UTF-8.
pub record JsonLaws (j : Json) (is_utf8 : Buffer → Bool) : Type 0 where
  -- An unsigned 64-bit number and a string are read back as they were stored.
  pub as_uint-of_field : (n : ℕ) → n < 2 ^ 64 → j.as_uint (j.of_field (uint n)) ≡ some n
  pub as_text-of_field : (s : Buffer) → j.as_text (j.of_field (text s)) ≡ some s
  -- `dump`, under its default error handler, writes an object whose strings are valid UTF-8 and
  -- throws on any other; the keys are those of a tagged tuple.
  pub dump_valid :
      (ms : Members Field)
      → proper_keys ms ≡ true
      → all_valid is_utf8 ms ≡ true
      → (b : Buffer) × (j.dump (to_values j ms) ≡ some b)
  pub dump_invalid :
      (ms : Members Field)
      → proper_keys ms ≡ true
      → all_valid is_utf8 ms ≡ false
      → j.dump (to_values j ms) ≡ none
  -- The text is not empty, and parses to an object with the same members.
  pub dump_nonempty : (ms : Members Field) (b : Buffer) → j.dump (to_values j ms) ≡ some b → b ≢ []
  pub parse-dump :
      (ms : Members Field) (b : Buffer)
      → j.dump (to_values j ms) ≡ some b
      → (us : Members j.Value) × (j.parse b ≡ some us)
        × ((k : Buffer) → member k us ≡ member k (to_values j ms))
  -- ASCII is valid UTF-8; one byte of 128 or more alone is not.
  pub is_utf8_ascii : (s : Buffer) → all (λ b. ltb b 128) s ≡ true → is_utf8 s ≡ true
  pub is_utf8_stray : (b : ℕ) → 128 ≤ b → is_utf8 (b ∷ []) ≡ false

-- A tagged tuple: `tagged_tuple()`, its members in the order of `for_each`, what `from_json` makes
-- of the values of the keys, and the member "command", which every message has.
pub record Message (M : Type 0) : Type 0 where
  pub blank : M
  pub members : M → Members Field
  pub read : (Buffer → Option ℕ) → (Buffer → Option Buffer) → Option M
  pub command : M → Buffer

module _ (j : Json) (vs : Members j.Value) where
  -- `get_from_json`: a member that is absent is default-initialised.
  unfoldable pub get_uint : Buffer → Option ℕ
  get_uint k = elim (member k vs) [ none ↦ some 0 | some v ↦ j.as_uint v ]

  unfoldable pub get_text : Buffer → Option Buffer
  get_text k = elim (member k vs) [ none ↦ some [] | some v ↦ j.as_text v ]

module _ (j : Json) {M : Type 0} ⦃m : Message M⦄ where
  -- `packer::to`.
  unfoldable pub to : M → Option Buffer
  to x = j.dump (to_values j (m.members x))

  -- `packer::from`.
  unfoldable pub from : Buffer → Option M
  from buff = do vs ← j.parse buff; m.read (get_uint j vs) (get_text j vs)
