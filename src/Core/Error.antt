-- ===== src/Core/Error.antt =====
-- src/core/error.hpp and src/core/error.cpp: the error category and the exception of the program.
use gologincase.Common.{
  ℕ, ◌≡◌, ◌≢◌, ◌↔◌, refl, Bool, true, not, ◌++◌, Buffer, codes, ◌==◌, if◌then◌else◌, arith,
}
use mathlib.Core.List.{append_cancel_left, append_cancel_right}

pub data Errc : Type 0 where
  fail success not_found invalid_argument insufficient_resources not_implement : Errc

-- `static_cast<int>`.
unfoldable pub value : Errc → ℕ
value fail = 0
value success = 1
value not_found = 2
value invalid_argument = 3
value insufficient_resources = 4
value not_implement = 5

-- `core_error_category::message` of an error number.
unfoldable pub message : ℕ → Buffer
message ev =
    if ev == 0
    then codes "common core error"
    else if ev == 1
    then codes "common core success"
    else codes "(unrecognized error)"

-- `std::error_code`: a number, and the name of its category.
pub record ErrorCode : Type 0 where
  pub number : ℕ
  pub category : Buffer

unfoldable pub make_error_code : Errc → ErrorCode
make_error_code e = record { number = value e; category = codes "core" }

-- `std::error_code::operator bool`: whether it stands for an error.
abbrev pub is_error : ErrorCode → Bool
is_error c = not (c.number == 0)

pub record Exception : Type 0 where
  pub what : Buffer
  pub code : Errc

-- The constructor of `exception`.
unfoldable pub exception : Buffer → Errc → Exception
exception what ec = record {
  what =
      codes "gologin::core::exception => "
      ++ codes "["
      ++ what
      ++ codes "]"
      ++ codes " ("
      ++ codes ")";
  code = ec;
}

-- The code made of an enumerator tests as an error exactly if the enumerator is not `fail`, so that
-- `success` is an error and `fail` is none; and its message is the one for an unrecognized error
-- exactly for the enumerators other than these two.
pub make_error_code_lem :
    (e : Errc)
    → ((is_error (make_error_code e) ≡ true) ↔ (e ≢ fail))
      × ((message (make_error_code e).number ≡ codes "(unrecognized error)")
          ↔ ((e ≢ fail) × (e ≢ success)))
unfolding make_error_code value message
make_error_code_lem e = ground arith

-- The text of an exception determines the text that it was made with, and does not depend on its code;
-- the code is kept.
pub exception_lem :
    (s t : Buffer) (c e : Errc)
    → ((exception s c).code ≡ c)
      × ((exception s c).what ≡ (exception s e).what)
      × ((exception s c).what ≡ (exception t e).what → s ≡ t)
unfolding exception
exception_lem s t c e = (
  refl,
  refl,
  λ h. append_cancel_left (codes "gologin::core::exception => " ++ codes "[") s t (
      append_cancel_right _ _ (codes "]")
        (append_cancel_right _ _ (codes " (") (append_cancel_right _ _ (codes ")") h))),
)
