-- ===== src/Core/Logger.antt =====
-- src/core/logger.hpp: which logger of spdlog the program uses, and how it sets it up. The calls of
-- spdlog are listed.
use gologincase.Common.{
  ℕ, ◌≡◌, ◌≢◌, ◌↔◌, Bool, List, [], ◌∷◌, Buffer, codes, str_eq, str_eq-eq, str_eq_refl,
  if◌then◌else◌, arith,
}

-- `spdlog::level::level_enum`, as far as the program names it.
pub data Level : Type 0 where
  info debug err : Level

-- `detail::get_logger_level`: an unknown name stands for `info`.
unfoldable pub get_logger_level : Buffer → Level
get_logger_level level =
    if str_eq level (codes "info")
    then info
    else if str_eq level (codes "debug")
    then debug
    else if str_eq level (codes "error")
    then err
    else info

-- `spdlog::default_logger()`, or `spdlog::daily_logger_mt` of a name and a path that starts a new file at
-- an hour and a minute.
pub data Sink : Type 0 where
  default_logger : Sink
  daily_logger : (name path : Buffer) (hour minute : ℕ) → Sink

pub data Setting : Type 0 where
  set_level : Level → Setting
  flush_on : Level → Setting
  set_pattern : Buffer → Setting

-- What `create_logger` ends with: a logger with its settings, `nullptr`, or an exception of spdlog.
pub data Created : Type 0 where
  logger : Sink → List Setting → Created
  null : Created
  thrown : Created

abbrev pub pattern : Buffer
pattern = codes "[%H:%M:%S %z] [%n] [%^---%L---%$] [thread %t] %v"

-- `opens` tells whether spdlog can make the daily logger of that name and path.
unfoldable pub create_logger :
    (Buffer → Buffer → Bool) → Buffer → Buffer → Buffer → Buffer → Created
unfolding get_logger_level
create_logger opens level sink name path =
    let lvl = get_logger_level level in
    if str_eq sink (codes "console")
    then logger default_logger (set_level lvl ∷ set_pattern pattern ∷ [])
    else if str_eq sink (codes "file")
    then if opens name path
      then logger (daily_logger name path 23 59)
          (flush_on lvl ∷ set_level lvl ∷ set_pattern pattern ∷ [])
      else thrown
    else null

-- There is no logger exactly for a sink other than "console" and "file", whatever the level is.
pub create_logger_null :
    (opens : Buffer → Buffer → Bool) (level sink name path : Buffer)
    → (create_logger opens level sink name path ≡ null)
      ↔ ((sink ≢ codes "console") × (sink ≢ codes "file"))
unfolding create_logger
create_logger_null opens level sink name path = ground (
  arith,
  str_eq-eq sink (codes "console"),
  str_eq-eq sink (codes "file"),
  str_eq_refl (codes "console"),
  str_eq_refl (codes "file"),
)
