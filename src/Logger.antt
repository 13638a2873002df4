-- ===== src/Logger.antt =====
-- src/robot_ipc_logger.c: the level of a code of include/robot_ipc_constant.h, and the line that
-- `robot_log` prints. The local time and the user's message come formatted, as parameters.
mod Tests
use robot_ipc.Common.{
  ℕ, ◌+◌, ◌<◌, ◌≤◌, ◌/◌, ◌≡◌, ◌⊎◌, refl, arith, Bool, true, false, ◌&&◌, List, [], ◌++◌, Option,
  none, some, ℤ, pos, negsuc, leb, ltb, ◌==◌, if◌then◌else◌,
}
use robot_ipc.Posix.Balance.{is_int}
use robot_ipc.HostFunction.Pipe.{codes}

pub data LogLevel : Type 0 where
  info warn error fatal : LogLevel

-- A test on an `int`, which holds of no negative number.
abbrev is_within : (low high : ℕ) → ℤ → Bool
is_within low high (pos n) = leb low n && ltb n high
is_within low high (negsuc n) = false

abbrev is_from : (low : ℕ) → ℤ → Bool
is_from low (pos n) = leb low n
is_from low (negsuc n) = false

unfoldable pub code_to_level : ℤ → LogLevel
code_to_level code =
    if is_within 1 100 code
    then info
    else if is_within 100 200 code
    then warn
    else if is_within 200 300 code
    then error
    else if is_from 300 code
    then fatal
    else warn

unfoldable pub log_level_str : LogLevel → List ℕ
log_level_str info = codes "INFO"
log_level_str warn = codes "WARN"
log_level_str error = codes "ERROR"
log_level_str fatal = codes "FATAL"

-- What is printed; nothing for ROBOT_OK. `printed` is how `%d` prints the code.
unfoldable pub robot_log : (printed : ℤ → List ℕ) (now message : List ℕ) → ℤ → Option (List ℕ)
unfolding code_to_level log_level_str
robot_log printed now message code =
    if is_int code (pos 0)
    then none
    else some (
        codes "["
        ++ now
        ++ codes "] ["
        ++ log_level_str (code_to_level code)
        ++ codes "] (code="
        ++ printed code
        ++ codes ") "
        ++ message
        ++ codes "\n")

abbrev pub severity : LogLevel → ℕ
severity info = 1
severity warn = 2
severity error = 3
severity fatal = 4

-- Of two codes from 1 on, the larger one has no lower level, and the level of a code is decided by
-- its hundreds: informations below 100, warnings below 200, errors below 300, and else fatal.
pub code_to_level_mono :
    (a b : ℕ)
    → 1 ≤ a
    → a ≤ b
    → (severity (code_to_level (pos a)) ≤ severity (code_to_level (pos b)))
      × ((severity (code_to_level (pos a)) ≡ a / 100 + 1)
          ⊎ ((3 ≤ a / 100) × (code_to_level (pos a) ≡ fatal)))
unfolding code_to_level
code_to_level_mono a b one le = ground arith
