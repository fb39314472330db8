-- ===== src/Debug/Levels.antt =====
-- general/inc/debug.h: the levels of the messages, and the macros that compare them with `dbg_level`
-- and call debug.c.
mod Kept
pub mod Session
pub mod Mirror
use linux_uart.Base.{ℕ, leb, Bool, true, false, List, [], ◌∷◌, ◌++◌, if◌then◌else◌}
use linux_uart.Base.Int.{ℤ, pos}
use linux_uart.Debug.{LogOs, LogRecord, Piece, debug_printf, debug_phex}

-- `enum _DBG_LEVEL`, which starts at 1.
pub data DbgLevel : Type 0 where
  dbg_err dbg_warning dbg_sys dbg_info dbg_debug : DbgLevel

unfoldable pub level_value : DbgLevel → ℕ
level_value dbg_err = 1
level_value dbg_warning = 2
level_value dbg_sys = 3
level_value dbg_info = 4
level_value dbg_debug = 5

-- An argument of a format.
pub data Argument : Type 0 where
  text_argument : List ℕ → Argument
  int_argument : ℤ → Argument

-- The global variables `dbg_level` and `logRecord`, and the rest of the machine.
pub record Dbg (W : Type 0) : Type 0 where
  pub dbg_level : DbgLevel
  pub log : LogRecord
  pub world : W

-- "\r\n", and "[%s, %d]: "
abbrev pub line_end : List ℕ
line_end = 13 ∷ 10 ∷ []

abbrev pub located : List ℕ
located = b'[' ∷ b'%' ∷ b's' ∷ b',' ∷ b' ' ∷ b'%' ∷ b'd' ∷ b']' ∷ b':' ∷ b' ' ∷ []

-- A use of one of the macros, with the format and the arguments; `print_fl` has `__FUNCTION__` and
-- `__LINE__`, too.
pub data Statement : Type 0 where
  print printf printf_raw : DbgLevel → List ℕ → List Argument → Statement
  print_fl : DbgLevel → List ℕ → ℕ → List ℕ → List Argument → Statement
  print_hex : DbgLevel → List ℕ → ℕ → Statement
  set_level : DbgLevel → Statement

-- if(level <= dbg_level) debug_printf(...), and the same with debug_phex
pub at_level : {W : Type 0} → DbgLevel → (Dbg W → LogRecord × W) → Dbg W → Dbg W
unfolding level_value
at_level level act d =
    let (log1, w1) = act d in
    if leb (level_value level) (level_value d.dbg_level)
    then record d { log = log1; world = w1 }
    else d

-- vsnprintf on a format and its arguments, and on a piece of a dump, is a parameter.
module _ {W : Type 0} (os : LogOs W) (vsnprintf : List ℕ → List Argument → ℤ × List ℕ) where
  pub dbg_printf : Bool → List ℕ → List Argument → Dbg W → LogRecord × W
  unfolding debug_printf
  dbg_printf is_print_time format arguments d =
      let (_, log1, w1) =
        debug_printf os is_print_time (vsnprintf format arguments) d.log d.world in
      (log1, w1)

module _ {W : Type 0} (os : LogOs W) (vsnprintf : List ℕ → List Argument → ℤ × List ℕ)
    (render : Piece → ℤ × List ℕ) where
  -- The macros.
  unfoldable pub dbg_step : Statement → Dbg W → Dbg W
  unfolding at_level dbg_printf debug_phex
  dbg_step (print level s arguments) d =
      at_level level (dbg_printf os vsnprintf true (s ++ line_end) arguments) d
  dbg_step (printf level s arguments) d =
      at_level level (dbg_printf os vsnprintf true s arguments) d
  dbg_step (printf_raw level s arguments) d =
      at_level level (dbg_printf os vsnprintf false s arguments) d
  dbg_step (print_fl level function line s arguments) d =
      at_level level
        (dbg_printf os vsnprintf true (located ++ (s ++ line_end))
          (text_argument function ∷ int_argument (pos line) ∷ arguments))
        d
  dbg_step (print_hex level buf len) d =
      at_level level (λ e. debug_phex os render buf len e.log e.world) d
  dbg_step (set_level level) d = record d { dbg_level = level }

  -- One after the other.
  unfoldable pub dbg_run : List Statement → Dbg W → Dbg W
  unfolding dbg_step
  dbg_run [] d = d
  dbg_run (s ∷ rest) d = dbg_run rest (dbg_step s d)
