-- ===== src/Debug/Levels/Kept.antt =====
-- general/inc/debug.h: what `debug_printf` and `debug_phex` keep is kept by all the messages of a program.
use linux_uart.Base.{ℕ, Bool, true, false, List, [], ◌∷◌, leb, if-elim}
use linux_uart.Base.Int.{ℤ}
use linux_uart.Debug.{LogOs, LogRecord, Piece, debug_printf, debug_phex}
use linux_uart.Debug.Levels.{
  DbgLevel, level_value, Argument, Dbg, Statement, print, printf, printf_raw, print_fl, print_hex,
  set_level, at_level, dbg_printf, dbg_step, dbg_run,
}

-- What holds of the log record and the machine after a call.
abbrev pub After : {W A : Type 0} → (LogRecord → W → Type 0) → A × LogRecord × W → Type 0
After Holds (result, log, w) = Holds log w

module _ {W : Type 0} (os : LogOs W) (vsnprintf : List ℕ → List Argument → ℤ × List ℕ)
    (render : Piece → ℤ × List ℕ) (Holds : LogRecord → W → Type 0)
    (printf-kept : (is_print_time : Bool) (printed : ℤ × List ℕ) (log : LogRecord) (w : W)
      → Holds log w
      → After Holds (debug_printf os is_print_time printed log w))
    (phex-kept : (buf : List ℕ) (len : ℕ) (log : LogRecord) (w : W)
      → Holds log w
      → let (log1, w1) = debug_phex os render buf len log w in Holds log1 w1) where
  at_level-kept :
      (level : DbgLevel) (act : Dbg W → LogRecord × W) (d : Dbg W)
      → Holds d.log d.world
      → (let (log1, w1) = act d in Holds log1 w1)
      → let after = at_level level act d in Holds after.log after.world
  unfolding at_level
  at_level-kept level act d before after =
      let (log1, w1) = act d in
      if-elim (λ (e : Dbg W). Holds e.log e.world)
        (leb (level_value level) (level_value d.dbg_level))
        {x = record d { log = log1; world = w1 }} {y = d} after before

  printed-kept :
      (level : DbgLevel) (is_print_time : Bool) (format : List ℕ) (arguments : List Argument)
      (d : Dbg W)
      → Holds d.log d.world
      → let after = at_level level (dbg_printf os vsnprintf is_print_time format arguments) d in
        Holds after.log after.world
  unfolding dbg_printf
  printed-kept level is_print_time format arguments d h =
      at_level-kept level (dbg_printf os vsnprintf is_print_time format arguments) d h
        (printf-kept is_print_time (vsnprintf format arguments) d.log d.world h)

  dbg_step-kept :
      (statement : Statement) (d : Dbg W)
      → Holds d.log d.world
      → let after = dbg_step os vsnprintf render statement d in Holds after.log after.world
  unfolding dbg_step
  dbg_step-kept (print level s arguments) d h = printed-kept level true _ arguments d h
  dbg_step-kept (printf level s arguments) d h = printed-kept level true s arguments d h
  dbg_step-kept (printf_raw level s arguments) d h = printed-kept level false s arguments d h
  dbg_step-kept (print_fl level function line s arguments) d h = printed-kept level true _ _ d h
  dbg_step-kept (print_hex level buf len) d h =
      at_level-kept level (λ e. debug_phex os render buf len e.log e.world) d h
        (phex-kept buf len d.log d.world h)
  dbg_step-kept (set_level level) d h = h

  pub dbg_run-kept :
      (statements : List Statement) (d : Dbg W)
      → Holds d.log d.world
      → let after = dbg_run os vsnprintf render statements d in Holds after.log after.world
  unfolding dbg_run
  dbg_run-kept [] d h = h
  dbg_run-kept (s ∷ rest) d h =
      dbg_run-kept rest (dbg_step os vsnprintf render s d) (dbg_step-kept s d h)
