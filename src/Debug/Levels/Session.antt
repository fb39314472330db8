-- ===== src/Debug/Levels/Session.antt =====
-- general/inc/debug.h and general/debug.c: the log files over all the messages of a program.
use linux_uart.Base.{ℕ, false, List}
use linux_uart.Base.Int.{ℤ}
use linux_uart.Debug.{LogOs, Piece}
use linux_uart.Debug.Files.{Streams, watched, DirOpens, Sound, debug_printf-Sound, debug_phex-Sound}
use linux_uart.Debug.Levels.{Argument, Dbg, Statement, dbg_run}
use linux_uart.Debug.Levels.Kept.{dbg_run-kept}

module _ {W : Type 0} (os : LogOs W) (vsnprintf : List ℕ → List Argument → ℤ × List ℕ)
    (render : Piece → ℤ × List ℕ) (opens : DirOpens os) (n : ℕ) where
  -- However many messages of whatever levels a program prints, with or without the time, however many
  -- buffers it dumps and however it changes the level: each macro takes the mutex and gives it back,
  -- nothing is written into a stream or closed that is not open, and neither the standard output nor a
  -- log file is written without the mutex. At most one log file is open in between, the one of the log record, where that was so
  -- at the start. This holds where the log directory can be opened, or made and then opened, whatever
  -- else fails.
  pub dbg_run-Sound :
      (statements : List Statement) (d : Dbg (Streams W))
      → Sound false n d.log d.world
      → let after = dbg_run (watched os) vsnprintf render statements d in
        Sound false n after.log after.world
  dbg_run-Sound statements d sound =
      dbg_run-kept (watched os) vsnprintf render (Sound false n) (debug_printf-Sound os opens n)
        (debug_phex-Sound os opens n render) statements d sound
