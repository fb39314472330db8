-- ===== src/Debug/Levels/Mirror.antt =====
-- general/inc/debug.h and general/debug.c: what reaches the screen and what reaches the log files, over
-- all the messages of a program.
use linux_uart.Base.{
  ℕ, ◌≡◌, refl, ◌∙◌, arith, Bool, true, false, ◌||◌, List, [], ◌∷◌, ◌++◌, ltb, if-elim, if-cases,
  Option, none, some,
}
use linux_uart.Base.Int.{ℤ, is_positive}
use linux_uart.Debug.{
  LogOs, LogRecord, Piece, open_dir, rotate, close_log, put_log, remove_log, begin_log, is_null,
  dbg_out_str, debug_nolock_printf, debug_printf, expired, log_path, phex_pieces, print_pieces,
  debug_phex,
}
use linux_uart.Debug.Levels.{Argument, Dbg, Statement, dbg_run}
use linux_uart.Debug.Levels.Kept.{dbg_run-kept}

-- A machine with all that was put on the screen, and all that was written into the log files.
pub record Screen (W : Type 0) : Type 0 where
  pub world : W
  pub shown : List ℕ
  pub logged : List ℕ

abbrev pub recording : {W : Type 0} → LogOs W → LogOs (Screen W)
recording os = record {
  time = λ a. let (t, w) = os.time a.world in (t, record a { world = w });
  put_stdout = λ str a. record a { world = os.put_stdout str a.world; shown = a.shown ++ str };
  put_file = λ fp str a. record a { world = os.put_file fp str a.world; logged = a.logged ++ str };
  fclose = λ fp a. record a { world = os.fclose fp a.world };
  fopen = λ path a. let (fp, w) = os.fopen path a.world in (fp, record a { world = w });
  opendir = λ a. let (found, w) = os.opendir a.world in (found, record a { world = w });
  mkdir = λ a. let (r, w) = os.mkdir a.world in (r, record a { world = w });
  entries = λ a. os.entries a.world;
  closedir = λ a. record a { world = os.closedir a.world };
  remove = λ path a. record a { world = os.remove path a.world };
  mutex_init = λ a. let (r, w) = os.mutex_init a.world in (r, record a { world = w });
  mutex_lock = λ a. record a { world = os.mutex_lock a.world };
  mutex_unlock = λ a. record a { world = os.mutex_unlock a.world };
  mutex_destroy = λ a. record a { world = os.mutex_destroy a.world };
  log_name = os.log_name;
  str_time = os.str_time;
}

-- The log directory opens, at the latest after it was made, and so does a new file in it.
pub record LogOpens {W : Type 0} (os : LogOs W) : Type 0 where
  pub directory : (a : Screen W) → (open_dir (recording os) a).0 ≡ true
  pub file : (path : List ℕ) (w : W) → is_null os (os.fopen path w).0 ≡ false

-- Two machines with the same screen and the same log.
abbrev Same : {W : Type 0} → Screen W → Screen W → Type 0
Same a b = (b.shown ≡ a.shown) × (b.logged ≡ a.logged)

-- The screen and the log have the same text.
abbrev pub Mirrored : {W : Type 0} → Screen W → Type 0
Mirrored a = a.shown ≡ a.logged

module _ {W : Type 0} (os : LogOs W) (opens : LogOpens os) where
  open_dir-Same : (a : Screen W) → Same a (open_dir (recording os) a).1
  unfolding open_dir
  open_dir-Same a = ground arith

  close-Same : (fp : Option ℕ) (a : Screen W) → Same a (close_log (recording os) fp a)
  close-Same none a = (refl, refl)
  close-Same (some fp) a = (refl, refl)

  remove-Same : (old : Option (List ℕ)) (a : Screen W) → Same a (remove_log (recording os) old a)
  remove-Same none a = (refl, refl)
  remove-Same (some pioneer) a = (refl, refl)

  put-logs :
      (fp : Option ℕ) (str : List ℕ) (a : Screen W)
      → is_null os fp ≡ false
      → let after = put_log (recording os) fp str a in
        (after.shown ≡ a.shown) × (after.logged ≡ a.logged ++ str)
  put-logs none str a e = ground arith
  put-logs (some fp) str a e = (refl, refl)

  -- A new log file was opened, and nothing printed or logged.
  abbrev Begun : Screen W → Bool × LogRecord × Screen W → Type 0
  Begun a (ok, log1, after) = (ok ≡ true) × (is_null os log1.log_fp ≡ false) × Same a after

  begin-Begun :
      (c_time : ℕ) (log : LogRecord) (fp : Option ℕ) (a : Screen W)
      → is_null os fp ≡ false
      → Begun a (begin_log (recording os) c_time log fp a)
  begin-Begun c_time log none a e = ground arith
  begin-Begun c_time log (some fp) a e =
      (refl, refl, remove-Same (expired (os.log_name c_time) (os.entries a.world)) a)

  rotate-Begun :
      (c_time : ℕ) (log : LogRecord) (a : Screen W) → Begun a (rotate (recording os) c_time log a)
  unfolding rotate
  rotate-Begun c_time log a =
      let a0 = close_log (recording os) log.log_fp a in
      let (p0, q0) = close-Same log.log_fp a in
      let (p1, q1) = open_dir-Same a0 in
      let (_, a1) = open_dir (recording os) a0 in
      let path = log_path (os.log_name c_time) in
      let (fp, a2) = (recording os).fopen path a1 in
      let (ok, old, same2) = begin-Begun c_time log fp a2 (opens.file path a1.world) in
      let (p2, q2) = same2 in rw (opens.directory a0) (ok, old, (p2 ∙ p1 ∙ p0, q2 ∙ q1 ∙ q0))

  put-Mirrored :
      (fp : Option ℕ) (str : List ℕ) (a b : Screen W)
      → is_null os fp ≡ false
      → Same ((recording os).put_stdout str a) b
      → Mirrored a
      → Mirrored (put_log (recording os) fp str b)
  put-Mirrored fp str a b e (p, q) m = let (p1, q1) = put-logs fp str b e in cc

  dbg_out_str-Mirrored :
      (str : List ℕ) (log : LogRecord) (a : Screen W)
      → Mirrored a
      → Mirrored (dbg_out_str (recording os) str log a).1
  unfolding dbg_out_str
  dbg_out_str-Mirrored str log a m =
      let Right : LogRecord × Screen W → Type 0 = λ r. Mirrored r.1 in
      let (c_time, a1) = (recording os).time a in
      let a2 = (recording os).put_stdout str a1 in
      let (ok, log1, a3) = rotate (recording os) c_time log a2 in
      let (ok_true, opened, same) = rotate-Begun c_time log a2 in
      if-cases Right (ltb log.deadline c_time || is_null os log.log_fp)
        (λ _.
          if-cases Right ok {x = (log1, put_log (recording os) log1.log_fp str a3)} {y = (log1, a3)}
            (λ _. put-Mirrored log1.log_fp str a1 a3 opened same m) (λ ok_false. ground arith))
        (λ kept. put-Mirrored log.log_fp str a1 a2 (ground arith) (refl, refl) m)

  debug_printf-Mirrored :
      (is_print_time : Bool) (printed : ℤ × List ℕ) (log : LogRecord) (a : Screen W)
      → Mirrored a
      → Mirrored (debug_printf (recording os) is_print_time printed log a).2
  unfolding debug_printf
  debug_printf-Mirrored is_print_time (ret, text) log a m =
      let Right : ℤ × LogRecord × Screen W → Type 0 = λ r. Mirrored r.2 in
      let a1 = (recording os).mutex_lock a in
      let (now, at) = (recording os).time a1 in
      let (log2, a2) = dbg_out_str (recording os) (os.str_time now) log at in
      let m2 = dbg_out_str-Mirrored (os.str_time now) log at m in
      let m3 = dbg_out_str-Mirrored text log2 a2 m2 in
      let m4 = dbg_out_str-Mirrored text log a1 m in
      if-elim Right (is_positive ret) (if-elim Right is_print_time m3 m4) m

  print_pieces-Mirrored :
      (render : Piece → ℤ × List ℕ) (pieces : List Piece) (log : LogRecord) (a : Screen W)
      → Mirrored a
      → Mirrored (print_pieces (recording os) render pieces log a).1
  unfolding print_pieces debug_nolock_printf
  print_pieces-Mirrored render [] log a m = m
  print_pieces-Mirrored render (p ∷ rest) log a m =
      let (ret, text) = render p in
      let (log1, a1) = debug_nolock_printf (recording os) (render p) log a in
      print_pieces-Mirrored render rest log1 a1 (
        if-elim (λ (r : LogRecord × Screen W). Mirrored r.1) (is_positive ret)
          {x = dbg_out_str (recording os) text log a} {y = (log, a)}
          (dbg_out_str-Mirrored text log a m) m)

  debug_phex-Mirrored :
      (render : Piece → ℤ × List ℕ) (buf : List ℕ) (len : ℕ) (log : LogRecord) (a : Screen W)
      → Mirrored a
      → Mirrored (debug_phex (recording os) render buf len log a).1
  unfolding debug_phex
  debug_phex-Mirrored render buf len log a m =
      print_pieces-Mirrored render (phex_pieces buf len) log ((recording os).mutex_lock a) m

  -- No message is lost from the log. However many messages of whatever levels a program prints, with
  -- or without the time, however many buffers it dumps and however it changes the level, whatever the
  -- clock is and however often the log file is changed: all that was put on the screen is what was
  -- written into the log files, in the same order, where that was so at the start. This
  -- holds where the log directory can be opened, or made and then opened, and every new file in it
  -- can be opened.
  pub dbg_run-Mirrored :
      (vsnprintf : List ℕ → List Argument → ℤ × List ℕ) (render : Piece → ℤ × List ℕ)
      (statements : List Statement) (d : Dbg (Screen W))
      → Mirrored d.world
      → Mirrored (dbg_run (recording os) vsnprintf render statements d).world
  dbg_run-Mirrored vsnprintf render statements d m =
      dbg_run-kept (recording os) vsnprintf render (λ _. Mirrored) debug_printf-Mirrored
        (debug_phex-Mirrored render) statements d m
