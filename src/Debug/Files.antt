-- ===== src/Debug/Files.antt =====
-- general/debug.c: the streams of the log files, watched over any machine.
use linux_uart.Base.{
  ℕ, ◌+◌, ◌≡◌, refl, ◌∙◌, arith, Bool, true, false, ◌&&◌, ◌||◌, not, List, [], ◌∷◌, ltb, ◌==◌,
  if◌then◌else◌, if-elim, Option, none, some,
}
use linux_uart.Base.Int.{ℤ, is_positive}
use linux_uart.Debug.{
  LogOs, LogRecord, open_dir, rotate, close_log, put_log, remove_log, begin_log, is_null,
  dbg_out_str, debug_nolock_printf, debug_printf, expired, log_path, Piece, phex_pieces,
  print_pieces, debug_phex,
}

pub record Streams (W : Type 0) : Type 0 where
  pub world : W
  pub held : Bool
  pub open_files : List ℕ
  pub faults : ℕ

abbrev is_open : ℕ → List ℕ → Bool
is_open fp [] = false
is_open fp (x ∷ xs) = if x == fp then true else is_open fp xs

abbrev close_one : ℕ → List ℕ → List ℕ
close_one fp [] = []
close_one fp (x ∷ xs) = if x == fp then xs else x ∷ close_one fp xs

abbrev count : Bool → ℕ → ℕ
count rule n = if rule then n else n + 1

-- The rules: only an open stream is written or closed, the standard output and files are written only
-- while the mutex is held,
-- and the mutex is neither taken twice nor given back twice.
abbrev pub watched : {W : Type 0} → LogOs W → LogOs (Streams W)
watched os = record {
  time = λ a. let (t, w) = os.time a.world in (t, record a { world = w });
  put_stdout =
      λ str a. record a { world = os.put_stdout str a.world; faults = count a.held a.faults };
  put_file = λ fp str a. record a {
    world = os.put_file fp str a.world;
    faults = count (is_open fp a.open_files && a.held) a.faults;
  };
  fclose = λ fp a. record a {
    world = os.fclose fp a.world;
    open_files = close_one fp a.open_files;
    faults = count (is_open fp a.open_files) a.faults;
  };
  fopen = λ path a.
      let (fp, w) = os.fopen path a.world in
      (
        fp,
        record a {
          world = w;
          open_files = elim fp [ none ↦ a.open_files | some f ↦ f ∷ a.open_files ];
        },
      );
  opendir = λ a. let (found, w) = os.opendir a.world in (found, record a { world = w });
  mkdir = λ a. let (r, w) = os.mkdir a.world in (r, record a { world = w });
  entries = λ a. os.entries a.world;
  closedir = λ a. record a { world = os.closedir a.world };
  remove = λ path a. record a { world = os.remove path a.world };
  mutex_init = λ a. let (r, w) = os.mutex_init a.world in (r, record a { world = w });
  mutex_lock = λ a. record a {
    world = os.mutex_lock a.world;
    held = true;
    faults = count (not a.held) a.faults;
  };
  mutex_unlock = λ a. record a {
    world = os.mutex_unlock a.world;
    held = false;
    faults = count a.held a.faults;
  };
  mutex_destroy = λ a. record a { world = os.mutex_destroy a.world };
  log_name = os.log_name;
  str_time = os.str_time;
}

abbrev of_record : Option ℕ → List ℕ
of_record none = []
of_record (some fp) = fp ∷ []

-- The stream of the record is the one that is open, and there have been `n` faults.
abbrev pub Sound : {W : Type 0} → Bool → ℕ → LogRecord → Streams W → Type 0
Sound held n log a = (a.held ≡ held) × (a.open_files ≡ of_record log.log_fp) × (a.faults ≡ n)

-- The log directory opens, at the latest after it was made.
abbrev pub DirOpens : {W : Type 0} → LogOs W → Type 0
DirOpens os = (w : _) → (open_dir (watched os) w).0 ≡ true

module _ {W : Type 0} (os : LogOs W) (opens : DirOpens os) (n : ℕ) where
  open_dir-streams :
      (a : Streams W)
      → let after = (open_dir (watched os) a).1 in
        (after.held ≡ a.held) × (after.open_files ≡ a.open_files) × (after.faults ≡ a.faults)
  unfolding open_dir
  open_dir-streams a = ground arith

  close-none_open :
      (fp : Option ℕ) (a : Streams W)
      → a.open_files ≡ of_record fp
      → let after = close_log (watched os) fp a in
        (after.held ≡ a.held) × (after.open_files ≡ []) × (after.faults ≡ a.faults)
  close-none_open none a e = (refl, e, refl)
  close-none_open (some fp) a e = ground arith

  put-streams :
      (fp : Option ℕ) (str : List ℕ) (a : Streams W)
      → a.open_files ≡ of_record fp
      → a.held ≡ true
      → let after = put_log (watched os) fp str a in
        (after.held ≡ true) × (after.open_files ≡ of_record fp) × (after.faults ≡ a.faults)
  put-streams none str a e h = (h, e, refl)
  put-streams (some fp) str a e h = ground arith

  remove-streams :
      (old : Option (List ℕ)) (a : Streams W)
      → let after = remove_log (watched os) old a in
        (after.held ≡ a.held) × (after.open_files ≡ a.open_files) × (after.faults ≡ a.faults)
  remove-streams none a = (refl, refl, refl)
  remove-streams (some pioneer) a = (refl, refl, refl)

  begin-Sound :
      (c_time : ℕ) (log : LogRecord) (fp : Option ℕ) (a : Streams W)
      → (a.held ≡ true) × (a.open_files ≡ of_record fp) × (a.faults ≡ n)
      → let (ok, log1, after) = begin_log (watched os) c_time log fp a in Sound true n log1 after
  begin-Sound c_time log none a s = s
  begin-Sound c_time log (some fp) a (h, e, f) =
      let (h1, e1, f1) = remove-streams (expired (os.log_name c_time) (os.entries a.world)) a in
      (h1 ∙ h, e1 ∙ e, f1 ∙ f)

  fopen-streams :
      (path : List ℕ) (a : Streams W)
      → (a.held ≡ true) × (a.open_files ≡ []) × (a.faults ≡ n)
      → let (fp, after) = (watched os).fopen path a in
        (after.held ≡ true) × (after.open_files ≡ of_record fp) × (after.faults ≡ n)
  fopen-streams path a s = ground arith

  rotate-Sound :
      (c_time : ℕ) (log : LogRecord) (a : Streams W)
      → Sound true n log a
      → let (ok, log1, after) = rotate (watched os) c_time log a in Sound true n log1 after
  unfolding rotate
  rotate-Sound c_time log a (h, e, f) =
      let a0 = close_log (watched os) log.log_fp a in
      let (h0, e0, f0) = close-none_open log.log_fp a e in
      let (h1, e1, f1) = open_dir-streams a0 in
      let (_, a1) = open_dir (watched os) a0 in
      let path = log_path (os.log_name c_time) in
      let (fp, a2) = (watched os).fopen path a1 in
      let s2 = fopen-streams path a1 (h1 ∙ h0 ∙ h, e1 ∙ e0, f1 ∙ f0 ∙ f) in
      rw (opens a0) (begin-Sound c_time log fp a2 s2)

  dbg_out_str-Sound :
      (str : List ℕ) (log : LogRecord) (a : Streams W)
      → Sound true n log a
      → let (log1, after) = dbg_out_str (watched os) str log a in Sound true n log1 after
  unfolding dbg_out_str
  dbg_out_str-Sound str log a (h, e, f) =
      let Right : LogRecord × Streams W → Type 0 = λ r. Sound true n r.0 r.1 in
      let (c_time, a1) = (watched os).time a in
      let a2 = (watched os).put_stdout str a1 in
      let f2 : a2.faults ≡ n = ground arith in
      let s2 : Sound true n log a2 = (h, e, f2) in
      let (ok, log1, a3) = rotate (watched os) c_time log a2 in
      let (h3, e3, f3) = rotate-Sound c_time log a2 s2 in
      let (h4, e4, f4) = put-streams log1.log_fp str a3 e3 h3 in
      let (h5, e5, f5) = put-streams log.log_fp str a2 e h in
      if-elim Right (ltb log.deadline c_time || is_null os log.log_fp)
        (if-elim Right ok {x = (log1, put_log (watched os) log1.log_fp str a3)} {y = (log1, a3)}
          (h4, e4, f4 ∙ f3) (h3, e3, f3))
        (h5, e5, f5 ∙ f2)

  unlocked :
      (log : LogRecord) (a : Streams W)
      → Sound true n log a
      → Sound false n log ((watched os).mutex_unlock a)
  unlocked log a (h, e, f) = (refl, e, ground arith)

  -- `debug_printf` takes the mutex and gives it back on every path, and uses the log files rightly:
  -- it never writes into a stream or closes one that is not open, and writes only under the mutex. It
  -- leaves at most one log file open, the one of the log record, where that was so before. This holds
  -- where the log directory can be opened, or made and then opened, whatever else fails.
  pub debug_printf-Sound :
      (is_print_time : Bool) (printed : ℤ × List ℕ) (log : LogRecord) (a : Streams W)
      → Sound false n log a
      → let (_, log1, after) = debug_printf (watched os) is_print_time printed log a in
        Sound false n log1 after
  unfolding debug_printf
  debug_printf-Sound is_print_time (ret, text) log a (h, e, f) =
      let Right : ℤ × LogRecord × Streams W → Type 0 = λ r. Sound false n r.1 r.2 in
      let a1 = (watched os).mutex_lock a in
      let s1 : Sound true n log a1 = (refl, e, ground arith) in
      let (now, at) = (watched os).time a1 in
      let (log2, a2) = dbg_out_str (watched os) (os.str_time now) log at in
      let s2 = dbg_out_str-Sound (os.str_time now) log at s1 in
      let (log3, a3) = dbg_out_str (watched os) text log2 a2 in
      let (log4, a4) = dbg_out_str (watched os) text log a1 in
      let s3 = dbg_out_str-Sound text log2 a2 s2 in
      let s4 = dbg_out_str-Sound text log a1 s1 in
      if-elim Right (is_positive ret)
        (if-elim Right is_print_time (unlocked log3 a3 s3) (unlocked log4 a4 s4))
        (unlocked log a1 s1)

  nolock-Sound :
      (printed : ℤ × List ℕ) (log : LogRecord) (a : Streams W)
      → Sound true n log a
      → let (log1, after) = debug_nolock_printf (watched os) printed log a in
        Sound true n log1 after
  unfolding debug_nolock_printf
  nolock-Sound (ret, text) log a s =
      if-elim (λ (r : LogRecord × Streams W). Sound true n r.0 r.1) (is_positive ret)
        {x = dbg_out_str (watched os) text log a} {y = (log, a)} (dbg_out_str-Sound text log a s) s

  print_pieces-Sound :
      (render : Piece → ℤ × List ℕ) (pieces : List Piece) (log : LogRecord) (a : Streams W)
      → Sound true n log a
      → let (log1, after) = print_pieces (watched os) render pieces log a in Sound true n log1 after
  unfolding print_pieces
  print_pieces-Sound render [] log a s = s
  print_pieces-Sound render (p ∷ rest) log a s =
      let (log1, a1) = debug_nolock_printf (watched os) (render p) log a in
      print_pieces-Sound render rest log1 a1 (nolock-Sound (render p) log a s)

  pub debug_phex-Sound :
      (render : Piece → ℤ × List ℕ) (buf : List ℕ) (len : ℕ) (log : LogRecord) (a : Streams W)
      → Sound false n log a
      → let (log1, after) = debug_phex (watched os) render buf len log a in Sound false n log1 after
  unfolding debug_phex
  debug_phex-Sound render buf len log a (h, e, f) =
      let a1 = (watched os).mutex_lock a in
      let (log2, a2) = print_pieces (watched os) render (phex_pieces buf len) log a1 in
      unlocked log2 a2
        (print_pieces-Sound render (phex_pieces buf len) log a1 (refl, e, ground arith))
