-- ===== src/Debug.antt =====
-- general/debug.c: messages go to the standard output and to log files, which are changed after a while
-- and of which the oldest is removed. Formatting, the clock, the directory and the files are parameters.
pub mod Oldest
pub mod Files
pub mod Dump
pub mod Levels
mod Tests
use linux_uart.Base.{
  ℕ, zero, suc, ◌+◌, ◌*◌, ◌/◌, ◌%◌, ◌≤◌, Bool, true, false, ◌&&◌, ◌||◌, not, List, [], ◌∷◌, ◌++◌,
  take, length, get_or, ltb, ◌==◌, if◌then◌else◌, Option, none, some,
}
use linux_uart.Base.Int.{ℤ, is_neg, is_positive}

-- An entry of a directory: its name, and whether it is a regular file.
pub record Entry : Type 0 where
  pub regular : Bool
  pub d_name : List ℕ

-- The calls. A stream is a number, and `none` is a null pointer.
pub record LogOs (W : Type 0) : Type 0 where
  pub time : W → ℕ × W
  pub put_stdout : List ℕ → W → W
  -- fputs and fflush
  pub put_file : ℕ → List ℕ → W → W
  pub fclose : ℕ → W → W
  pub fopen : List ℕ → W → Option ℕ × W
  pub opendir : W → Bool × W
  pub mkdir : W → ℤ × W
  pub entries : W → List Entry
  pub closedir : W → W
  pub remove : List ℕ → W → W
  pub mutex_init : W → ℤ × W
  pub mutex_lock : W → W
  pub mutex_unlock : W → W
  pub mutex_destroy : W → W
  -- localtime_r and strftime: the name of a log file, and the time at the front of a message
  pub log_name : ℕ → List ℕ
  pub str_time : ℕ → List ℕ

abbrev pub log_interval_time : ℕ
log_interval_time = 20

abbrev pub log_max_file_count : ℕ
log_max_file_count = 5

abbrev pub log_filename_len : ℕ
log_filename_len = 23

-- strcmp(a, b) < 0, on the characters before the terminating zero.
pub strcmp_less : List ℕ → List ℕ → Bool
strcmp_less a [] = false
strcmp_less [] (y ∷ b) = true
strcmp_less (x ∷ a) (y ∷ b) = if x == y then strcmp_less a b else ltb x y

-- Whether an entry is a log file older than the one of this name.
abbrev pub is_older : List ℕ → Entry → Bool
is_older log_name e =
    e.regular && (length e.d_name == log_filename_len) && strcmp_less e.d_name log_name

-- The loop over the directory: how many are older, and the name of the oldest so far.
pub scan : List ℕ → List Entry → ℕ → List ℕ → ℕ × List ℕ
scan log_name [] file_count pioneer = (file_count, pioneer)
scan log_name (e ∷ rest) file_count pioneer =
    let found =
      scan log_name rest (file_count + 1)
        (if strcmp_less e.d_name pioneer then e.d_name else pioneer) in
    let passed = scan log_name rest file_count pioneer in
    if is_older log_name e then found else passed

-- The file that is removed, if any.
pub expired : List ℕ → List Entry → Option (List ℕ)
unfolding scan
expired log_name entries =
    let (file_count, pioneer) = scan log_name entries 0 log_name in
    if ltb file_count log_max_file_count then none else some pioneer

-- `struct LogRecord`
pub record LogRecord : Type 0 where
  pub deadline : ℕ
  pub log_fp : Option ℕ

-- LOG_DIR_PATH and the name, in the 128 characters of `log_path`.
abbrev pub log_path : List ℕ → List ℕ
log_path name = take 127 (
    b'/' ∷ b'u' ∷ b's' ∷ b'e' ∷ b'r' ∷ b'd' ∷ b'a' ∷ b't' ∷ b'a' ∷ b'/' ∷ b'l' ∷ b'o' ∷ b'g' ∷ b'/'
    ∷ name)

module _ {W : Type 0} (os : LogOs W) where
  -- Both tries of opendir, with mkdir between them.
  pub open_dir : W → Bool × W
  open_dir w =
      let (found, w1) = os.opendir w in
      let (made, w2) = os.mkdir w1 in
      if found then (true, w1) else if is_neg made then (false, w2) else os.opendir w2

  -- Closing the stream that there is, writing into it, and removing the file that there is.
  abbrev pub close_log : Option ℕ → W → W
  close_log none w = w
  close_log (some fp) w = os.fclose fp w

  abbrev pub put_log : Option ℕ → List ℕ → W → W
  put_log none str w = w
  put_log (some fp) str w = os.put_file fp str w

  abbrev pub remove_log : Option (List ℕ) → W → W
  remove_log none w = w
  remove_log (some pioneer) w = os.remove (log_path pioneer) w

  -- What comes after fopen. The first result is whether the message can be written.
  abbrev pub begin_log : ℕ → LogRecord → Option ℕ → W → Bool × LogRecord × W
  begin_log c_time log none w = (false, record log { log_fp = none }, os.closedir w)
  begin_log c_time log (some fp) w = (
    true,
    record { deadline = c_time + log_interval_time * 60; log_fp = some fp },
    os.closedir (remove_log (expired (os.log_name c_time) (os.entries w)) w),
  )

  -- A new log file. A stream that is closed stays in `log_fp` where the directory cannot be opened.
  pub rotate : ℕ → LogRecord → W → Bool × LogRecord × W
  unfolding expired open_dir
  rotate c_time log w =
      let (opened, w1) = open_dir (close_log log.log_fp w) in
      let (fp, w2) = os.fopen (log_path (os.log_name c_time)) w1 in
      if opened then begin_log c_time log fp w2 else (false, log, w1)

  abbrev pub is_null : Option ℕ → Bool
  is_null none = true
  is_null (some fp) = false

  -- `dbg_out_str`
  unfoldable pub dbg_out_str : List ℕ → LogRecord → W → LogRecord × W
  unfolding rotate
  dbg_out_str str log w =
      let (c_time, w1) = os.time w in
      let w2 = os.put_stdout str w1 in
      let (ok, log1, w3) = rotate c_time log w2 in
      if ltb log.deadline c_time || is_null log.log_fp
      then (if ok then (log1, put_log log1.log_fp str w3) else (log1, w3))
      else (log, put_log log.log_fp str w2)

  -- `_debug_nolock_printf`: what vsnprintf returns and leaves in the buffer is given.
  pub debug_nolock_printf : ℤ × List ℕ → LogRecord → W → LogRecord × W
  debug_nolock_printf (ret, text) log w =
      let out = dbg_out_str text log w in if is_positive ret then out else (log, w)

  -- `debug_printf`, with the value of vsnprintf.
  unfoldable pub debug_printf : Bool → ℤ × List ℕ → LogRecord → W → ℤ × LogRecord × W
  unfolding debug_nolock_printf
  debug_printf is_print_time (ret, text) log w =
      let w1 = os.mutex_lock w in
      let (now, wt) = os.time w1 in
      let (log2, w2) = dbg_out_str (os.str_time now) log wt in
      let (log3, w3) = dbg_out_str text log2 w2 in
      let (log4, w4) = dbg_out_str text log w1 in
      if is_positive ret
      then if is_print_time
        then (ret, log3, os.mutex_unlock w3)
        else (ret, log4, os.mutex_unlock w4)
      else (ret, log, os.mutex_unlock w1)

-- What `debug_phex` prints piece by piece: the lines that do not depend on the bytes, the front of a
-- row with its address, a byte, three blanks, and the end of a row.
pub data Piece : Type 0 where
  top heading rule row_end blank : Piece
  row_start : ℕ → Piece
  hex_byte : ℕ → Piece

-- The loop over a row: `n` cells from `x` on, of which those below `x_n` show bytes.
pub row_cells : ℕ → ℕ → ℕ → List ℕ → ℕ → List Piece
row_cells zero x x_n start i = []
row_cells (suc n) x x_n start i =
    let shown = hex_byte (get_or start i 0) ∷ row_cells n (x + 1) x_n start (i + 1) in
    let skipped = blank ∷ row_cells n (x + 1) x_n start i in if ltb x x_n then shown else skipped

pub full_rows : ℕ → ℕ → List ℕ → List Piece
unfolding row_cells
full_rows zero y start = []
full_rows (suc n) y start =
    row_start (y * 16) ∷ (row_cells 16 0 16 start (y * 16) ++ (row_end ∷ full_rows n (y + 1) start))

-- `debug_phex` of `len` bytes, as it hands them to `_debug_nolock_printf`.
pub phex_pieces : List ℕ → ℕ → List Piece
unfolding full_rows row_cells
phex_pieces start len =
    let y_n = len / 16 in
    let x_n = len % 16 in
    let last = row_start (y_n * 16) ∷ (row_cells 16 0 x_n start (y_n * 16) ++ (row_end ∷ [])) in
    top
    ∷ heading
    ∷ rule
    ∷ (full_rows y_n 0 start ++ ((if ltb 0 x_n then last else []) ++ (rule ∷ [])))

module _ {W : Type 0} (os : LogOs W) (render : Piece → ℤ × List ℕ) where
  pub print_pieces : List Piece → LogRecord → W → LogRecord × W
  unfolding debug_nolock_printf
  print_pieces [] log w = (log, w)
  print_pieces (p ∷ rest) log w =
      let (log1, w1) = debug_nolock_printf os (render p) log w in print_pieces rest log1 w1

  -- `debug_phex`, where `render` is what vsnprintf makes of a piece.
  unfoldable pub debug_phex : List ℕ → ℕ → LogRecord → W → LogRecord × W
  unfolding print_pieces phex_pieces
  debug_phex buf len log w =
      let (log1, w1) = print_pieces (phex_pieces buf len) log (os.mutex_lock w) in
      (log1, os.mutex_unlock w1)

module _ {W : Type 0} (os : LogOs W) where
  -- `debug_init` and `debug_exit`
  pub debug_init : W → ℤ × W
  debug_init w = os.mutex_init w

  pub debug_exit : W → W
  debug_exit w = os.mutex_destroy w
