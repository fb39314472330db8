-- ===== src/Debug/Tests.antt =====
-- The theorems on general/debug.c, at a small machine.
use linux_uart.Base.{ℕ, ◌+◌, ◌≡◌, refl, true, false, List, [], ◌∷◌, length, replicate, none, some}
use linux_uart.Base.Int.{ℤ, pos}
use linux_uart.Debug.{
  Entry, LogOs, LogRecord, open_dir, Piece, expired, scan, strcmp_less, dbg_out_str, phex_pieces,
}
use linux_uart.Debug.Oldest.{Expiry, expired-Expiry}
use linux_uart.Debug.Files.{Streams, watched, DirOpens, Sound}
use linux_uart.Debug.Levels.{
  dbg_err, dbg_sys, dbg_info, dbg_debug, Argument, print, printf_raw, print_hex, set_level,
  Statement, dbg_run, dbg_step,
}
use linux_uart.Debug.Levels.Session.{dbg_run-Sound}
use linux_uart.Debug.Levels.Mirror.{Screen, recording, LogOpens, Mirrored, dbg_run-Mirrored}
use linux_uart.Debug.Dump.{shown_bytes, phex_pieces-shows_buffer}

-- A log file of a day; files of 23 characters.
abbrev name : ℕ → List ℕ
name day = day ∷ replicate 22 0

abbrev file : ℕ → Entry
file day = record { regular = true; d_name = name day }

abbrev directory : List Entry
directory = file 7 ∷ file 3 ∷ file 5 ∷ file 9 ∷ file 4 ∷ file 6 ∷ []

-- The clock is the state; opening a file always works.
abbrev machine : LogOs ℕ
machine = record {
  time = λ w. (w, w + 1);
  put_stdout = λ str w. w;
  put_file = λ fp str w. w;
  fclose = λ fp w. w;
  fopen = λ path w. (some 8, w);
  opendir = λ w. (true, w);
  mkdir = λ w. (pos 0, w);
  entries = λ w. directory;
  closedir = λ w. w;
  remove = λ path w. w;
  mutex_init = λ w. (pos 0, w);
  mutex_lock = λ w. w;
  mutex_unlock = λ w. w;
  mutex_destroy = λ w. w;
  log_name = name;
  str_time = λ t. [];
}

-- Five files are older than the one of day 8; the oldest is that of day 3.
expired_run : expired (name 8) directory ≡ some (name 3)
unfolding expired scan strcmp_less
expired_run = refl

expired-Expiry_example : Expiry (name 8) directory (expired (name 8) directory)
expired-Expiry_example = expired-Expiry (name 8) directory

machine-DirOpens : DirOpens machine
unfolding open_dir
machine-DirOpens w = refl

abbrev fresh : LogRecord
fresh = record { deadline = 0; log_fp = none }

abbrev start : Streams ℕ
start = record { world = 8; held = false; open_files = []; faults = 0 }

abbrev plain : List ℕ → List Argument → ℤ × List ℕ
plain format arguments = (pos (length format), format)

abbrev as_hash : Piece → ℤ × List ℕ
as_hash piece = (pos 1, b'#' ∷ [])

-- A message, one that the level hides, and a dump.
abbrev session : List Statement
session =
    print dbg_info (7 ∷ 7 ∷ []) []
    ∷ set_level dbg_sys
    ∷ printf_raw dbg_info (9 ∷ []) []
    ∷ print_hex dbg_err (1 ∷ 2 ∷ []) 2
    ∷ []

dbg_run-Sound_example :
    let after =
      dbg_run
        (watched machine)
        plain
        as_hash
        session
        (record { dbg_level = dbg_debug; log = fresh; world = start }) in
    Sound false 0 after.log after.world
dbg_run-Sound_example =
    dbg_run-Sound machine plain as_hash machine-DirOpens 0 session
      (record { dbg_level = dbg_debug; log = fresh; world = start }) (refl, refl, refl)

abbrev empty_screen : Screen ℕ
empty_screen = record { world = 8; shown = []; logged = [] }

machine-LogOpens : LogOpens machine
unfolding open_dir
machine-LogOpens = record { directory = λ a. refl; file = λ path w. refl }

dbg_run-Mirrored_example :
    Mirrored
      (dbg_run
        (recording machine)
        plain
        as_hash
        session
        (record { dbg_level = dbg_debug; log = fresh; world = empty_screen })).world
dbg_run-Mirrored_example =
    dbg_run-Mirrored machine machine-LogOpens plain as_hash session
      (record { dbg_level = dbg_debug; log = fresh; world = empty_screen }) refl

-- The message with its line end, and the dump of two bytes in 23 pieces.
session_run :
    (dbg_run
      (recording machine)
      plain
      as_hash
      session
      (record { dbg_level = dbg_debug; log = fresh; world = empty_screen })).world.logged
    ≡ 7 ∷ 7 ∷ 13 ∷ 10 ∷ replicate 22 b'#'
unfolding dbg_run dbg_step dbg_out_str strcmp_less
session_run = refl

phex_pieces-shows_buffer_example : shown_bytes (phex_pieces (name 1) (length (name 1))) ≡ name 1
phex_pieces-shows_buffer_example = phex_pieces-shows_buffer (name 1)
