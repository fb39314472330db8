-- ===== src/RvMcu/Burn/Loops.antt =====
-- rearview_mcu.c: what the loops of the update leave of a state as it is.
use linux_uart.Base.{
  ℕ, zero, suc, ◌+◌, ◌≡◌, true, false, ◌&&◌, not, List, take, drop, length, ◌==◌, ltb, if-cases,
  if-elim, IfSome, list-cases, inl, inr,
}
use linux_uart.Base.Int.{ℤ, is_neg, is_positive, eq_pos, to_ℕ, neg, signed32}
use linux_uart.MemCtrl.{mem_val}
use linux_uart.RegWrCb.{write}
use linux_uart.RvMcu.Burn.{
  Board, Pushing, Round, again, over, retry_or_give_up, check_burn, push_round, push_block,
  send_file, await_verdict, await_boot, get_burn_firmware_part, read_burn, burn_start,
  cb_burn_start, burn_mode, burnmode_finish_transfer, burn_particle_size, burnmode_burn_error,
  program_magic,
}
use linux_uart.RvMcu.Burn.Push.{finish, push_block-nil, push_block-cons}

-- What the loops of the update do to a state, which `view` does not show.
pub record LoopsKeep {S V : Type 0} (b : Board S) (view : S → V) (v : V) : Type 0 where
  pub reads :
      (addr : ℕ) (buf : List ℕ) (n timeout : ℕ) (s : S)
      → view s ≡ v
      → view (b.bus.read_reg addr buf n timeout s).2 ≡ v
  pub pushes :
      (bytes : List ℕ) (n timeout : ℕ) (s : S)
      → view s ≡ v
      → view (write b.bus cb_burn_start bytes n timeout s).1 ≡ v
  pub sleeps : (us : ℕ) (s : S) → view s ≡ v → view (b.usleep us s) ≡ v
  pub file_reads : (fd : ℤ) (n : ℕ) (s : S) → view s ≡ v → view (b.read_file fd n s).2 ≡ v

module _ {S V : Type 0} (b : Board S) (view : S → V) (v : V) (k : LoopsKeep b view v) where
  abbrev RoundKept : Round (Pushing S) → Type 0
  RoundKept (again p) = view p.state ≡ v
  RoundKept (over p) = view p.state ≡ v

  retry-kept : (p : Pushing S) → view p.state ≡ v → RoundKept (retry_or_give_up p)
  retry-kept p h = if-elim RoundKept (ltb 5 p.retry) h h

  check_burn-kept : (p : Pushing S) → view p.state ≡ v → RoundKept (check_burn b p)
  unfolding check_burn read_burn
  check_burn-kept p h =
      let (r, reg, s) = read_burn b p.reg 500 p.state in
      let kept = k.reads burn_start p.reg 2 500 p.state h in
      if-elim RoundKept (is_neg r) kept (
        if-elim RoundKept (burn_mode reg == burnmode_burn_error) kept
          (retry-kept (record p { ret = r; reg = reg; state = s }) kept))

  push_round-kept : (p : Pushing S) → view p.state ≡ v → RoundKept (push_round b p)
  unfolding push_round
  push_round-kept p h =
      let (w, s) = write b.bus cb_burn_start p.bytes (length p.bytes) 200 p.state in
      let kept = k.pushes p.bytes (length p.bytes) 200 p.state h in
      let p1 = record p { ret = w; state = s } in
      if-elim RoundKept (is_positive w) kept
        (if-elim RoundKept (eq_pos w 0) (check_burn-kept p1 kept) (retry-kept p1 kept))

  finish-kept :
      (fuel : ℕ) (r : Round (Pushing S))
      → RoundKept r
      → ((p : Pushing S) → view p.state ≡ v → view (push_block b fuel p).state ≡ v)
      → view (finish b fuel r).state ≡ v
  finish-kept fuel (again p) h rest = rest p h
  finish-kept fuel (over p) h rest = h

  push_block-kept :
      (fuel : ℕ) (p : Pushing S) → view p.state ≡ v → view (push_block b fuel p).state ≡ v
  unfolding push_block
  push_block-kept zero p h = h
  push_block-kept (suc fuel) p h = elim (list-cases p.bytes) [
    | inl e ↦ rw (push_block-nil b (suc fuel) p e) h
    | inr (x, xs, e) ↦
        rw (push_block-cons b fuel p x xs e)
          (finish-kept fuel (push_round b p) (push_round-kept p h) (push_block-kept fuel))
  ]

  pub await_verdict-kept :
      (fuel : ℕ) (reg : List ℕ) (s : S)
      → view s ≡ v
      → IfSome (λ r. view r.3 ≡ v) (await_verdict b fuel reg s)
  unfolding await_verdict read_burn
  await_verdict-kept zero reg s h = tt
  await_verdict-kept (suc fuel) reg s h =
      let kept = k.reads burn_start reg 2 500 s h in
      let (ret, reg1, s1) = read_burn b reg 500 s in
      if-elim (IfSome (λ r. view r.3 ≡ v)) (is_neg ret) kept (
        if-elim (IfSome (λ r. view r.3 ≡ v)) (burn_mode reg1 == burnmode_finish_transfer)
          (await_verdict-kept fuel reg1 (b.usleep 2000 s1) (k.sleeps 2000 s1 kept)) kept)

  pub await_boot-kept :
      (fuel : ℕ) (info : List ℕ) (s : S)
      → view s ≡ v
      → IfSome (λ s1. view s1 ≡ v) (await_boot b fuel info s)
  unfolding await_boot
  await_boot-kept zero info s h = tt
  await_boot-kept (suc fuel) info s h =
      let kept = k.reads 0 info 88 10 s h in
      let (ret, info1, s1) = b.bus.read_reg 0 info 88 10 s in
      let booted = eq_pos ret 0 && (mem_val (take 4 (drop 36 info1)) == 0) in
      if-elim (IfSome (λ s1. view s1 ≡ v)) booted kept (await_boot-kept fuel info1 s1 kept)

  pub send_file-kept :
      (fuel : ℕ) (fd ret : ℤ) (reg : List ℕ) (s : S)
      → view s ≡ v
      → IfSome (λ r. view r.3 ≡ v) (send_file b fuel fd ret reg s)
  unfolding send_file
  send_file-kept zero fd ret reg s h = tt
  send_file-kept (suc fuel) fd ret reg s h =
      let kept = k.file_reads fd burn_particle_size s h in
      let (r_len, block, s1) = b.read_file fd burn_particle_size s in
      let start : Pushing S = record {
        bytes = take (to_ℕ r_len) block;
        retry = 0;
        ret = ret;
        reg = reg;
        state = s1;
      } in
      let p = push_block b (length start.bytes + 7) start in
      let pushed = push_block-kept (length start.bytes + 7) start kept in
      if-elim (IfSome (λ r. view r.3 ≡ v)) (is_positive r_len)
        (if-elim (IfSome (λ r. view r.3 ≡ v)) (ltb 0 (length p.bytes)) pushed
          (send_file-kept fuel fd p.ret p.reg p.state pushed))
        kept

-- `_GetBurnFirmwarePart` ends where the file could not be opened, or where it was read and closed.
pub firmware_part-cases :
    {S : Type 0} (b : Board S) (P : S → Type 0) (path : List ℕ) (s : S)
    → let (fd, s1) = b.open_rdonly path s in
      let s3 = b.close fd (b.read_file fd 0x1000 s1).2 in
      (is_neg fd ≡ true → P s1) → (is_neg fd ≡ false → P s3) → P (get_burn_firmware_part b path s).1
unfolding get_burn_firmware_part
firmware_part-cases b P path s fails ends =
    let (fd, s1) = b.open_rdonly path s in
    let (ret, head_data, s2) = b.read_file fd 0x1000 s1 in
    let magic = mem_val (take 4 (drop 0x410 head_data)) == program_magic in
    let part = signed32 (mem_val (take 4 (drop 0x424 head_data))) in
    let s3 = b.close fd s2 in
    let After : ℤ × _ → Type 0 = λ r. P r.1 in
    if-cases After (is_neg fd) {x = (neg 1, s1)} fails λ opened.
      if-elim After (not (eq_pos ret 0x1000)) {x = (ret, s3)} (ends opened)
        (if-elim After magic {x = (part, s3)} {y = (neg 1, s3)} (ends opened) (ends opened))
