-- ===== src/RegWrCb.antt =====
-- regwr_cb.c: a ring buffer of the MCU, read and written through registers. `read_reg` and
-- `write_reg` are parameters, as they are function pointers of the handle in C. A division by a
-- `gran_size` of 0 is undefined in C; the callers pass the size of a struct.
pub mod Ring
pub mod Granular
pub mod Recorded
pub mod Simulated
pub mod Sure
mod Tests
use linux_uart.Base.{
  ℕ, ◌+◌, ◌*◌, ◌/◌, ◌%◌, ◌^◌, Bool, List, [], ◌∷◌, take, replicate, ltb, if◌then◌else◌,
}
use linux_uart.Base.Int.{ℤ, pos, is_neg, eq_pos, to_ℕ, signed32}
use linux_uart.MemCtrl.{mem_bytes, mem_val}

-- The function pointers: address, data, length, timeout, and the state that they act on. The list
-- that `read_reg` returns is the caller's buffer afterwards.
pub record RegWrCbHandle (S : Type 0) : Type 0 where
  pub write_reg : ℕ → List ℕ → ℕ → ℕ → S → ℤ × S
  pub read_reg : ℕ → List ℕ → ℕ → ℕ → S → ℤ × List ℕ × S

-- The registers of a ring buffer, counted from its start.
abbrev pub cbreg_cmd_get_size : ℕ
cbreg_cmd_get_size = 0x00

abbrev pub cbreg_cmd_get_freesize : ℕ
cbreg_cmd_get_freesize = 0x01

abbrev pub cbreg_cmd_read : ℕ
cbreg_cmd_read = 0x02

abbrev pub cbreg_cmd_write : ℕ
cbreg_cmd_write = 0x03

abbrev pub cbreg_cmd_clean : ℕ
cbreg_cmd_clean = 0x04

abbrev pub cbreg_cmd_readair : ℕ
cbreg_cmd_readair = 0x05

abbrev pub cbreg_cmd_peep : ℕ
cbreg_cmd_peep = 0x06

-- cb_addr + cmd, as a `uint16_t`
abbrev pub reg_at : ℕ → ℕ → ℕ
reg_at cb_addr cmd = (cb_addr + cmd) % 2 ^ 16

-- len > ret ? ret : len
abbrev pub clip : ℕ → ℕ → ℕ
clip len n = if ltb n len then n else len

module _ {S : Type 0} (h : RegWrCbHandle S) where
  -- Four bytes of a register into an `int`, whose bytes count only after they were read.
  pub read_int : ℕ → ℕ → S → ℤ × S
  read_int addr timeout s =
      let (ret, size, s1) = h.read_reg addr (replicate 4 0) 4 timeout s in
      if is_neg ret then (ret, s1) else (signed32 (mem_val (take 4 size)), s1)

  -- `RegWrCb_Size`
  unfoldable pub size : ℕ → ℕ → S → ℤ × S
  unfolding read_int
  size cb_addr timeout s = read_int (reg_at cb_addr cbreg_cmd_get_size) timeout s

  -- `RegWrCb_FreeSize`
  unfoldable pub free_size : ℕ → ℕ → S → ℤ × S
  unfolding read_int
  free_size cb_addr timeout s = read_int (reg_at cb_addr cbreg_cmd_get_freesize) timeout s

  -- What `RegWrCb_Read` and `RegWrCb_Peep` have in common, which differ in the register.
  pub fetch : ℕ → ℕ → List ℕ → ℕ → ℕ → S → ℤ × List ℕ × S
  fetch cmd cb_addr buf buf_size timeout s =
      let (ret, s1) = size cb_addr timeout s in
      let r_len = clip (buf_size % 2 ^ 16) (to_ℕ ret) in
      let (ret2, buf2, s2) = h.read_reg (reg_at cb_addr cmd) buf r_len timeout s1 in
      if is_neg ret
      then (ret, buf, s1)
      else if eq_pos ret 0
      then (pos 0, buf, s1)
      else if is_neg ret2
      then (ret2, buf2, s2)
      else (pos r_len, buf2, s2)

  -- `RegWrCb_Read`
  unfoldable pub read : ℕ → List ℕ → ℕ → ℕ → S → ℤ × List ℕ × S
  unfolding fetch
  read cb_addr buf buf_size timeout s = fetch cbreg_cmd_read cb_addr buf buf_size timeout s

  -- `RegWrCb_Peep`
  unfoldable pub peep : ℕ → List ℕ → ℕ → ℕ → S → ℤ × List ℕ × S
  unfolding fetch
  peep cb_addr buf buf_size timeout s = fetch cbreg_cmd_peep cb_addr buf buf_size timeout s

  -- `RegWrCb_Write`
  unfoldable pub write : ℕ → List ℕ → ℕ → ℕ → S → ℤ × S
  write cb_addr bytes data_size timeout s =
      let (ret, s1) = free_size cb_addr timeout s in
      let w_len = clip (data_size % 2 ^ 16) (to_ℕ ret) in
      let (ret2, s2) = h.write_reg (reg_at cb_addr cbreg_cmd_write) bytes w_len timeout s1 in
      if is_neg ret
      then (ret, s1)
      else if eq_pos ret 0
      then (pos 0, s1)
      else if is_neg ret2
      then (ret2, s2)
      else (pos w_len, s2)

  -- `RegWrCb_GranRead`
  unfoldable pub gran_read : ℕ → List ℕ → ℕ → ℕ → ℕ → S → ℤ × List ℕ × S
  gran_read cb_addr bytes gran_size nmemb timeout s =
      let (ret, s1) = size cb_addr timeout s in
      let r_num = clip (to_ℕ ret / gran_size) (nmemb % 2 ^ 16) in
      let r_len = r_num * gran_size % 2 ^ 32 % 2 ^ 16 in
      let (ret2, bytes2, s2) = h.read_reg (reg_at cb_addr cbreg_cmd_read) bytes r_len timeout s1 in
      if is_neg ret
      then (ret, bytes, s1)
      else if ltb 0 r_num
      then if is_neg ret2 then (ret2, bytes2, s2) else (pos r_num, bytes2, s2)
      else (pos 0, bytes, s1)

  -- `RegWrCb_GranWrite`
  unfoldable pub gran_write : ℕ → List ℕ → ℕ → ℕ → ℕ → S → ℤ × S
  gran_write cb_addr bytes gran_size nmemb timeout s =
      let (ret, s1) = free_size cb_addr timeout s in
      let w_num = clip (to_ℕ ret / gran_size) (nmemb % 2 ^ 16) in
      let w_len = w_num * gran_size % 2 ^ 32 % 2 ^ 16 in
      let (ret2, s2) = h.write_reg (reg_at cb_addr cbreg_cmd_write) bytes w_len timeout s1 in
      if is_neg ret
      then (ret, s1)
      else if ltb 0 w_num
      then if is_neg ret2 then (ret2, s2) else (pos w_num, s2)
      else (pos 0, s1)

  -- `RegWrCb_Clean`
  unfoldable pub clean : ℕ → ℕ → S → ℤ × S
  clean cb_addr timeout s =
      let (ret, s1) = h.write_reg (reg_at cb_addr cbreg_cmd_clean) (0x00 ∷ []) 1 timeout s in
      if is_neg ret then (ret, s1) else (pos 0, s1)

  -- `RegWrCb_ReadAir`
  unfoldable pub read_air : ℕ → ℕ → ℕ → S → ℤ × S
  unfolding mem_bytes
  read_air cb_addr read_size timeout s =
      let (ret, s1) = size cb_addr timeout s in
      let r_len = clip (read_size % 2 ^ 16) (to_ℕ ret) in
      let (ret2, s2) =
        h.write_reg (reg_at cb_addr cbreg_cmd_readair) (mem_bytes 4 r_len) 4 timeout s1 in
      if is_neg ret
      then (ret, s1)
      else if eq_pos ret 0
      then (pos 0, s1)
      else if is_neg ret2
      then (ret2, s2)
      else (pos r_len, s2)
