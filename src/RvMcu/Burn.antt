-- ===== src/RvMcu/Burn.antt =====
-- rearview_mcu.c: the firmware update. The loops run on fuel; `none` is a run that is cut short.
pub mod Push
pub mod Transfer
pub mod Loops
pub mod Keeps
pub mod Protocol
mod Tests
use linux_uart.Base.{
  ℕ, zero, suc, ◌+◌, ◌*◌, ◌%◌, ◌^◌, Bool, true, false, ◌&&◌, ◌||◌, not, List, [], ◌∷◌, get_or, take,
  drop, length, replicate, ◌==◌, ltb, if◌then◌else◌, Option, none, some,
}
use linux_uart.Base.Int.{ℤ, pos, is_neg, is_positive, eq_pos, to_ℕ, neg, signed32}
use linux_uart.MemCtrl.{mem_val}
use linux_uart.RegWrCb.{RegWrCbHandle, write, clean}

-- What the update uses: the registers, files, and usleep.
pub record Board (S : Type 0) : Type 0 where
  pub bus : RegWrCbHandle S
  pub open_rdonly : List ℕ → S → ℤ × S
  pub read_file : ℤ → ℕ → S → ℤ × List ℕ × S
  pub close : ℤ → S → S
  pub usleep : ℕ → S → S

-- `MBMBurnMode`
abbrev pub burnmode_wait_burn : ℕ
burnmode_wait_burn = 1

abbrev pub burnmode_start_erase : ℕ
burnmode_start_erase = 2

abbrev pub burnmode_erase_ok : ℕ
burnmode_erase_ok = 3

abbrev pub burnmode_start_burn : ℕ
burnmode_start_burn = 4

abbrev pub burnmode_finish_transfer : ℕ
burnmode_finish_transfer = 5

abbrev pub burnmode_burn_error : ℕ
burnmode_burn_error = 7

abbrev pub burnmode_exit_burn : ℕ
burnmode_exit_burn = 8

abbrev pub burnmode_app_goto_bootloader : ℕ
burnmode_app_goto_bootloader = 0xFF

-- `BFP_APP_A` and `BFP_APP_B`
abbrev pub bfp_app_a : ℕ
bfp_app_a = 1

abbrev pub bfp_app_b : ℕ
bfp_app_b = 2

abbrev pub burn_start : ℕ
burn_start = 0x1400

abbrev pub cb_burn_start : ℕ
cb_burn_start = 0x1402

abbrev pub burn_particle_size : ℕ
burn_particle_size = 512

-- `BurnStaReg` as its two bytes.
abbrev pub burn_mode : List ℕ → ℕ
burn_mode reg = get_or reg 0 0

abbrev pub parameter : List ℕ → ℕ
parameter reg = get_or reg 1 0

abbrev pub with_mode : ℕ → List ℕ → List ℕ
with_mode mode reg = mode ∷ parameter reg ∷ []

-- PROGRAM_MAGIC: the bytes "pi__".
abbrev pub program_magic : ℕ
program_magic = b'p' + 256 * (b'i' + 256 * (b'_' + 256 * b'_'))

-- A round of a loop asks for another one, or ends the loop.
pub data Round (A : Type 0) : Type 0 where
  again : A → Round A
  over : A → Round A

-- The variables of the loop over one block: the bytes from `start` to `end`, `retry`, `ret`, `reg`.
pub record Pushing (S : Type 0) : Type 0 where
  pub bytes : List ℕ
  pub retry : ℕ
  pub ret : ℤ
  pub reg : List ℕ
  pub state : S

-- `if(retry++ > BURN_WR_MAX_RETRY) goto burn_out;` at the end of a round.
abbrev pub retry_or_give_up : {S : Type 0} → Pushing S → Round (Pushing S)
retry_or_give_up p = if ltb 5 p.retry then over p else again (record p { retry = p.retry + 1 })

module _ {S : Type 0} (b : Board S) where
  pub read_burn : List ℕ → ℕ → S → ℤ × List ℕ × S
  read_burn reg timeout s = b.bus.read_reg burn_start reg 2 timeout s

  pub write_burn : List ℕ → ℕ → S → ℤ × S
  write_burn reg timeout s = b.bus.write_reg burn_start reg 1 timeout s

  -- `_GetBurnFirmwarePart`
  unfoldable pub get_burn_firmware_part : List ℕ → S → ℤ × S
  unfolding mem_val
  get_burn_firmware_part path s =
      let (fd, s1) = b.open_rdonly path s in
      let (ret, head_data, s2) = b.read_file fd 0x1000 s1 in
      let s3 = b.close fd s2 in
      if is_neg fd
      then (neg 1, s1)
      else if not (eq_pos ret 0x1000)
      then (ret, s3)
      else if mem_val (take 4 (drop 0x410 head_data)) == program_magic
      then (signed32 (mem_val (take 4 (drop 0x424 head_data))), s3)
      else (neg 1, s3)

  -- The ring buffer is full: the MCU is asked how the burning goes.
  pub check_burn : Pushing S → Round (Pushing S)
  check_burn p =
      let (r, reg, s) = read_burn p.reg 500 p.state in
      let p1 = record p { ret = r; reg = reg; state = s } in
      if is_neg r
      then over p1
      else if burn_mode reg == burnmode_burn_error
      then over (record p1 { ret = neg (parameter reg) })
      else retry_or_give_up p1

  -- A round of the loop over the bytes of a block.
  pub push_round : Pushing S → Round (Pushing S)
  push_round p =
      let (w, s) = write b.bus cb_burn_start p.bytes (length p.bytes) 200 p.state in
      let p1 = record p { ret = w; state = s } in
      if is_positive w
      then again (record p1 { bytes = drop (to_ℕ w) p.bytes })
      else if eq_pos w 0
      then check_burn p1
      else retry_or_give_up p1

  -- The loop over the bytes of a block. Where it leaves bytes, it has jumped to `burn_out`.
  pub push_block : ℕ → Pushing S → Pushing S
  push_block zero p = p
  push_block (suc fuel) p = elim p.bytes [
    | [] ↦ p
    | x ∷ xs ↦ elim (push_round p) [ again q ↦ push_block fuel q | over q ↦ q ]
  ]

  -- The loop over the blocks of the file: `none` when fuel runs out, else whether it has ended by
  -- itself, with `ret`, `reg` and the state.
  pub send_file : ℕ → ℤ → ℤ → List ℕ → S → Option (Bool × ℤ × List ℕ × S)
  send_file zero fd ret reg s = none
  send_file (suc fuel) fd ret reg s =
      let (r_len, block, s1) = b.read_file fd burn_particle_size s in
      let start : Pushing S = record {
        bytes = take (to_ℕ r_len) block;
        retry = 0;
        ret = ret;
        reg = reg;
        state = s1;
      } in
      let p = push_block (length start.bytes + 7) start in
      let rest = send_file fuel fd p.ret p.reg p.state in
      if is_positive r_len
      then if ltb 0 (length p.bytes) then some (false, p.ret, p.reg, p.state) else rest
      else some (true, ret, reg, s1)

  -- The loop that waits for the verdict of the MCU, with `ret` and `reg` at its end.
  pub await_verdict : ℕ → List ℕ → S → Option (Bool × ℤ × List ℕ × S)
  await_verdict zero reg s = none
  await_verdict (suc fuel) reg s =
      let (ret, reg1, s1) = read_burn reg 500 s in
      let rest = await_verdict fuel reg1 (b.usleep 2000 s1) in
      if is_neg ret
      then some (false, ret, reg1, s1)
      else if burn_mode reg1 == burnmode_finish_transfer
      then rest
      else some (true, neg (parameter reg1), reg1, s1)

  -- From the end of the transfer to the label `burn_out`.
  pub finish_burn : ℕ → ℤ → List ℕ → S → Option (ℤ × S)
  finish_burn fuel fd reg s =
      let (_, s1) = write_burn (burnmode_finish_transfer ∷ 0 ∷ []) 500 s in
      elim (await_verdict fuel (burnmode_finish_transfer ∷ 0 ∷ []) s1) [
        | none ↦ none
        | some (answered, ret, reg1, s2) ↦
            let (_, s3) = write_burn (with_mode burnmode_exit_burn reg1) 200 s2 in
            if is_neg ret then some (ret, b.close fd s2) else some (ret, b.close fd s3)
      ]

  -- `_BurnMcu` once the file is open.
  pub burn_file : ℕ → ℤ → ℤ → List ℕ → S → Option (ℤ × S)
  burn_file fuel fd ret reg s = elim (send_file fuel fd ret reg s) [
    | none ↦ none
    | some (sent, ret1, reg1, s1) ↦
        if sent then finish_burn fuel fd reg1 s1 else some (ret1, b.close fd s1)
  ]

  -- `_BurnMcu`
  unfoldable pub burn_firmware : ℕ → List ℕ → S → Option (ℤ × S)
  burn_firmware fuel path s =
      let (r1, s1) = write_burn (burnmode_start_erase ∷ 0 ∷ []) 500 s in
      let (r2, reg, s2) = read_burn (burnmode_start_erase ∷ 0 ∷ []) 5000 s1 in
      let burning = with_mode burnmode_start_burn reg in
      let (r3, s3) = write_burn burning 500 s2 in
      let (_, s4) = clean b.bus cb_burn_start 200 s3 in
      let (fd, s5) = b.open_rdonly path s4 in
      if is_neg r1
      then some (r1, s1)
      else if is_neg r2
      then some (r2, s2)
      else if not (burn_mode reg == burnmode_erase_ok)
      then some (neg (parameter reg), s2)
      else if is_neg r3
      then some (r3, s3)
      else if is_neg fd
      then some (fd, s5)
      else burn_file fuel fd r3 burning s5

  -- What `RVMcu_BurnMcu` and `RVMcu_ForceBurnMcu` end with: the partition is compared, and the update
  -- starts or is called off.
  pub check_and_burn : ℕ → List ℕ → List ℕ → S → Option (ℤ × S)
  check_and_burn fuel path reg0 s =
      let (ret, reg, s1) = read_burn reg0 500 s in
      let (part, s2) = get_burn_firmware_part path s1 in
      let (_, s3) = write_burn (with_mode burnmode_exit_burn reg) 500 s2 in
      if is_neg ret
      then some (ret, s1)
      else if not (burn_mode reg == burnmode_wait_burn)
      then some (neg 1, s1)
      else if parameter reg == bfp_app_a || parameter reg == bfp_app_b
      then if eq_pos part (parameter reg) then burn_firmware fuel path s2 else some (neg 1, s3)
      else burn_firmware fuel path s1

  -- `RVMcu_BurnMcu`; `McuInfo` has 88 bytes, and its partition stands at 36.
  unfoldable pub burn_mcu : ℕ → List ℕ → S → Option (ℤ × S)
  unfolding mem_val
  burn_mcu fuel path s =
      let (r1, info, s1) = b.bus.read_reg 0 (replicate 88 0) 88 200 s in
      let (r2, s2) = write_burn (burnmode_app_goto_bootloader ∷ 0 ∷ []) 200 s1 in
      if is_neg r1
      then some (r1, s1)
      else if mem_val (take 4 (drop 36 info)) == 0
      then check_and_burn fuel path (0 ∷ 0 ∷ []) s1
      else if is_neg r2
      then some (r2, s2)
      else check_and_burn fuel path (burnmode_app_goto_bootloader ∷ 0 ∷ []) (b.usleep 400000 s2)

  -- The first loop of `RVMcu_ForceBurnMcu`, which waits for the boot loader.
  pub await_boot : ℕ → List ℕ → S → Option S
  unfolding mem_val
  await_boot zero info s = none
  await_boot (suc fuel) info s =
      let (ret, info1, s1) = b.bus.read_reg 0 info 88 10 s in
      let rest = await_boot fuel info1 s1 in
      if eq_pos ret 0 && (mem_val (take 4 (drop 36 info1)) == 0) then some s1 else rest

  -- `RVMcu_ForceBurnMcu`
  unfoldable pub force_burn_mcu : ℕ → List ℕ → S → Option (ℤ × S)
  force_burn_mcu fuel path s = elim (await_boot fuel (replicate 88 0) s) [
    | none ↦ none
    | some s1 ↦ check_and_burn fuel path (0 ∷ 0 ∷ []) s1
  ]
