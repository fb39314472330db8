-- ===== src/Run/Stress.antt =====
-- run.c: the test of many accesses, `_run_test`: what it counts, and over a link that works.
use linux_uart.Base.{
  ℕ, zero, suc, ◌+◌, ◌%◌, ◌^◌, ◌≤◌, ◌≡◌, refl, sym, ◌∙◌, arith, Bool, true, false, if◌then◌else◌,
  List, length, drop, length-append, length-set, [], ◌∷◌, map, ap, append-nil, append_assoc, ◌++◌,
  Option,
}
use linux_uart.Base.Int.{ℤ, pos, is_neg}
use mathlib.Core.Path.{subst}
use linux_uart.Os.{Os}
use linux_uart.SpiReg.{SpiRegHandle}
use linux_uart.SpiReg.Mcu.{View, Registers, McuLink}
use linux_uart.RegWrCb.{RegWrCbHandle}
use linux_uart.RvMcu.{spi_bus}
use linux_uart.RvMcu.Bus.Refine.{file_bus, Ready, spi_bus-Simulates}
use linux_uart.Run.{make_data_loop, make_data, run_test_loop}

-- An access to the registers, with what it returned.
pub data Access : Type 0 where
  wrote fetched : ℕ → ℕ → ℕ → ℤ → Access

-- Registers with a list of the accesses so far.
abbrev pub logged : {S : Type 0} → RegWrCbHandle S → RegWrCbHandle (S × List Access)
logged bus = record {
  read_reg = λ addr buf n timeout s.
      let (r, bytes, s1) = bus.read_reg addr buf n timeout s.0 in
      (r, bytes, (s1, s.1 ++ (fetched addr n timeout r ∷ [])));
  write_reg = λ addr bytes n timeout s.
      let (r, s1) = bus.write_reg addr bytes n timeout s.0 in
      (r, (s1, s.1 ++ (wrote addr n timeout r ∷ [])));
}

-- How many of the values returned are failures.
abbrev pub failures : List ℤ → ℕ
failures [] = 0
failures (ret ∷ rets) = if is_neg ret then suc (failures rets) else failures rets

module _ {S : Type 0} (bus : RegWrCbHandle S) (rand : ℕ → ℕ → ℕ) (reg_addr reg_cnt : ℕ) where
  -- The test has made one access after the other, of the kind it is for, and counted those that failed.
  abbrev Counted : ℕ → ℕ → Bool → List ℕ → S × List Access → Type 0
  Counted n err_cnt is_write wr_buf s =
      let (err_cnt1, _, s1) =
        run_test_loop (logged bus) rand n err_cnt is_write reg_addr reg_cnt wr_buf s in
      let access : ℤ → Access =
        if is_write
        then wrote (reg_addr % 2 ^ 16) reg_cnt 400
        else fetched (reg_addr % 2 ^ 16) reg_cnt 400 in
      (rets : List ℤ) × (length rets ≡ n)
      × (s1.1 ≡ s.1 ++ map access rets)
      × (err_cnt1 ≡ err_cnt + failures rets)

  run_test_loop-Counted :
      (n err_cnt : ℕ) (is_write : Bool) (wr_buf : List ℕ) (s : S × List Access)
      → Counted n err_cnt is_write wr_buf s
  unfolding run_test_loop
  run_test_loop-Counted zero err_cnt is_write wr_buf s =
      ([], refl, sym (append-nil s.1), omega arith)
  run_test_loop-Counted (suc n) err_cnt true wr_buf s =
      let sent = make_data (rand n) reg_cnt wr_buf in
      let (ret, s1) = (logged bus).write_reg (reg_addr % 2 ^ 16) sent reg_cnt 400 s in
      let err1 = if is_neg ret then err_cnt + 1 else err_cnt in
      let (rets, many, log, errs) = run_test_loop-Counted n err1 true sent s1 in
      (
        ret ∷ rets,
        ap suc many,
        log
            ∙ append_assoc s.1 (wrote (reg_addr % 2 ^ 16) reg_cnt 400 ret ∷ [])
                (map (wrote (reg_addr % 2 ^ 16) reg_cnt 400) rets),
        ground (arith, errs),
      )
  run_test_loop-Counted (suc n) err_cnt false wr_buf s =
      let (ret, out, s1) = (logged bus).read_reg (reg_addr % 2 ^ 16) wr_buf reg_cnt 400 s in
      let err1 = if is_neg ret then err_cnt + 1 else err_cnt in
      let (rets, many, log, errs) = run_test_loop-Counted n err1 false out s1 in
      (
        ret ∷ rets,
        ap suc many,
        log
            ∙ append_assoc s.1 (fetched (reg_addr % 2 ^ 16) reg_cnt 400 ret ∷ [])
                (map (fetched (reg_addr % 2 ^ 16) reg_cnt 400) rets),
        ground (arith, errs),
      )

  -- `_run_test` over any registers: in `n` rounds it makes exactly `n` accesses, all of them writes
  -- where the test is for writing and else reads, of the count given, at the low 16 bits of the address
  -- given, with 400 milliseconds each. The failures it counts are those of the accesses that returned a negative
  -- value, each once. The accesses are those of a list that stands behind the ones made before.
  pub run_test_loop-counts :
      (n : ℕ) (is_write : Bool) (wr_buf : List ℕ) (s : S) (log : List Access)
      → let (err_cnt, _, (_, log1)) =
          run_test_loop (logged bus) rand n 0 is_write reg_addr reg_cnt wr_buf (s, log) in
        let access : ℤ → Access =
          if is_write
          then wrote (reg_addr % 2 ^ 16) reg_cnt 400
          else fetched (reg_addr % 2 ^ 16) reg_cnt 400 in
        (rets : List ℤ) × (length rets ≡ n)
        × (log1 ≡ log ++ map access rets)
        × (err_cnt ≡ failures rets)
  run_test_loop-counts n is_write wr_buf s log =
      let (rets, many, made, errs) = run_test_loop-Counted n 0 is_write wr_buf (s, log) in
      (rets, many, made, errs ∙ omega arith)

length-make_data_loop :
    (rand : ℕ → ℕ) (n i : ℕ) (wr_buf : List ℕ)
    → length (make_data_loop rand n i wr_buf) ≡ length wr_buf
unfolding make_data_loop
length-make_data_loop rand zero i wr_buf = refl
length-make_data_loop rand (suc n) i wr_buf =
    length-make_data_loop rand n (i + 1) _ ∙ length-set wr_buf i (rand i % 2 ^ 8)

length-make_data :
    (rand : ℕ → ℕ) (cnt : ℕ) (wr_buf : List ℕ) → length (make_data rand cnt wr_buf) ≡ length wr_buf
unfolding make_data
length-make_data rand cnt wr_buf = length-make_data_loop rand (cnt % 2 ^ 16) 0 wr_buf

module _ {W R : Type 0} (os : Os W) (regs : Registers R) (h : SpiRegHandle) (view : W → View R)
    (link : McuLink os regs h.fd h.uart_fd 400 view) (rand : ℕ → ℕ → ℕ) (reg_addr reg_cnt : ℕ)
    (limit : reg_cnt ≤ 1022) where
  -- A test run of the program and one of a register file: the program's goes on from a buffer after
  -- an access that returned `ret`. It counts no further failure, and both leave the same.
  abbrev PassedAfter : ℤ → List ℕ → ℕ → Bool → ℕ → List ℕ → R → Option SpiRegHandle × W → Type 0
  PassedAfter ret buf err_cnt is_write n wr_buf r s =
      let err = if is_neg ret then err_cnt + 1 else err_cnt in
      let (err1, buf1, s1) =
        run_test_loop (spi_bus os) rand n err is_write reg_addr reg_cnt buf s in
      let (_, buf', r1) =
        run_test_loop (file_bus regs) rand n err_cnt is_write reg_addr reg_cnt wr_buf r in
      (err1 ≡ err_cnt) × (buf1 ≡ buf') × Ready os regs h 400 view link r1 s1

  run_test_loop-PassedAfter :
      (n err_cnt : ℕ) (is_write : Bool) (wr_buf : List ℕ) (r : R) (s : Option SpiRegHandle × W)
      → reg_cnt ≤ length wr_buf
      → Ready os regs h 400 view link r s
      → PassedAfter (pos 0) wr_buf err_cnt is_write n wr_buf r s
  unfolding run_test_loop file_bus
  run_test_loop-PassedAfter zero err_cnt is_write wr_buf r s fits ready = (refl, refl, ready)
  run_test_loop-PassedAfter (suc n) err_cnt true wr_buf r s fits ready =
      let sim = spi_bus-Simulates os regs h 400 view link in
      let addr = reg_addr % 2 ^ 16 in
      let sent = make_data (rand n) reg_cnt wr_buf in
      let enough : reg_cnt ≤ length sent = rw (length-make_data (rand n) reg_cnt wr_buf) fits in
      let s1 = ((spi_bus os).write_reg addr sent reg_cnt 400 s).1 in
      let r1 = ((file_bus regs).write_reg addr sent reg_cnt 400 r).1 in
      let (ret, ready1) = sim.writes addr reg_cnt sent r s (omega arith) limit enough ready in
      subst (λ ret. PassedAfter ret sent err_cnt true n sent r1 s1) (sym ret)
        (run_test_loop-PassedAfter n err_cnt true sent r1 s1 enough ready1)
  run_test_loop-PassedAfter (suc n) err_cnt false wr_buf r s fits ready =
      let sim = spi_bus-Simulates os regs h 400 view link in
      let addr = reg_addr % 2 ^ 16 in
      let (_, out, s1) = (spi_bus os).read_reg addr wr_buf reg_cnt 400 s in
      let (_, got', r1) = (file_bus regs).read_reg addr wr_buf reg_cnt 400 r in
      let (ret, got, ready1) = sim.reads addr reg_cnt wr_buf r s (omega arith) limit fits ready in
      let counted = regs.length-fetch addr reg_cnt r in
      let whole = length-append (regs.fetch addr reg_cnt r) (drop reg_cnt wr_buf) in
      let passed =
        run_test_loop-PassedAfter n err_cnt false got' r1 s1 (omega (arith, counted, whole))
          ready1 in
      subst (λ ret. PassedAfter ret out err_cnt false n got' r1 s1) (sym ret)
        (subst (λ buf. PassedAfter (pos 0) buf err_cnt false n got' r1 s1) (sym got) passed)

  -- `_run_test` over a link that works, with an MCU that answers as its registers say: however many
  -- rounds, of writes of random bytes or of reads, of at most 1022 registers with a buffer that is
  -- large enough, it counts no failure. At the end the registers of the MCU and the bytes in the
  -- buffer are those of the same accesses to a register file without a link, and the MCU waits for
  -- the next access with the program's handle open.
  run_test_loop-passes :
      (n : ℕ) (is_write : Bool) (wr_buf : List ℕ) (r : R) (s : Option SpiRegHandle × W)
      → reg_cnt ≤ length wr_buf
      → Ready os regs h 400 view link r s
      → let (err_cnt, buf, s1) =
          run_test_loop (spi_bus os) rand n 0 is_write reg_addr reg_cnt wr_buf s in
        let (_, buf', r1) =
          run_test_loop (file_bus regs) rand n 0 is_write reg_addr reg_cnt wr_buf r in
        (err_cnt ≡ 0) × (buf ≡ buf') × Ready os regs h 400 view link r1 s1
  run_test_loop-passes n is_write wr_buf r s fits ready =
      run_test_loop-PassedAfter n 0 is_write wr_buf r s fits ready
