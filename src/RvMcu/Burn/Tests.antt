-- ===== src/RvMcu/Burn/Tests.antt =====
-- The theorems on the firmware update, at runs of a small board.
use linux_uart.Base.{
  ℕ, ◌≡◌, ◌⊎◌, refl, arith, Bool, false, List, [], ◌∷◌, ◌++◌, length, take, drop, take-append-drop,
  take-length, sym, ap, some, ◌+◌, ◌==◌, if◌then◌else◌, IfSome,
}
use linux_uart.Base.Int.{ℤ, pos, is_positive}
use linux_uart.MemCtrl.{mem_val}
use linux_uart.RegWrCb.{RegWrCbHandle, write, free_size, clean}
use linux_uart.RvMcu.Burn.{
  Board, Pushing, push_block, push_round, read_burn, send_file, check_and_burn, burn_firmware,
  burn_file, finish_burn, await_verdict, write_burn, get_burn_firmware_part,
}
use linux_uart.RvMcu.Burn.Protocol.{sent_modes, UpdateModes, check_and_burn-UpdateModes}
use linux_uart.RvMcu.Burn.Transfer.{
  recorded, FileReads, push_block_outcome, send_file-transfers, send_file-ends,
}

-- The state is what is left of a file; registers take every write of three bytes at most.
abbrev bus : RegWrCbHandle (List ℕ)
bus = record {
  read_reg = λ addr buf n timeout s. (pos 0, 3 ∷ 0 ∷ 0 ∷ 0 ∷ [], s);
  write_reg = λ addr bytes n timeout s. (pos 0, s);
}

abbrev board : Board (List ℕ)
board = record {
  bus = bus;
  open_rdonly = λ path s. (pos 6, s);
  read_file = λ fd n s. (pos (length (take 4 s)), take 4 s, drop 4 s);
  close = λ fd s. s;
  usleep = λ us s. s;
}

abbrev firmware : List ℕ
firmware = 1 ∷ 2 ∷ 3 ∷ 4 ∷ 5 ∷ []

nothing_left : (s : List ℕ) → is_positive (pos (length (take 4 s))) ≡ false → s ≡ []
nothing_left [] h = refl
nothing_left (x ∷ xs) h = ground arith

firmware_reads : FileReads board (pos 6) (λ s. s)
firmware_reads = record {
  front = λ n s more. (
    rw (take-length (take 4 s)) (sym (take-append-drop 4 s)),
    ap length (take-length (take 4 s)),
  );
  at_end = λ n s none. nothing_left s none;
  bus_read = λ addr buf n timeout s. refl;
  bus_write = λ addr bytes n timeout s. refl;
}

-- The five bytes go over in pieces of three, one and one.
send_file-transfers_example : firmware ≡ [] ++ firmware
unfolding send_file push_block push_round write free_size mem_val
send_file-transfers_example =
    send_file-transfers board (pos 6) (λ s. s) firmware_reads 9 (pos 0) [] firmware [] (pos 1) [] []
      firmware refl

abbrev pushing : Pushing (List ℕ × List ℕ)
pushing = record { bytes = firmware; retry = 0; ret = pos 0; reg = 0 ∷ 0 ∷ []; state = ([], []) }

send_file-ends_example :
    ((r : Bool × ℤ × List ℕ × (List ℕ × List ℕ)) × (send_file
          (recorded board)
          9
          (pos 6)
          (pos 0)
          []
          (firmware, [])
        ≡ some r))
    × (push_block (recorded board) 12 pushing ≡ push_block (recorded board) 32 pushing)
unfolding read_burn
send_file-ends_example =
    send_file-ends board (pos 6) (λ s. s) firmware_reads (λ reg timeout s. refl) 9 20 (pos 0) []
      firmware [] pushing (omega arith)

push_block_outcome_example :
    let q = push_block (recorded board) 12 pushing in
    (q.state.1 ++ q.bytes ≡ firmware) × ((q.bytes ≡ []) ⊎ (is_positive q.ret ≡ false))
unfolding read_burn
push_block_outcome_example =
    push_block_outcome board (λ reg timeout s. refl) 12 pushing (omega arith)

-- A boot loader that waits, then reports that it has erased, then that all went well; its state counts
-- the reads of the burn register. The file is empty.
abbrev boot_loader : Board ℕ
boot_loader = record {
  bus = record {
    read_reg = λ addr buf n timeout s.
        if addr == 0x1400
        then (
          pos 0,
          if s == 0 then 1 ∷ 0 ∷ [] else if s == 1 then 3 ∷ 0 ∷ [] else 6 ∷ 0 ∷ [],
          s + 1,
        )
        else (pos 0, buf, s);
    write_reg = λ addr bytes n timeout s. (pos 0, s);
  };
  open_rdonly = λ path s. (pos 6, s);
  read_file = λ fd n s. (pos 0, [], s);
  close = λ fd s. s;
  usleep = λ us s. s;
}

-- The whole update is sent, each mode with what the MCU said last.
update_run :
    check_and_burn (sent_modes boot_loader) 9 [] (0 ∷ 0 ∷ []) (0, [], 0)
    ≡ some (pos 0, (3, (2, 1) ∷ (4, 3) ∷ (5, 3) ∷ (8, 6) ∷ [], 6))
unfolding check_and_burn burn_firmware burn_file send_file finish_burn await_verdict read_burn
    write_burn clean
update_run = refl

check_and_burn-UpdateModes_example :
    IfSome
      (λ r. UpdateModes (pos 0) (1 ∷ 0 ∷ []) (pos 0) [] r.1.1)
      (check_and_burn (sent_modes boot_loader) 9 [] (0 ∷ 0 ∷ []) (0, [], 0))
unfolding read_burn get_burn_firmware_part
check_and_burn-UpdateModes_example =
    check_and_burn-UpdateModes boot_loader 9 [] (0 ∷ 0 ∷ []) (0, [], 0)
