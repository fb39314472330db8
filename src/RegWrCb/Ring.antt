-- ===== src/RegWrCb/Ring.antt =====
-- The ring buffer that `RegWrCb_…` stand for: what the registers of the MCU are documented to do, as
-- hypotheses, and the operations of regwr_cb.c as operations on a bounded queue of bytes.
use linux_uart.Base.{
  ℕ, ◌+◌, ◌-◌, ◌%◌, ◌^◌, ◌≤◌, ◌<◌, min, ◌≡◌, arith, true, false, List, [], ◌∷◌, ◌++◌, take, drop,
  length, replicate, append-nil,
}
use linux_uart.Base.Int.{pos, is_neg, signed32, to_ℕ}
use linux_uart.MemCtrl.{mem_bytes, mem_val}
use linux_uart.MemCtrl.Reverse.{mem_val-mem_bytes}
use linux_uart.RegWrCb.{
  RegWrCbHandle, cbreg_cmd_get_size, cbreg_cmd_get_freesize, cbreg_cmd_read, cbreg_cmd_write,
  cbreg_cmd_clean, cbreg_cmd_readair, cbreg_cmd_peep, reg_at, clip, size, free_size, fetch, read,
  peep, write, clean, read_air,
}

-- The registers of the buffer at `cb_addr` behave as regwr_cb.h says, once an access succeeds:
-- `contents` are the bytes in the buffer, oldest first. An access that fails may lose data, except
-- that asking for a size and peeping never do.
pub record RingRegs {S : Type 0} (h : RegWrCbHandle S) (cb_addr timeout capacity : ℕ)
    (contents : S → List ℕ) : Type 0 where
  pub bounded : (s : S) → length (contents s) ≤ capacity
  pub addressable : capacity < 2 ^ 31
  pub get_size :
      (buf : List ℕ) (s : S)
      → let (ret, buf1, s1) = h.read_reg (reg_at cb_addr cbreg_cmd_get_size) buf 4 timeout s in
        (contents s1 ≡ contents s)
        × (is_neg ret ≡ false → take 4 buf1 ≡ mem_bytes 4 (length (contents s)))
  pub get_freesize :
      (buf : List ℕ) (s : S)
      → let (ret, buf1, s1) = h.read_reg (reg_at cb_addr cbreg_cmd_get_freesize) buf 4 timeout s in
        (contents s1 ≡ contents s)
        × (is_neg ret ≡ false → take 4 buf1 ≡ mem_bytes 4 (capacity - length (contents s)))
  pub take_out :
      (n : ℕ) (buf : List ℕ) (s : S)
      → n ≤ length (contents s)
      → let (ret, buf1, s1) = h.read_reg (reg_at cb_addr cbreg_cmd_read) buf n timeout s in
        is_neg ret ≡ false
        → (buf1 ≡ take n (contents s) ++ drop n buf) × (contents s1 ≡ drop n (contents s))
  pub look :
      (n : ℕ) (buf : List ℕ) (s : S)
      → n ≤ length (contents s)
      → let (ret, buf1, s1) = h.read_reg (reg_at cb_addr cbreg_cmd_peep) buf n timeout s in
        (contents s1 ≡ contents s) × (is_neg ret ≡ false → buf1 ≡ take n (contents s) ++ drop n buf)
  pub put_in :
      (n : ℕ) (bytes : List ℕ) (s : S)
      → length (contents s) + n ≤ capacity
      → let (ret, s1) = h.write_reg (reg_at cb_addr cbreg_cmd_write) bytes n timeout s in
        is_neg ret ≡ false → contents s1 ≡ contents s ++ take n bytes
  pub empty_out :
      (bytes : List ℕ) (s : S)
      → let (ret, s1) = h.write_reg (reg_at cb_addr cbreg_cmd_clean) bytes 1 timeout s in
        is_neg ret ≡ false → contents s1 ≡ []
  pub skip :
      (n : ℕ) (s : S)
      → n ≤ length (contents s)
      → let (ret, s1) =
          h.write_reg (reg_at cb_addr cbreg_cmd_readair) (mem_bytes 4 n) 4 timeout s in
        is_neg ret ≡ false → contents s1 ≡ drop n (contents s)

-- A number below 2 ^ 31 comes back from its four bytes.
pub signed32-mem_bytes : (n : ℕ) → n < 2 ^ 31 → signed32 (mem_val (mem_bytes 4 n)) ≡ pos n
signed32-mem_bytes n h = rw (mem_val-mem_bytes 4 n (omega arith)) (ground arith)

module _ {S : Type 0} (h : RegWrCbHandle S) (cb_addr timeout capacity : ℕ) (contents : S → List ℕ)
    (ring : RingRegs h cb_addr timeout capacity contents) where
  -- `RegWrCb_Size` leaves the buffer alone, and gives the number of bytes in it unless it fails.
  pub size_counts :
      (s : S)
      → let (ret, s1) = size h cb_addr timeout s in
        (contents s1 ≡ contents s) × (is_neg ret ≡ false → ret ≡ pos (length (contents s)))
  unfolding size
  size_counts s =
      let read_back =
        signed32-mem_bytes (length (contents s))
          (omega (arith, ring.bounded s, ring.addressable)) in
      ground (arith, ring.get_size (replicate 4 0) s, read_back)

  pub free_size_counts :
      (s : S)
      → let (ret, s1) = free_size h cb_addr timeout s in
        (contents s1 ≡ contents s)
        × (is_neg ret ≡ false → ret ≡ pos (capacity - length (contents s)))
  unfolding free_size
  free_size_counts s =
      let read_back =
        signed32-mem_bytes (capacity - length (contents s)) (omega (arith, ring.addressable)) in
      ground (arith, ring.get_freesize (replicate 4 0) s, read_back)

  -- `RegWrCb_Read` that does not fail takes bytes off the front of the queue: as many as were asked
  -- for modulo 65536, or as are there if that is less. They stand at the start of the caller's
  -- buffer, whose rest is as it was, the result is their number, and the others stay in the queue.
  pub read-takes_front :
      (buf : List ℕ) (buf_size : ℕ) (s : S)
      → let (ret, buf1, s1) = read h cb_addr buf buf_size timeout s in
        let n = min (buf_size % 2 ^ 16) (length (contents s)) in
        is_neg ret ≡ false
        → (ret ≡ pos n)
          × (buf1 ≡ take n (contents s) ++ drop n buf)
          × (contents s1 ≡ drop n (contents s))
  unfolding read fetch
  read-takes_front buf buf_size s ok =
      let (ret, s1) = size h cb_addr timeout s in
      let n = clip (buf_size % 2 ^ 16) (to_ℕ ret) in
      ground (arith, size_counts s, ring.take_out n buf s1)

  -- `RegWrCb_Peep` never changes the queue, whether it fails or not, and gives the same count and the
  -- same bytes as a read that does not fail.
  pub peep-shows_front :
      (buf : List ℕ) (buf_size : ℕ) (s : S)
      → let (ret, buf1, s1) = peep h cb_addr buf buf_size timeout s in
        let n = min (buf_size % 2 ^ 16) (length (contents s)) in
        (contents s1 ≡ contents s)
        × (is_neg ret ≡ false → (ret ≡ pos n) × (buf1 ≡ take n (contents s) ++ drop n buf))
  unfolding peep fetch
  peep-shows_front buf buf_size s =
      let (ret, s1) = size h cb_addr timeout s in
      let n = clip (buf_size % 2 ^ 16) (to_ℕ ret) in
      ground (arith, size_counts s, ring.look n buf s1)

  -- `RegWrCb_ReadAir` that does not fail drops bytes from the front of the queue: as many as were
  -- asked for modulo 65536, or all if that is fewer, and returns their number.
  pub read_air-drops_front :
      (read_size : ℕ) (s : S)
      → let (ret, s1) = read_air h cb_addr read_size timeout s in
        let n = min (read_size % 2 ^ 16) (length (contents s)) in
        is_neg ret ≡ false → (ret ≡ pos n) × (contents s1 ≡ drop n (contents s))
  unfolding read_air
  read_air-drops_front read_size s ok =
      let (ret, s1) = size h cb_addr timeout s in
      let n = clip (read_size % 2 ^ 16) (to_ℕ ret) in ground (arith, size_counts s, ring.skip n s1)

  -- `RegWrCb_Write` that does not fail appends to the queue: as many of the bytes given as were named
  -- modulo 65536, or as many as there is room for if that is less, and returns their number.
  pub write-appends :
      (bytes : List ℕ) (data_size : ℕ) (s : S)
      → let (ret, s1) = write h cb_addr bytes data_size timeout s in
        let n = min (data_size % 2 ^ 16) (capacity - length (contents s)) in
        is_neg ret ≡ false → (ret ≡ pos n) × (contents s1 ≡ contents s ++ take n bytes)
  unfolding write
  write-appends bytes data_size s ok =
      let (ret, s1) = free_size h cb_addr timeout s in
      let n = clip (data_size % 2 ^ 16) (to_ℕ ret) in
      ground
        (arith, free_size_counts s, ring.bounded s, ring.put_in n bytes s1, append-nil (contents s))

  -- `RegWrCb_Clean` that does not fail empties the queue.
  pub clean-empties :
      (s : S)
      → let (ret, s1) = clean h cb_addr timeout s in
        is_neg ret ≡ false → (ret ≡ pos 0) × (contents s1 ≡ [])
  unfolding clean
  clean-empties s ok = ground (arith, ring.empty_out (0x00 ∷ []) s)

  -- The way of reading that the source recommends: peep, and drop as many bytes as the peep gave. It
  -- gives the bytes, the count and the queue that one `RegWrCb_Read` gives, when no access fails; and
  -- when the peep fails, nothing is lost.
  pub peep-read_air :
      (buf : List ℕ) (buf_size : ℕ) (s : S)
      → let (ret, buf1, s1) = peep h cb_addr buf buf_size timeout s in
        let (dropped, s2) = read_air h cb_addr (to_ℕ ret) timeout s1 in
        let (ret', buf', s') = read h cb_addr buf buf_size timeout s in
        (is_neg ret ≡ true → contents s1 ≡ contents s)
        × (is_neg ret ≡ false
            → is_neg dropped ≡ false
            → is_neg ret' ≡ false
            → (ret ≡ ret') × (dropped ≡ ret') × (buf1 ≡ buf') × (contents s2 ≡ contents s'))
  peep-read_air buf buf_size s =
      let (ret, buf1, s1) = peep h cb_addr buf buf_size timeout s in
      ground (
        arith,
        peep-shows_front buf buf_size s,
        read_air-drops_front (to_ℕ ret) s1,
        read-takes_front buf buf_size s,
      )
