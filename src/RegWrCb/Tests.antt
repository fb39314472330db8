-- ===== src/RegWrCb/Tests.antt =====
-- A ring buffer of eight bytes behind registers, and the theorems on regwr_cb.c at runs on it.
use linux_uart.Base.{
  ℕ, ◌-◌, ◌≡◌, refl, arith, true, false, ◌==◌, List, [], ◌∷◌, ◌++◌, take, drop, length, length-take,
  take-drop-take, take-append-take, if◌then◌else◌,
}
use linux_uart.Base.Int.{ℤ, pos, negsuc, is_neg, to_ℕ}
use linux_uart.MemCtrl.{mem_bytes, mem_val}
use linux_uart.MemCtrl.Reverse.{mem_val-mem_bytes}
use linux_uart.RegWrCb.{
  RegWrCbHandle, size, free_size, read, peep, write, read_air, gran_read, gran_write,
}
use linux_uart.RegWrCb.Ring.{RingRegs, write-appends, peep-read_air}
use linux_uart.RegWrCb.Granular.{gran_write-gran_read}

-- The first eight bytes of the state are in the buffer.
abbrev queue : List ℕ → List ℕ
queue s = take 8 s

abbrev ring8_read : ℕ → List ℕ → ℕ → ℕ → List ℕ → ℤ × List ℕ × List ℕ
ring8_read addr buf n timeout s =
    if addr == 0x1000
    then (pos 0, mem_bytes 4 (length (queue s)), s)
    else if addr == 0x1001
    then (pos 0, mem_bytes 4 (8 - length (queue s)), s)
    else if addr == 0x1002
    then (pos 0, take n (queue s) ++ drop n buf, drop n (queue s))
    else if addr == 0x1006
    then (pos 0, take n (queue s) ++ drop n buf, s)
    else (negsuc 0, buf, s)

abbrev ring8_write : ℕ → List ℕ → ℕ → ℕ → List ℕ → ℤ × List ℕ
ring8_write addr bytes n timeout s =
    if addr == 0x1003
    then (pos 0, queue s ++ take n bytes)
    else if addr == 0x1004
    then (pos 0, [])
    else if addr == 0x1005
    then (pos 0, drop (mem_val (take 4 bytes)) (queue s))
    else (negsuc 0, s)

abbrev ring8 : RegWrCbHandle (List ℕ)
ring8 = record { write_reg = ring8_write; read_reg = ring8_read }

ring8_laws : RingRegs ring8 0x1000 20 8 queue
unfolding mem_bytes
ring8_laws = record {
  bounded = λ s. omega (arith, length-take 8 s);
  addressable = omega arith;
  get_size = λ buf s. (refl, λ ok. refl);
  get_freesize = λ buf s. (refl, λ ok. refl);
  take_out = λ n buf s h ok. (refl, take-drop-take 8 n s);
  look = λ n buf s h. (refl, λ ok. refl);
  put_in = λ n bytes s h ok. take-append-take 8 n s bytes h;
  empty_out = λ bytes s ok. refl;
  skip = λ n s h ok.
      rw (mem_val-mem_bytes 4 n (omega (arith, h, length-take 8 s))) (take-drop-take 8 n s);
}

abbrev three : List ℕ
three = 1 ∷ 2 ∷ 3 ∷ []

abbrev room : List ℕ
room = 0 ∷ 0 ∷ 0 ∷ 0 ∷ []

write-appends_example :
    ((write ring8 0x1000 (4 ∷ 5 ∷ []) 2 20 three).0 ≡ pos 2)
    × (queue (write ring8 0x1000 (4 ∷ 5 ∷ []) 2 20 three).1 ≡ 1 ∷ 2 ∷ 3 ∷ 4 ∷ 5 ∷ [])
unfolding write free_size mem_val mem_bytes
write-appends_example = write-appends ring8 0x1000 20 8 queue ring8_laws (4 ∷ 5 ∷ []) 2 three refl

peep-read_air_example :
    let (ret, buf1, s1) = peep ring8 0x1000 room 2 20 three in
    let (dropped, s2) = read_air ring8 0x1000 (to_ℕ ret) 20 s1 in
    let (ret', buf', s') = read ring8 0x1000 room 2 20 three in
    (is_neg ret ≡ true → queue s1 ≡ queue three)
    × (is_neg ret ≡ false
        → is_neg dropped ≡ false
        → is_neg ret' ≡ false
        → (ret ≡ ret') × (dropped ≡ ret') × (buf1 ≡ buf') × (queue s2 ≡ queue s'))
peep-read_air_example = peep-read_air ring8 0x1000 20 8 queue ring8_laws room 2 three

gran_write-gran_read_example :
    let (written, s1) = gran_write ring8 0x1000 (4 ∷ 5 ∷ 6 ∷ 7 ∷ []) 2 2 20 [] in
    let (ret, buf1, s2) = gran_read ring8 0x1000 room 2 2 20 s1 in
    (written ≡ pos 2) × (ret ≡ pos 2) × (buf1 ≡ 4 ∷ 5 ∷ 6 ∷ 7 ∷ []) × (queue s2 ≡ [])
unfolding gran_write gran_read size free_size mem_val mem_bytes
gran_write-gran_read_example =
    gran_write-gran_read ring8 0x1000 20 8 queue ring8_laws (4 ∷ 5 ∷ 6 ∷ 7 ∷ []) room 2 2 []
      (omega arith) (omega arith) (omega arith) refl refl refl refl
