-- ===== src/RegWrCb/Granular.antt =====
-- regwr_cb.c: reading and writing whole elements of `gran_size` bytes.
use native.Mathlib.Nat.{div-mul-le_self, mul-le-mul_right, le-div_iff_mul-le, le-mul_of_pos_right}
use linux_uart.Base.{
  ℕ, ◌-◌, ◌*◌, ◌/◌, ◌%◌, ◌^◌, ◌≤◌, ◌<◌, min, ◌≡◌, refl, sym, ap, arith, false, List, [], ◌++◌, take,
  drop, length, append-nil, take-length, drop-length,
}
use linux_uart.Base.Int.{ℤ, pos, is_neg, to_ℕ}
use linux_uart.RegWrCb.{RegWrCbHandle, clip, size, free_size, gran_read, gran_write}
use linux_uart.RegWrCb.Ring.{RingRegs, size_counts, free_size_counts}

-- Whole elements of a queue never need more bytes than it has.
whole_elements : (a n g : ℕ) → min a (n / g) * g ≤ n
whole_elements a n g =
    ground
      (arith, mul-le-mul_right {m = min a (n / g)} {n = n / g} g (omega arith), div-mul-le_self n g)

-- The length that is passed on, when the bytes of the elements number fewer than 65536.
length_passed : (num k g : ℕ) → num ≡ k → k * g < 2 ^ 16 → num * g % 2 ^ 32 % 2 ^ 16 ≡ k * g
length_passed num k g e fits = rw e (omega arith)

-- How many elements are moved when `int` of the size that is asked for is `n`.
clip-min : (ret : ℤ) (n g a : ℕ) → ret ≡ pos n → clip (to_ℕ ret / g) a ≡ min a (n / g)
clip-min ret n g a e = rw e (ground arith)

module _ {S : Type 0} (h : RegWrCbHandle S) (cb_addr timeout capacity : ℕ) (contents : S → List ℕ)
    (ring : RingRegs h cb_addr timeout capacity contents) where
  -- `RegWrCb_GranRead` that does not fail takes whole elements off the queue: as many as were asked
  -- for modulo 65536, or as many as are there complete if that is fewer. The result is their number,
  -- and no part of an element is taken. This holds as long as the bytes that are taken number fewer
  -- than 65536, which is the most that a register access can name.
  pub gran_read-takes_elements :
      (buf : List ℕ) (gran_size nmemb : ℕ) (s : S)
      → 0 < gran_size
      → let (ret, buf1, s1) = gran_read h cb_addr buf gran_size nmemb timeout s in
        let k = min (nmemb % 2 ^ 16) (length (contents s) / gran_size) in
        k * gran_size < 2 ^ 16
        → is_neg ret ≡ false
        → (ret ≡ pos k)
          × (buf1 ≡ take (k * gran_size) (contents s) ++ drop (k * gran_size) buf)
          × (contents s1 ≡ drop (k * gran_size) (contents s))
  unfolding gran_read
  gran_read-takes_elements buf gran_size nmemb s positive fits ok =
      let (ret, s1) = size h cb_addr timeout s in
      let a = nmemb % 2 ^ 16 in
      let n = length (contents s) in
      let k = min a (n / gran_size) in
      ground (
        arith,
        size_counts h cb_addr timeout capacity contents ring s,
        clip-min ret n gran_size a,
        length_passed (clip (to_ℕ ret / gran_size) a) k gran_size,
        ring.take_out (k * gran_size) buf s1,
        whole_elements a n gran_size,
      )

  -- `RegWrCb_GranWrite` that does not fail appends whole elements to the queue: as many as were given
  -- modulo 65536, or as many as there is room for if that is fewer, and returns their number. This
  -- holds as long as their bytes number fewer than 65536.
  pub gran_write-appends_elements :
      (bytes : List ℕ) (gran_size nmemb : ℕ) (s : S)
      → let (ret, s1) = gran_write h cb_addr bytes gran_size nmemb timeout s in
        let k = min (nmemb % 2 ^ 16) ((capacity - length (contents s)) / gran_size) in
        k * gran_size < 2 ^ 16
        → is_neg ret ≡ false
        → (ret ≡ pos k) × (contents s1 ≡ contents s ++ take (k * gran_size) bytes)
  unfolding gran_write
  gran_write-appends_elements bytes gran_size nmemb s fits ok =
      let (ret, s1) = free_size h cb_addr timeout s in
      let a = nmemb % 2 ^ 16 in
      let n = capacity - length (contents s) in
      let k = min a (n / gran_size) in
      ground (
        arith,
        free_size_counts h cb_addr timeout capacity contents ring s,
        clip-min ret n gran_size a,
        length_passed (clip (to_ℕ ret / gran_size) a) k gran_size,
        ring.bounded s,
        ring.put_in (k * gran_size) bytes s1,
        whole_elements a n gran_size,
        append-nil (contents s),
      )

-- A count of elements that all fit is not cut short.
not_cut : (n m g : ℕ) → 0 < g → m * g ≤ n → m * g < 2 ^ 16 → min (m % 2 ^ 16) (n / g) ≡ m
not_cut n m g positive room small =
    let whole = (le-div_iff_mul-le {k = g} {x = m} {y = n} positive).1 room in
    let most = le-mul_of_pos_right m positive in ground arith

module _ {S : Type 0} (h : RegWrCbHandle S) (cb_addr timeout capacity : ℕ) (contents : S → List ℕ)
    (ring : RingRegs h cb_addr timeout capacity contents) where
  -- Elements that are written into an empty buffer come back whole and in order. When the `nmemb`
  -- elements fit the buffer and number fewer than 65536 bytes, and neither call fails, then both
  -- return `nmemb`, the reader's buffer starts with exactly the bytes written, and the buffer is empty
  -- again.
  pub gran_write-gran_read :
      (bytes buf : List ℕ) (gran_size nmemb : ℕ) (s : S)
      → 0 < gran_size
      → nmemb * gran_size < 2 ^ 16
      → nmemb * gran_size ≤ capacity
      → length bytes ≡ nmemb * gran_size
      → contents s ≡ []
      → let (written, s1) = gran_write h cb_addr bytes gran_size nmemb timeout s in
        let (ret, buf1, s2) = gran_read h cb_addr buf gran_size nmemb timeout s1 in
        is_neg written ≡ false
        → is_neg ret ≡ false
        → (written ≡ pos nmemb)
          × (ret ≡ pos nmemb)
          × (buf1 ≡ bytes ++ drop (nmemb * gran_size) buf)
          × (contents s2 ≡ [])
  gran_write-gran_read bytes buf g nmemb s positive small room given empty sent got =
      let (written, s1) = gran_write h cb_addr bytes g nmemb timeout s in
      let all_sent : min (nmemb % 2 ^ 16) ((capacity - length (contents s)) / g) ≡ nmemb =
        rw empty (not_cut (capacity - 0) nmemb g positive (omega arith) small) in
      let (w, stored) =
        gran_write-appends_elements h cb_addr timeout capacity contents ring bytes g nmemb s
          (rw all_sent small) sent in
      let queue : contents s1 ≡ bytes =
        rw (stored, all_sent, empty, sym given) (take-length bytes) in
      let all_got : min (nmemb % 2 ^ 16) (length (contents s1) / g) ≡ nmemb =
        rw queue (not_cut (length bytes) nmemb g positive (omega arith) small) in
      let (r, buffer, rest) =
        gran_read-takes_elements h cb_addr timeout capacity contents ring buf g nmemb s1 positive
          (rw all_got small) got in
      (
        rw (w, all_sent) refl,
        rw (r, all_got) refl,
        rw (buffer, all_got, queue)
            (ap (λ (l : List ℕ). l ++ drop (nmemb * g) buf) (rw (sym given) (take-length bytes))),
        rw (rest, all_got, queue, sym given) (drop-length bytes),
      )
