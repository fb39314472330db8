-- ===== src/Debug/Dump.antt =====
-- general/debug.c: what `debug_phex` prints.
use linux_uart.Base.{
  ℕ, zero, suc, min, ◌+◌, ◌-◌, ◌*◌, ◌/◌, ◌%◌, ◌≡◌, refl, sym, ap, ap₂, ◌∙◌, arith, List, [], ◌∷◌,
  ◌++◌, append_assoc, append-nil, length, get_or, ltb, if◌then◌else◌, if-cases,
}
use linux_uart.Debug.{
  Piece, top, heading, rule, row_end, blank, row_start, hex_byte, row_cells, full_rows, phex_pieces,
}

-- The bytes among the pieces.
abbrev pub shown_bytes : List Piece → List ℕ
shown_bytes [] = []
shown_bytes (hex_byte b ∷ rest) = b ∷ shown_bytes rest
shown_bytes (top ∷ rest) = shown_bytes rest
shown_bytes (heading ∷ rest) = shown_bytes rest
shown_bytes (rule ∷ rest) = shown_bytes rest
shown_bytes (row_end ∷ rest) = shown_bytes rest
shown_bytes (blank ∷ rest) = shown_bytes rest
shown_bytes (row_start y ∷ rest) = shown_bytes rest

shown-append : (p q : List Piece) → shown_bytes (p ++ q) ≡ shown_bytes p ++ shown_bytes q
shown-append [] q = refl
shown-append (hex_byte b ∷ rest) q = ap (λ (l : List ℕ). b ∷ l) (shown-append rest q)
shown-append (top ∷ rest) q = shown-append rest q
shown-append (heading ∷ rest) q = shown-append rest q
shown-append (rule ∷ rest) q = shown-append rest q
shown-append (row_end ∷ rest) q = shown-append rest q
shown-append (blank ∷ rest) q = shown-append rest q
shown-append (row_start y ∷ rest) q = shown-append rest q

-- The bytes of a buffer from `i` on.
abbrev bytes_from : ℕ → ℕ → List ℕ → List ℕ
bytes_from zero i start = []
bytes_from (suc n) i start = get_or start i 0 ∷ bytes_from n (i + 1) start

bytes_from-append :
    (m n i : ℕ) (start : List ℕ)
    → bytes_from (m + n) i start ≡ bytes_from m i start ++ bytes_from n (i + m) start
bytes_from-append zero n i start =
    ap (λ (k : ℕ). bytes_from k i start) {x = 0 + n} {y = n} (omega arith)
    ∙ ap (λ (k : ℕ). bytes_from n k start) {x = i} {y = i + 0} (omega arith)
bytes_from-append (suc m) n i start =
    ap (λ (k : ℕ). bytes_from k i start) {x = suc m + n} {y = suc (m + n)} (omega arith)
    ∙ ap (λ (l : List ℕ). get_or start i 0 ∷ l)
        (bytes_from-append m n (i + 1) start
          ∙ ap (λ (k : ℕ). bytes_from m (i + 1) start ++ bytes_from n k start) {x = i + 1 + m}
              {y = i + suc m} (omega arith))

-- A row of `n` cells shows the bytes of the cells below `x_n`.
row_cells-shown :
    (n x x_n : ℕ) (start : List ℕ) (i : ℕ)
    → shown_bytes (row_cells n x x_n start i) ≡ bytes_from (min n (x_n - x)) i start
unfolding row_cells
row_cells-shown zero x x_n start i = ap (λ (k : ℕ). bytes_from k i start) {x = 0} (omega arith)
row_cells-shown (suc n) x x_n start i =
    if-cases (λ p. shown_bytes p ≡ bytes_from (min (suc n) (x_n - x)) i start) (ltb x x_n)
      (λ inside.
        ap (λ (l : List ℕ). get_or start i 0 ∷ l) (row_cells-shown n (x + 1) x_n start (i + 1))
        ∙ ap (λ (k : ℕ). bytes_from k i start) {x = suc (min n (x_n - (x + 1)))} (ground arith))
      (λ outside.
        row_cells-shown n (x + 1) x_n start i
        ∙ ap (λ (k : ℕ). bytes_from k i start) {x = min n (x_n - (x + 1))} (ground arith))

full_rows-shown :
    (n y : ℕ) (start : List ℕ)
    → shown_bytes (full_rows n y start) ≡ bytes_from (n * 16) (y * 16) start
unfolding full_rows
full_rows-shown zero y start = refl
full_rows-shown (suc n) y start =
    shown-append (row_cells 16 0 16 start (y * 16)) (row_end ∷ full_rows n (y + 1) start)
    ∙ ap₂ (λ (k l : List ℕ). k ++ l) (row_cells-shown 16 0 16 start (y * 16))
        (full_rows-shown n (y + 1) start
          ∙ ap (λ (k : ℕ). bytes_from (n * 16) k start) {x = (y + 1) * 16} {y = y * 16 + 16}
              (omega arith))
    ∙ sym (bytes_from-append 16 (n * 16) (y * 16) start)
    ∙ ap (λ (k : ℕ). bytes_from k (y * 16) start) {x = 16 + n * 16} (omega arith)

last_row-shown :
    (len : ℕ) (start : List ℕ)
    → shown_bytes (
        (if ltb 0 (len % 16)
          then row_start (len / 16 * 16)
            ∷ (row_cells 16 0 (len % 16) start (len / 16 * 16) ++ (row_end ∷ []))
          else [])
        ++ (rule ∷ []))
      ≡ bytes_from (len % 16) (len / 16 * 16) start
last_row-shown len start =
    let cells = row_cells 16 0 (len % 16) start (len / 16 * 16) in
    let Right : List Piece → Type 0 =
      λ p. shown_bytes (p ++ (rule ∷ [])) ≡ bytes_from (len % 16) (len / 16 * 16) start in
    if-cases Right (ltb 0 (len % 16)) {x = row_start (len / 16 * 16) ∷ (cells ++ (row_end ∷ []))}
      {y = []}
      (λ some_left.
        ap shown_bytes (append_assoc cells (row_end ∷ []) (rule ∷ []))
        ∙ shown-append cells (row_end ∷ rule ∷ [])
        ∙ append-nil (shown_bytes cells)
        ∙ row_cells-shown 16 0 (len % 16) start (len / 16 * 16)
        ∙ ap (λ (k : ℕ). bytes_from k (len / 16 * 16) start) (omega arith))
      (λ none_left. ap (λ (k : ℕ). bytes_from k (len / 16 * 16) start) {x = 0} (ground arith))

phex_pieces-shown :
    (start : List ℕ) (len : ℕ) → shown_bytes (phex_pieces start len) ≡ bytes_from len 0 start
unfolding phex_pieces
phex_pieces-shown start len =
    shown-append (full_rows (len / 16) 0 start) _
    ∙ ap₂ (λ (k l : List ℕ). k ++ l) (full_rows-shown (len / 16) 0 start)
        (last_row-shown len start
          ∙ ap (λ (k : ℕ). bytes_from (len % 16) k start) {y = 0 + len / 16 * 16} (omega arith))
    ∙ sym (bytes_from-append (len / 16 * 16) (len % 16) 0 start)
    ∙ ap (λ (k : ℕ). bytes_from k 0 start) {x = len / 16 * 16 + len % 16} (omega arith)

bytes_from-cons : (n i x : ℕ) (xs : List ℕ) → bytes_from n (i + 1) (x ∷ xs) ≡ bytes_from n i xs
bytes_from-cons zero i x xs = refl
bytes_from-cons (suc n) i x xs =
    ap₂ (λ (k : ℕ) (l : List ℕ). k ∷ l)
      (ap (λ (k : ℕ). get_or (x ∷ xs) k 0) {x = i + 1} {y = suc i} (omega arith))
      (bytes_from-cons n (i + 1) x xs)

bytes_from-length : (xs : List ℕ) → bytes_from (length xs) 0 xs ≡ xs
bytes_from-length [] = refl
bytes_from-length (x ∷ xs) =
    ap (λ (l : List ℕ). x ∷ l)
      (ap (λ (k : ℕ). bytes_from (length xs) k (x ∷ xs)) {x = 0 + 1} {y = 0 + 1} refl
        ∙ bytes_from-cons (length xs) 0 x xs
        ∙ bytes_from-length xs)

-- `debug_phex` of a buffer shows every byte of it once, in order, and no other byte, whatever the
-- length is: the bytes of the full rows and of the last one make up the buffer.
pub phex_pieces-shows_buffer : (buf : List ℕ) → shown_bytes (phex_pieces buf (length buf)) ≡ buf
phex_pieces-shows_buffer buf = phex_pieces-shown buf (length buf) ∙ bytes_from-length buf
