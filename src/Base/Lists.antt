-- ===== src/Base/Lists.antt =====
-- Lists measured and indexed by native numbers, under the library's names.
use Prim.Native.Nat.{ℕ, zero, suc, ◌+◌, ◌-◌, ◌<◌, ◌≤◌, min}
use mathlib.Core.Path.{◌≡◌, refl, sym, ap, ◌∙◌}
use mathlib.Core.Logic.{◌≢◌, ◌⊎◌, inl, inr}
use mathlib.Core.List.{List, [], ◌∷◌, ◌++◌, map, append_assoc}
use mathlib.Core.Option.{Option, none, some}
use native.Mathlib.Omega.{arith}

module _ {ℓ} {A : Type ℓ} where
  abbrev pub length : List A → ℕ
  length [] = 0
  length (x ∷ xs) = suc (length xs)

  abbrev pub get_elem? : List A → ℕ → Option A
  get_elem? [] i = none
  get_elem? (x ∷ xs) zero = some x
  get_elem? (x ∷ xs) (suc i) = get_elem? xs i

  -- A write out of bounds changes nothing.
  abbrev pub set : List A → ℕ → A → List A
  set [] i v = []
  set (x ∷ xs) zero v = v ∷ xs
  set (x ∷ xs) (suc i) v = x ∷ set xs i v

  pub length-append : (xs ys : List A) → length (xs ++ ys) ≡ length xs + length ys
  length-append [] ys = omega arith
  length-append (x ∷ xs) ys = omega (arith, length-append xs ys)

module _ {ℓ} {A : Type ℓ} where
  pub length-set : (xs : List A) (i : ℕ) (v : A) → length (set xs i v) ≡ length xs
  length-set [] i v = refl
  length-set (x ∷ xs) zero v = refl
  length-set (x ∷ xs) (suc i) v = ap suc (length-set xs i v)

  pub get_elem?-set_self :
      (xs : List A) (i : ℕ) (v : A) → i < length xs → get_elem? (set xs i v) i ≡ some v
  get_elem?-set_self [] i v h = elim h [ ]
  get_elem?-set_self (x ∷ xs) zero v h = refl
  get_elem?-set_self (x ∷ xs) (suc i) v h = get_elem?-set_self xs i v (omega arith)

  pub get_elem?-set_ne :
      (xs : List A) {i j : ℕ} (v : A) → i ≢ j → get_elem? (set xs i v) j ≡ get_elem? xs j
  get_elem?-set_ne [] v h = refl
  get_elem?-set_ne (x ∷ xs) {i = zero} {j = zero} v h = absurd (h refl)
  get_elem?-set_ne (x ∷ xs) {i = zero} {j = suc j} v h = refl
  get_elem?-set_ne (x ∷ xs) {i = suc i} {j = zero} v h = refl
  get_elem?-set_ne (x ∷ xs) {i = suc i} {j = suc j} v h = get_elem?-set_ne xs v (λ e. h (ap suc e))

module _ {ℓ} {A : Type ℓ} where
  abbrev pub get_or : List A → ℕ → A → A
  get_or [] i d = d
  get_or (x ∷ xs) zero d = x
  get_or (x ∷ xs) (suc i) d = get_or xs i d

  abbrev pub take : ℕ → List A → List A
  take zero xs = []
  take (suc n) [] = []
  take (suc n) (x ∷ xs) = x ∷ take n xs

  abbrev pub drop : ℕ → List A → List A
  drop zero xs = xs
  drop (suc n) [] = []
  drop (suc n) (x ∷ xs) = drop n xs

  abbrev pub replicate : ℕ → A → List A
  replicate zero a = []
  replicate (suc n) a = a ∷ replicate n a

  pub take-append-drop : (n : ℕ) (xs : List A) → take n xs ++ drop n xs ≡ xs
  take-append-drop zero xs = refl
  take-append-drop (suc n) [] = refl
  take-append-drop (suc n) (x ∷ xs) = rw (take-append-drop n xs)

  pub length-take : (n : ℕ) (xs : List A) → length (take n xs) ≡ min n (length xs)
  length-take zero xs = omega arith
  length-take (suc n) [] = omega arith
  length-take (suc n) (x ∷ xs) = omega (arith, length-take n xs)

  pub length-drop : (n : ℕ) (xs : List A) → length (drop n xs) ≡ length xs - n
  length-drop zero xs = omega arith
  length-drop (suc n) [] = omega arith
  length-drop (suc n) (x ∷ xs) = omega (arith, length-drop n xs)

  pub length-replicate : (n : ℕ) (a : A) → length (replicate n a) ≡ n
  length-replicate zero a = refl
  length-replicate (suc n) a = ap suc (length-replicate n a)

  pub length-map {κ} : {B : Type κ} (xs : List A) (f : A → B) → length (map f xs) ≡ length xs
  length-map [] f = refl
  length-map (x ∷ xs) f = ap suc (length-map xs f)

module _ {ℓ} {A : Type ℓ} where
  -- The list with its elements from the front on replaced by `xs`; what does not fit is dropped.
  abbrev pub overwrite : List A → List A → List A
  overwrite [] ys = ys
  overwrite (x ∷ xs) [] = []
  overwrite (x ∷ xs) (y ∷ ys) = x ∷ overwrite xs ys

  -- `memcpy` of `xs` to the offset `n` of a buffer.
  abbrev pub write_at : ℕ → List A → List A → List A
  write_at zero xs ys = overwrite xs ys
  write_at (suc n) xs [] = []
  write_at (suc n) xs (y ∷ ys) = y ∷ write_at n xs ys

  pub length-overwrite : (xs ys : List A) → length (overwrite xs ys) ≡ length ys
  length-overwrite [] ys = refl
  length-overwrite (x ∷ xs) [] = refl
  length-overwrite (x ∷ xs) (y ∷ ys) = ap suc (length-overwrite xs ys)

  pub length-write_at : (n : ℕ) (xs ys : List A) → length (write_at n xs ys) ≡ length ys
  length-write_at zero xs ys = length-overwrite xs ys
  length-write_at (suc n) xs [] = refl
  length-write_at (suc n) xs (y ∷ ys) = ap suc (length-write_at n xs ys)

  pub take-length : (xs : List A) → take (length xs) xs ≡ xs
  take-length [] = refl
  take-length (x ∷ xs) = ap (λ (l : List A). x ∷ l) (take-length xs)

  pub take_all : (n : ℕ) (xs : List A) → length xs ≤ n → take n xs ≡ xs
  take_all zero [] h = refl
  take_all zero (x ∷ xs) h = absurd (omega arith)
  take_all (suc n) [] h = refl
  take_all (suc n) (x ∷ xs) h = ap (λ (l : List A). x ∷ l) (take_all n xs (omega arith))

  pub list-cases : (xs : List A) → (xs ≡ []) ⊎ ((x : A) × (rest : List A) × (xs ≡ x ∷ rest))
  list-cases [] = inl refl
  list-cases (x ∷ xs) = inr (x, xs, refl)

  pub take-take_le : (n m : ℕ) (xs : List A) → n ≤ m → take n (take m xs) ≡ take n xs
  take-take_le zero m xs h = refl
  take-take_le (suc n) zero xs h = absurd (omega arith)
  take-take_le (suc n) (suc m) [] h = refl
  take-take_le (suc n) (suc m) (x ∷ xs) h =
      ap (λ (l : List A). x ∷ l) (take-take_le n m xs (omega arith))

  pub get_or-take : (n i : ℕ) (xs : List A) (d : A) → i < n → get_or (take n xs) i d ≡ get_or xs i d
  get_or-take zero i xs d h = absurd (omega arith)
  get_or-take (suc n) i [] d h = refl
  get_or-take (suc n) zero (x ∷ xs) d h = refl
  get_or-take (suc n) (suc i) (x ∷ xs) d h = get_or-take n i xs d (omega arith)

  -- The elements behind the first part of a list.
  pub get_or-append_behind :
      (xs ys : List A) (i k : ℕ) (d : A) → i ≡ length xs + k → get_or (xs ++ ys) i d ≡ get_or ys k d
  get_or-append_behind [] ys i k d e = ap (λ (j : ℕ). get_or ys j d) (omega arith)
  get_or-append_behind (x ∷ xs) ys zero k d e = absurd (omega arith)
  get_or-append_behind (x ∷ xs) ys (suc i) k d e = get_or-append_behind xs ys i k d (omega arith)

  pub take-overwrite :
      (n : ℕ) (xs ys : List A)
      → n ≤ length xs
      → n ≤ length ys
      → take n (overwrite xs ys) ≡ take n xs
  take-overwrite zero xs ys h k = refl
  take-overwrite (suc n) [] ys h k = absurd (omega arith)
  take-overwrite (suc n) (x ∷ xs) [] h k = absurd (omega arith)
  take-overwrite (suc n) (x ∷ xs) (y ∷ ys) h k =
      ap (λ (l : List A). x ∷ l) (take-overwrite n xs ys (omega arith) (omega arith))

  pub drop-length : (xs : List A) → drop (length xs) xs ≡ []
  drop-length [] = refl
  drop-length (x ∷ xs) = drop-length xs

  pub take-take : (n : ℕ) (xs : List A) → take n (take n xs) ≡ take n xs
  take-take zero xs = refl
  take-take (suc n) [] = refl
  take-take (suc n) (x ∷ xs) = ap (λ (l : List A). x ∷ l) (take-take n xs)

  pub take-append_beyond :
      (n : ℕ) (xs ys : List A) → length xs ≤ n → take n (xs ++ ys) ≡ xs ++ take (n - length xs) ys
  take-append_beyond n [] ys h = ap (λ (k : ℕ). take k ys) (omega arith)
  take-append_beyond zero (x ∷ xs) ys h = absurd (omega arith)
  take-append_beyond (suc n) (x ∷ xs) ys h =
      ap (λ (l : List A). x ∷ l)
        (take-append_beyond n xs ys (omega arith) ∙ ap (λ (k : ℕ). xs ++ take k ys) (omega arith))

  pub take-replicate : (n m : ℕ) (a : A) → n ≤ m → take n (replicate m a) ≡ replicate n a
  take-replicate zero m a h = refl
  take-replicate (suc n) zero a h = absurd (omega arith)
  take-replicate (suc n) (suc m) a h =
      ap (λ (l : List A). a ∷ l) (take-replicate n m a (omega arith))

  -- What is taken out of a front, or put behind it where there is room, is a front of its own.
  pub take-drop-take : (k n : ℕ) (xs : List A) → take k (drop n (take k xs)) ≡ drop n (take k xs)
  take-drop-take k n xs =
      take_all k (drop n (take k xs)) (omega (arith, length-drop n (take k xs), length-take k xs))

  pub take-append-take :
      (k n : ℕ) (xs ys : List A)
      → length (take k xs) + n ≤ k
      → take k (take k xs ++ take n ys) ≡ take k xs ++ take n ys
  take-append-take k n xs ys h =
      take_all k (take k xs ++ take n ys)
        (omega (arith, length-append (take k xs) (take n ys), length-take n ys))

  -- Where it fits, an overwrite replaces the front and keeps the rest.
  pub overwrite-eq :
      (xs ys : List A) → length xs ≤ length ys → overwrite xs ys ≡ xs ++ drop (length xs) ys
  overwrite-eq [] ys h = refl
  overwrite-eq (x ∷ xs) [] h = absurd (omega arith)
  overwrite-eq (x ∷ xs) (y ∷ ys) h = ap (λ (l : List A). x ∷ l) (overwrite-eq xs ys (omega arith))

  pub take-append_left : (n : ℕ) (xs ys : List A) → n ≤ length xs → take n (xs ++ ys) ≡ take n xs
  take-append_left zero xs ys h = refl
  take-append_left (suc n) [] ys h = absurd (omega arith)
  take-append_left (suc n) (x ∷ xs) ys h =
      ap (λ (l : List A). x ∷ l) (take-append_left n xs ys (omega arith))

  pub write_at-append :
      (xs ys zs : List A) (n : ℕ) → length xs ≡ n → write_at n ys (xs ++ zs) ≡ xs ++ overwrite ys zs
  write_at-append [] ys zs zero e = refl
  write_at-append [] ys zs (suc n) e = absurd (omega arith)
  write_at-append (x ∷ xs) ys zs zero e = absurd (omega arith)
  write_at-append (x ∷ xs) ys zs (suc n) e =
      ap (λ (l : List A). x ∷ l) (write_at-append xs ys zs n (omega arith))

  pub take-append_length : (xs ys : List A) (n : ℕ) → length xs ≡ n → take n (xs ++ ys) ≡ xs
  take-append_length [] ys zero e = refl
  take-append_length [] ys (suc n) e = absurd (omega arith)
  take-append_length (x ∷ xs) ys zero e = absurd (omega arith)
  take-append_length (x ∷ xs) ys (suc n) e =
      ap (λ (l : List A). x ∷ l) (take-append_length xs ys n (omega arith))

  -- A write behind what stands at the front of a buffer.
  pub write_at_behind :
      (xs ys zs : List A)
      → length ys ≤ length zs
      → write_at (length xs) ys (xs ++ zs) ≡ (xs ++ ys) ++ drop (length ys) zs
  write_at_behind xs ys zs h =
      write_at-append xs ys zs (length xs) refl
      ∙ ap (λ (l : List A). xs ++ l) (overwrite-eq ys zs h)
      ∙ sym (append_assoc xs ys (drop (length ys) zs))

  -- Three writes one behind the other leave the three pieces at the front of the buffer.
  pub take-write_at_thrice :
      (xs ys zs buf : List A)
      → length xs + length ys + length zs ≤ length buf
      → take
          (length xs + length ys + length zs)
          (write_at (length xs + length ys) zs (write_at (length xs) ys (write_at 0 xs buf)))
        ≡ (xs ++ ys) ++ zs
  take-write_at_thrice xs ys zs buf h =
      ap (λ (l : List A). take size (write_at (length xs + length ys) zs l)) first_two
      ∙ ap (λ (k : ℕ). take size (write_at k zs ((xs ++ ys) ++ rest2))) (sym (length-append xs ys))
      ∙ ap (take size) (write_at_behind (xs ++ ys) zs rest2 room)
      ∙ take-append_length ((xs ++ ys) ++ zs) (drop (length zs) rest2) size whole
    where
      size : ℕ
      size = length xs + length ys + length zs

      rest : List A
      rest = drop (length xs) buf

      rest2 : List A
      rest2 = drop (length ys) rest

      room : length zs ≤ length rest2
      room = omega (arith, length-drop (length xs) buf, length-drop (length ys) rest)

      whole : length ((xs ++ ys) ++ zs) ≡ size
      whole = omega (arith, length-append (xs ++ ys) zs, length-append xs ys)

      first_two : write_at (length xs) ys (write_at 0 xs buf) ≡ (xs ++ ys) ++ rest2
      first_two =
          ap (write_at (length xs) ys) (overwrite-eq xs buf (omega arith))
          ∙ write_at_behind xs ys rest (omega (arith, length-drop (length xs) buf))
