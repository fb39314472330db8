-- ===== src/Debug/Oldest.antt =====
-- general/debug.c: which log file is removed.
use mathlib.Core.Path.{subst}
use linux_uart.Base.{
  ℕ, ◌+◌, ◌≤◌, ◌<◌, ◌≡◌, ◌⊎◌, inl, inr, refl, sym, arith, true, false, List, [], ◌∷◌, ltb,
  if◌then◌else◌, if-cases, Bool-cases, Option, none, some,
}
use linux_uart.Debug.{Entry, strcmp_less, is_older, scan, expired, log_max_file_count}

-- strcmp orders names.
strcmp_trans :
    (a b c : List ℕ) → strcmp_less a b ≡ true → strcmp_less b c ≡ true → strcmp_less a c ≡ true
unfolding strcmp_less
strcmp_trans a b [] h k = ground arith
strcmp_trans a [] (z ∷ c) h k = ground arith
strcmp_trans [] (y ∷ b) (z ∷ c) h k = refl
strcmp_trans (x ∷ a) (y ∷ b) (z ∷ c) h k = ground (arith, strcmp_trans a b c)

-- What does not come before one that does not come before a third does not come before the third.
strcmp_cotrans :
    (a b c : List ℕ) → strcmp_less a b ≡ false → strcmp_less b c ≡ false → strcmp_less a c ≡ false
unfolding strcmp_less
strcmp_cotrans a b [] h k = refl
strcmp_cotrans a [] (z ∷ c) h k = ground arith
strcmp_cotrans [] (y ∷ b) (z ∷ c) h k = ground arith
strcmp_cotrans (x ∷ a) (y ∷ b) (z ∷ c) h k = ground (arith, strcmp_cotrans a b c)

strcmp_irrefl : (a : List ℕ) → strcmp_less a a ≡ false
unfolding strcmp_less
strcmp_irrefl [] = refl
strcmp_irrefl (x ∷ a) = ground (arith, strcmp_irrefl a)

strcmp_asym : (a b : List ℕ) → strcmp_less a b ≡ true → strcmp_less b a ≡ false
strcmp_asym a b h = elim (Bool-cases (strcmp_less b a)) [
  | inl back ↦ absurd (ground (arith, strcmp_trans a b a h back, strcmp_irrefl a))
  | inr fine ↦ fine
]

-- The older log files among the entries.
abbrev pub older_count : List ℕ → List Entry → ℕ
older_count log_name [] = 0
older_count log_name (e ∷ rest) =
    let others = older_count log_name rest in if is_older log_name e then others + 1 else others

scan-count :
    (log_name : List ℕ) (entries : List Entry) (n : ℕ) (pioneer : List ℕ)
    → (scan log_name entries n pioneer).0 ≡ n + older_count log_name entries
unfolding scan
scan-count log_name [] n pioneer = omega arith
scan-count log_name (e ∷ rest) n pioneer = ground (
  arith,
  scan-count log_name rest n pioneer,
  scan-count log_name rest (n + 1) (if strcmp_less e.d_name pioneer then e.d_name else pioneer),
)

-- No older log file among the entries comes before a name.
abbrev pub NoneBefore : List ℕ → List ℕ → List Entry → Type 0
NoneBefore log_name pioneer [] = Unit
NoneBefore log_name pioneer (e ∷ rest) =
    (is_older log_name e ≡ true → strcmp_less e.d_name pioneer ≡ false)
    × NoneBefore log_name pioneer rest

-- A name is that of an older log file among the entries.
abbrev pub IsOlder : List ℕ → List ℕ → List Entry → Type 0
IsOlder log_name name [] = ⊥
IsOlder log_name name (e ∷ rest) =
    ((is_older log_name e ≡ true) × (e.d_name ≡ name)) ⊎ IsOlder log_name name rest

-- What does not come before the smaller of two names comes before neither.
first_before :
    (d p oldest : List ℕ)
    → strcmp_less (if strcmp_less d p then d else p) oldest ≡ false
    → (strcmp_less p oldest ≡ false) × (strcmp_less d oldest ≡ false)
first_before d p oldest =
    if-cases
      (λ f.
        strcmp_less f oldest ≡ false
        → (strcmp_less p oldest ≡ false) × (strcmp_less d oldest ≡ false))
      (strcmp_less d p) (λ before. λ h. (strcmp_cotrans p d oldest (strcmp_asym d p before) h, h))
      (λ after. λ h. (h, strcmp_cotrans d p oldest after h))

which_one :
    (d p oldest : List ℕ)
    → oldest ≡ (if strcmp_less d p then d else p)
    → (oldest ≡ p) ⊎ (d ≡ oldest)
which_one d p oldest =
    if-cases (λ f. oldest ≡ f → (oldest ≡ p) ⊎ (d ≡ oldest)) (strcmp_less d p)
      (λ _. λ this. inr (sym this)) (λ _. λ given. inl given)

module _ (log_name : List ℕ) where
  -- The name that the loop ends with is the given one or that of an older log file, does not come
  -- after the given one, and no older log file comes before it.
  scan-oldest :
      (entries : List Entry) (n : ℕ) (pioneer : List ℕ)
      → let oldest = (scan log_name entries n pioneer).1 in
        (strcmp_less pioneer oldest ≡ false)
        × NoneBefore log_name oldest entries
        × ((oldest ≡ pioneer) ⊎ IsOlder log_name oldest entries)
  unfolding scan
  scan-oldest [] n pioneer = (strcmp_irrefl pioneer, tt, inl refl)
  scan-oldest (e ∷ rest) n pioneer =
      let first = if strcmp_less e.d_name pioneer then e.d_name else pioneer in
      let Oldest : ℕ × List ℕ → Type 0 = λ r.
        (strcmp_less pioneer r.1 ≡ false)
        × NoneBefore log_name r.1 (e ∷ rest)
        × ((r.1 ≡ pioneer) ⊎ IsOlder log_name r.1 (e ∷ rest)) in
      if-cases Oldest (is_older log_name e)
        (λ older.
          let (not_after, none_first, which) = scan-oldest rest (n + 1) first in
          let (after_given, after_this) = first_before e.d_name pioneer _ not_after in
          (
            after_given,
            ((λ _. after_this), none_first),
            elim which [
              | inl same ↦ elim (which_one e.d_name pioneer _ same) [
                | inl given ↦ inl given
                | inr this ↦ inr (inl (older, this))
              ]
              | inr other ↦ inr (inr other)
            ],
          ))
        (λ newer.
          let (not_after, none_first, which) = scan-oldest rest n pioneer in
          (
            not_after,
            ((λ older. ground arith), none_first),
            elim which [ inl given ↦ inl given | inr other ↦ inr (inr other) ],
          ))

  older_one :
      (entries : List Entry)
      → NoneBefore log_name log_name entries
      → older_count log_name entries ≡ 0
  older_one [] h = refl
  older_one (e ∷ rest) (this, others) = ground (arith, older_one rest others)

  -- What is done about old log files.
  pub data Expiry (entries : List Entry) : Option (List ℕ) → Type 0 where
    kept : older_count log_name entries < 5 → Expiry entries none
    removed :
        (pioneer : List ℕ)
        → 5 ≤ older_count log_name entries
        → IsOlder log_name pioneer entries
        → NoneBefore log_name pioneer entries
        → Expiry entries (some pioneer)

  -- When a new log file is started, a file is removed exactly where five log files or more are older,
  -- and then it is the oldest: a regular file with a name of 23 characters that comes before the new
  -- one by strcmp, before which no other such file comes. Other files are never removed.
  pub expired-Expiry : (entries : List Entry) → Expiry entries (expired log_name entries)
  unfolding expired
  expired-Expiry entries =
      let (file_count, pioneer) = scan log_name entries 0 log_name in
      let count = scan-count log_name entries 0 log_name in
      let (not_after, none_before, which) = scan-oldest entries 0 log_name in
      if-cases (Expiry entries) (ltb file_count log_max_file_count)
        (λ few. kept (ground (arith, count)))
        (λ many.
          let enough : 5 ≤ older_count log_name entries = ground (arith, count) in
          removed pioneer enough
            (elim which [
              | inl same ↦ absurd (
                  omega (
                    arith,
                    enough,
                    older_one entries (subst (λ p. NoneBefore log_name p entries) same none_before),
                  ))
              | inr older ↦ older
            ])
            none_before)
