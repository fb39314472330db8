-- ===== src/Run/Dtc.antt =====
-- run.c: what setting and clearing a fault does to the bits of the fault map.
use linux_uart.Base.{
  ◌||◌, not, ap₂, ℕ, ◌-◌, ◌/◌, ◌<◌, ◌≡◌, refl, sym, ap, ◌∙◌, arith, Bool, true, false, ◌&&◌, List,
  length, ltb, ◌==◌, if◌then◌else◌, all_below, all_below-holds, inl, inr, Bool-cases, ltb→lt,
  if-cases,
}
use linux_uart.MemCtrl.{mem_bytes}
use linux_uart.Run.{get_bit, set_bit, changeable, change_dtc}
use linux_uart.Run.Bits.{Bytes, get_bit-set_bit, set_bit-Bytes, length-set_bit}

-- A fault that may be changed has a bit among the 32.
changeable-bounded : (dtc : ℕ) → changeable dtc ≡ true → (dtc - 1) / 8 < 4
unfolding changeable
changeable-bounded dtc h = ground arith

-- One of the two `if`s.
abbrev change_one : ℕ → ℕ → List ℕ → List ℕ
change_one dtc v map = if changeable dtc then set_bit map (dtc - 1) v else map

-- A fault map: four bytes.
abbrev FaultMap : List ℕ → Type 0
FaultMap map = Bytes map × (length map ≡ 4)

change_one-FaultMap :
    (dtc v : ℕ) (map : List ℕ) → v < 2 → FaultMap map → FaultMap (change_one dtc v map)
change_one-FaultMap dtc v map hv (bytes, size) =
    if-cases FaultMap (changeable dtc)
      (λ allowed. (
        set_bit-Bytes map (dtc - 1) v bytes (omega (arith, size, changeable-bounded dtc allowed))
            hv,
        length-set_bit map (dtc - 1) v ∙ size,
      ))
      (λ fixed. (bytes, size))

change_one-bits :
    (dtc v i : ℕ) (map : List ℕ)
    → v < 2
    → FaultMap map
    → get_bit (change_one dtc v map) i
      ≡ (if changeable dtc && i == dtc - 1 then v else get_bit map i)
change_one-bits dtc v i map hv (bytes, size) = elim (Bool-cases (changeable dtc)) [
  | inl allowed ↦ rw allowed (
      get_bit-set_bit map (dtc - 1) i v bytes (omega (arith, size, changeable-bounded dtc allowed))
        hv)
  | inr fixed ↦ rw fixed refl
]

abbrev eq_bool : Bool → Bool → Bool
eq_bool true c = c
eq_bool false c = not c

eq_bool_sound : (b c : Bool) → eq_bool b c ≡ true → b ≡ c
eq_bool_sound true true h = refl
eq_bool_sound true false h = sym h
eq_bool_sound false true h = h
eq_bool_sound false false h = refl

-- The faults of the MPU: 1 to 4 and 8 to 11.
abbrev pub of_mpu : ℕ → Bool
of_mpu dtc = (ltb 0 dtc && ltb dtc 5) || (ltb 7 dtc && ltb dtc 12)

mask_table : all_below 33 (λ d. eq_bool (changeable d) (of_mpu d)) ≡ true
unfolding all_below changeable mem_bytes get_bit
mask_table = refl

beyond_map : (dtc : ℕ) → ltb dtc 33 ≡ false → changeable dtc ≡ of_mpu dtc
unfolding changeable
beyond_map dtc large = ground arith

changeable-of_mpu : (dtc : ℕ) → changeable dtc ≡ of_mpu dtc
changeable-of_mpu dtc = elim (Bool-cases (ltb dtc 33)) [
  | inl small ↦ eq_bool_sound _ _ (all_below-holds 33 _ dtc (ltb→lt _ _ small) mask_table)
  | inr large ↦ beyond_map dtc large
]

-- Setting and clearing faults in the map of four bytes: fault n, if it is one of the MPU, gets bit
-- n - 1 set or cleared, clearing last; every other bit stays as it is, and the number of a fault that
-- is not one of the MPU changes nothing.
pub change_dtc-bits :
    (set_dtc clean_dtc i : ℕ) (map : List ℕ)
    → Bytes map
    → length map ≡ 4
    → get_bit (change_dtc set_dtc clean_dtc map) i ≡ (
        if of_mpu clean_dtc && i == clean_dtc - 1
        then 0
        else if of_mpu set_dtc && i == set_dtc - 1
        then 1
        else get_bit map i)
unfolding change_dtc
change_dtc-bits set_dtc clean_dtc i map bytes size =
    let set_map = change_one set_dtc 1 map in
    change_one-bits clean_dtc 0 i set_map (omega arith)
      (change_one-FaultMap set_dtc 1 map (omega arith) (bytes, size))
    ∙ ap₂ (λ (t : ℕ) (c : Bool). if c && i == clean_dtc - 1 then 0 else t)
        (change_one-bits set_dtc 1 i map (omega arith) (bytes, size)
          ∙ ap (λ (c : Bool). if c && i == set_dtc - 1 then 1 else get_bit map i)
              (changeable-of_mpu set_dtc))
        (changeable-of_mpu clean_dtc)
