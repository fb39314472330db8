-- ===== src/Run/Events.antt =====
-- run.c, `fun_show_mcu_can_event`, and mcu-reg/can-event.h: which events are read from the MCU, and
-- the numbers that are printed of them. The words around a number are left out; an event that is
-- printed by name is here by its value.
use linux_uart.Base.{
  ℕ, zero, suc, ◌+◌, ◌-◌, ◌*◌, ◌%◌, ◌^◌, ◌≤◌, ◌<◌, ◌≡◌, ◌⊎◌, inl, inr, refl, if-cases, ap, arith,
  Bool, true, ◌&&◌, List, [], ◌∷◌, ◌++◌, get_or, replicate, ltb, ◌==◌, if◌then◌else◌,
}
use linux_uart.Base.Int.{ℤ, pos, negsuc, is_neg, neg}
use linux_uart.RegWrCb.{RegWrCbHandle}
use linux_uart.Run.{get_bit}

-- CAN_EVENT_USE_CNT
abbrev pub can_event_use_cnt : ℕ
can_event_use_cnt = 48

-- The loop over the events, of which the last valid one counts.
pub valid_max_event : ℕ → List ℕ → ℕ
valid_max_event zero valid = 0
valid_max_event (suc n) valid = if ltb 0 (get_bit valid n) then n else valid_max_event n valid

-- Whether `n` events from `first` on are all valid.
pub all_valid : ℕ → ℕ → List ℕ → Bool
all_valid first zero valid = true
all_valid first (suc n) valid = ltb 0 (get_bit valid first) && all_valid (first + 1) n valid

-- A number of `n` bytes from `first` on, the lowest byte first.
pub event_value : ℕ → ℕ → List ℕ → ℕ
event_value first zero event = 0
event_value first (suc n) event = get_or event first 0 + 256 * event_value (first + 1) n event

-- The line for a number of `n` bytes: the first event's number, and the value.
pub show_event : ℕ → ℕ → List ℕ → List ℕ → List (ℕ × ℤ)
unfolding all_valid event_value
show_event first n valid event =
    if all_valid first n valid then (first, pos (event_value first n event)) ∷ [] else []

-- The line for the date and the time, the year first and the second last.
pub show_time : List ℕ → List ℕ → List (ℕ × ℤ)
unfolding all_valid
show_time valid event =
    if all_valid 16 6 valid
    then (21, pos (get_or event 21 0 + 1985))
      ∷ (20, pos (get_or event 20 0))
      ∷ (19, pos (get_or event 19 0))
      ∷ (18, pos (get_or event 18 0))
      ∷ (17, pos (get_or event 17 0))
      ∷ (16, pos (get_or event 16 0))
      ∷ []
    else []

-- The distance, as `rh_u32*5` gives it in 32 bits.
pub show_haul : List ℕ → List ℕ → List (ℕ × ℤ)
unfolding all_valid event_value
show_haul valid event =
    if all_valid 24 4 valid then (24, pos (event_value 24 4 event * 5 % 2 ^ 32)) ∷ [] else []

-- The steering angle, an `int16_t`, in thousandths.
pub show_angle : List ℕ → List ℕ → List (ℕ × ℤ)
unfolding all_valid event_value
show_angle valid event =
    let w = event_value 39 2 event in
    if all_valid 39 2 valid
    then (39, if ltb w (2 ^ 15) then pos w else negsuc (2 ^ 16 - w - 1)) ∷ []
    else []

-- The lines in their order.
pub show_events : List ℕ → List ℕ → List (ℕ × ℤ)
unfolding show_event show_time show_haul show_angle
show_events valid event =
    let show : ℕ → ℕ → List (ℕ × ℤ) = λ first n. show_event first n valid event in
    show 0 1
    ++ (show 1 1
        ++ (show 2 1
            ++ (show 3 1
                ++ (show 4 1
                    ++ (show 5 1
                        ++ (show 6 1
                            ++ (show 7 1
                                ++ (show 46 2
                                    ++ (show 8 1
                                        ++ (show 9 1
                                            ++ (show 10 1
                                                ++ (show 11 1
                                                    ++ (show 12 2
                                                        ++ (show 14 2
                                                            ++ (show_time valid event
                                                            ++ (show 22 2
                                                            ++ (show_haul valid event
                                                            ++ (show 28 1
                                                            ++ (show 29 1
                                                            ++ (show 30 1
                                                            ++ (show 31 1
                                                            ++ (show 32 1
                                                            ++ (show 33 1
                                                            ++ (show_angle valid event
                                                            ++ (show 41 4
                                                            ++ show 45 1)))))))))))))))))))))))))

-- `fun_show_mcu_can_event`: what is returned, and what is shown.
unfoldable pub fun_show_mcu_can_event : {S : Type 0} → RegWrCbHandle S → S → ℤ × List (ℕ × ℤ) × S
unfolding valid_max_event show_events
fun_show_mcu_can_event bus s =
    let (r1, valid, s1) = bus.read_reg 0x0400 (replicate 64 0) 64 200 s in
    let last = valid_max_event can_event_use_cnt valid in
    let (r2, event, s2) = bus.read_reg 0x0440 (replicate 48 0) (last + 1) 200 s1 in
    if is_neg r1
    then (neg 1, [], s1)
    else if last == 0
    then (pos 0, [], s1)
    else if is_neg r2
    then (neg 1, [], s2)
    else (pos 0, show_events valid event, s2)

-- The last valid event of the first `n`, or 0 where none is valid but perhaps the first.
abbrev pub LastValid : ℕ → List ℕ → ℕ → Type 0
LastValid n valid last =
    ((i : ℕ) → i < n → 0 < get_bit valid i → i ≤ last)
    × ((last ≡ 0) ⊎ ((last < n) × (0 < get_bit valid last)))

-- `valid_max_event` of a map of `n` events is the last valid one: no valid event comes after it, and it
-- is a valid one, or it is 0. It is 0, too, where no event is valid.
pub valid_max_event-LastValid :
    (n : ℕ) (valid : List ℕ) → LastValid n valid (valid_max_event n valid)
unfolding valid_max_event
valid_max_event-LastValid zero valid = (λ i h v. absurd (omega arith), inl refl)
valid_max_event-LastValid (suc n) valid =
    let (above, one) = valid_max_event-LastValid n valid in
    if-cases (LastValid (suc n) valid) (ltb 0 (get_bit valid n))
      (λ is_valid. (λ i h v. omega arith, inr (omega arith, ground arith)))
      λ not_valid. (
        λ i h v. ground (arith, above i, ap (get_bit valid) {x = i} {y = n}),
        elim one [ inl e ↦ inl e | inr (h, v) ↦ inr (omega arith, v) ],
      )
