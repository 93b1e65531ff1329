-- ===== src/Sensor/Average.antt =====
-- The average lies between the temperatures, and the end of the history is passed.
use native.Mathlib.Nat.{le-div_iff_mul-le, div-lt_iff_lt-mul, le-mul_of_pos_right}
use mathlib.Core.List.{nil≢cons}
use fancon.Common.{
  if-cases, sym, ap, ◌∙◌, ◌⊎◌, inl, inr, ℕ, zero, ◌+◌, ◌*◌, ◌/◌, ◌%◌, ◌≤◌, ◌<◌, ◌≡◌, suc, refl,
  false, none, some, List, [], ◌∷◌, ltb, length, set, replicate, length-set, length-replicate, All,
  arith,
}
use fancon.Common.Int.{ℤ, pos, negsuc, +ℤ-pos}
use fancon.Common.Words.{u32_mod, i32_top, to_int32}
use fancon.Sensor.{
  Sensor, Reading, average, past_end, zero_division, to_size, sum, quotient, averaged, take_average,
  recorded, record_temp, average_after, get_average_temp, and_then, readings, u64_mod,
}

-- A temperature between two numbers, and a history of such.
abbrev pub In : ℕ → ℕ → ℤ → Type 0
In lo hi (pos n) = (lo ≤ n) × (n ≤ hi)
In lo hi (negsuc n) = ⊥

sum-between :
    (lo hi : ℕ) (ts : List ℤ)
    → All (In lo hi) ts
    → (m : ℕ) × (sum ts ≡ pos m) × (length ts * lo ≤ m) × (m ≤ length ts * hi)
unfolding sum
sum-between lo hi [] h = (0, refl, omega arith, omega arith)
sum-between lo hi (negsuc n ∷ ts) (h, r) = absurd h
sum-between lo hi (pos n ∷ ts) ((h, k), r) =
    let (m, e, l, u) = sum-between lo hi ts r in
    (n + m, rw (e, +ℤ-pos n m) refl, omega (arith, h, l), omega (arith, k, u))

divided :
    (lo hi m n : ℕ)
    → 0 < n
    → n * lo ≤ m
    → m ≤ n * hi
    → n * hi < i32_top
    → (to_int32 (m % u64_mod / n % u32_mod) ≡ pos (m / n)) × (lo ≤ m / n) × (m / n ≤ hi)
unfolding to_int32
divided lo hi m n p l u b =
    let low : lo ≤ m / n = (le-div_iff_mul-le p).1 (omega (arith, l)) in
    let high : m / n < suc hi = (div-lt_iff_lt-mul p).1 (omega (arith, u, p)) in
    let top : hi ≤ n * hi = omega (arith, le-mul_of_pos_right hi p) in
    (ground (arith, div-small m n, low, high, top, b, u), low, omega (arith, high))
  where
    div-small : (m n : ℕ) → m < u64_mod → m % u64_mod ≡ m
    div-small m n h = omega arith

quotient-between :
    (lo hi : ℕ) (t : ℤ) (ts : List ℤ)
    → All (In lo hi) (t ∷ ts)
    → length (t ∷ ts) * hi < i32_top
    → (q : ℕ) × (quotient (t ∷ ts) ≡ pos q) × (lo ≤ q) × (q ≤ hi)
unfolding quotient to_size
quotient-between lo hi t ts h b =
    let (m, e, l, u) = sum-between lo hi (t ∷ ts) h in
    let (f, low, high) = divided lo hi m (length (t ∷ ts)) (omega arith) l u b in
    (m / length (t ∷ ts), rw e f, low, high)

All-set :
    (lo hi : ℕ) (ts : List ℤ) (i : ℕ) (t : ℤ)
    → In lo hi t
    → All (In lo hi) ts
    → All (In lo hi) (set ts i t)
All-set lo hi [] i t h k = k
All-set lo hi (u ∷ ts) zero t h (k, r) = (h, r)
All-set lo hi (u ∷ ts) (suc i) t h (k, r) = (k, All-set lo hi ts i t h r)

All-replicate : (lo hi n : ℕ) (t : ℤ) → In lo hi t → All (In lo hi) (replicate n t)
All-replicate lo hi zero t h = tt
All-replicate lo hi (suc n) t h = (h, All-replicate lo hi n t h)

-- The average of a reading lies between the two numbers, and the temperatures of its history do.
abbrev pub Between : ℕ → ℕ → Reading → Type 0
Between lo hi (average a s) = In lo hi a × All (In lo hi) s.temp_history
Between lo hi past_end = ⊥
Between lo hi zero_division = ⊥

averaged-Between :
    (lo hi : ℕ) (ts : List ℤ) (s : Sensor)
    → All (In lo hi) ts
    → All (In lo hi) s.temp_history
    → 0 < length ts
    → length ts * hi < i32_top
    → Between lo hi (averaged ts s)
unfolding averaged
averaged-Between lo hi [] s h r p b = absurd (omega (arith, p))
averaged-Between lo hi (t ∷ ts) s h r p b =
    let (q, e, l, u) = quotient-between lo hi t ts h b in (rw e (l, u), r)

recorded-Between :
    (lo hi averaging : ℕ) (t : ℤ) (ts : List ℤ) (s : Sensor)
    → 0 < averaging
    → averaging * hi < i32_top
    → length ts * hi < i32_top
    → (ts ≡ []) ⊎ (s.temp_history_i < length ts)
    → All (In lo hi) ts
    → In lo hi t
    → Between lo hi (average_after (recorded averaging t ts s))
unfolding recorded average_after take_average
recorded-Between lo hi averaging t [] s p b c i h k =
    let all : All (In lo hi) (replicate averaging t) = All-replicate lo hi averaging t k in
    averaged-Between lo hi (replicate averaging t) _ all all
      (omega (arith, length-replicate averaging t, p)) (rw (length-replicate averaging t) b)
recorded-Between lo hi averaging t (u ∷ ts) s p b c (inl e) h k = absurd (nil≢cons (sym e))
recorded-Between lo hi averaging t (u ∷ ts) s p b c (inr i) h k =
    if-cases (λ o. Between lo hi (average_after o)) (ltb s.temp_history_i (length (u ∷ ts)))
      (λ e.
        let all : All (In lo hi) (set (u ∷ ts) s.temp_history_i t) =
          All-set lo hi (u ∷ ts) s.temp_history_i t k h in
        averaged-Between lo hi (set (u ∷ ts) s.temp_history_i t) _ all all
          (omega (arith, length-set (u ∷ ts) s.temp_history_i t))
          (rw (length-set (u ∷ ts) s.temp_history_i t) c))
      (λ e. absurd (ground (arith, e, i)))

-- Of a sensor whose history is empty or has its index in range, with temperatures between two
-- numbers and none below zero, a reading between them gives an average between them, and keeps the
-- temperatures of the history there; the sums are assumed to fit in an int.
pub get_average_temp-Between :
    (lo hi averaging : ℕ) (t : ℤ) (s : Sensor)
    → 0 < averaging
    → averaging * hi < i32_top
    → length s.temp_history * hi < i32_top
    → (s.temp_history ≡ []) ⊎ (s.temp_history_i < length s.temp_history)
    → All (In lo hi) s.temp_history
    → In lo hi t
    → Between lo hi (get_average_temp averaging false (some t) s)
unfolding get_average_temp record_temp
get_average_temp-Between lo hi averaging t s p b c i h k =
    recorded-Between lo hi averaging t s.temp_history s p b c i h k

-- The next index, with a history of the length `n`.
abbrev At : ℕ → ℕ → Sensor → Type 0
At n i s = (length s.temp_history ≡ n) × (s.temp_history_i ≡ i)

averaged-entries :
    (ts : List ℤ) (s : Sensor)
    → 0 < length ts
    → (q : ℤ) × (averaged ts s ≡ average q (record s { last_avg_temp = q }))
unfolding averaged
averaged-entries [] s p = absurd (omega (arith, p))
averaged-entries (t ∷ ts) s p = (quotient (t ∷ ts), refl)

recorded-At :
    (n i a : ℕ) (t : ℤ) (ts : List ℤ) (s : Sensor)
    → i < n
    → length ts ≡ n
    → s.temp_history_i ≡ i
    → (q : ℤ) × (s' : Sensor) × (average_after (recorded a t ts s) ≡ average q s') × At n (suc i) s'
unfolding recorded average_after take_average
recorded-At n i a t [] s h e f = absurd (omega (arith, h, e))
recorded-At n i a t (u ∷ us) s h e f =
    if-cases (λ o. (q : ℤ) × (s' : Sensor) × (average_after o ≡ average q s') × At n (suc i) s')
      (ltb s.temp_history_i (length (u ∷ us)))
      (λ b.
        let s₁ : Sensor = record s {
          temp_history = set (u ∷ us) s.temp_history_i t;
          temp_history_i = suc s.temp_history_i;
        } in
        let same : length s₁.temp_history ≡ length (u ∷ us) =
          length-set (u ∷ us) s.temp_history_i t in
        let (q, g) = averaged-entries s₁.temp_history s₁ (omega (arith, same)) in
        (q, record s₁ { last_avg_temp = q }, g, (omega (arith, same, e), omega (arith, f))))
      (λ b. absurd (ground (arith, b, h, e, f)))

recorded-none :
    (a : ℕ) (t : ℤ) (ts : List ℤ) (s : Sensor)
    → 0 < length ts
    → length ts ≡ s.temp_history_i
    → recorded a t ts s ≡ none
unfolding recorded
recorded-none a t [] s p e = absurd (omega (arith, p))
recorded-none a t (u ∷ us) s p e = ground (arith, e)

past_index :
    (n i a : ℕ) (ts : List ℤ) (s : Sensor)
    → 0 < n
    → i + length ts ≡ suc n
    → i ≤ n
    → At n i s
    → readings a ts s ≡ past_end
unfolding and_then readings get_average_temp record_temp average_after
past_index n i a [] s p h k at = absurd (omega (arith, h, k))
past_index n i a (t ∷ ts) s p h k (e, f) = elim (lt_or_eq i n k) [
  | inl l ↦
      let (q, s', g, at) = recorded-At n i a t s.temp_history s l e f in
      ap (λ r. and_then r (readings a ts)) g
      ∙ past_index n (suc i) a ts s' p (omega (arith, h)) l at
  | inr m ↦
      ap (λ o. and_then (average_after o) (readings a ts))
        (recorded-none a t s.temp_history s (omega (arith, e, p)) (omega (arith, e, f, m)))
]
  where
    lt_or_eq : (i n : ℕ) → i ≤ n → (i < n) ⊎ (i ≡ n)
    lt_or_eq i n h = ground (arith, h)

-- From an empty history, as many readings as it gets entries, and two more, write past its end:
-- the index is compared with the length before it is counted up.
pub readings-past_end :
    (averaging : ℕ) (t u : ℤ) (ts : List ℤ)
    → 0 < averaging
    → length ts ≡ averaging
    → readings averaging
        (t ∷ u ∷ ts)
        (record { temp_history = []; temp_history_i = 0; last_avg_temp = pos 0 })
      ≡ past_end
unfolding and_then readings get_average_temp record_temp recorded average_after take_average
readings-past_end averaging t u ts p e =
    let s₁ : Sensor = record {
      temp_history = replicate averaging t;
      temp_history_i = 0;
      last_avg_temp = pos 0;
    } in
    let same : length s₁.temp_history ≡ averaging = length-replicate averaging t in
    let (q, g) = averaged-entries s₁.temp_history s₁ (omega (arith, same, p)) in
    ap (λ r. and_then r (readings averaging (u ∷ ts))) g
    ∙ (past_index averaging 0 averaging (u ∷ ts) (record s₁ { last_avg_temp = q }) p
        (omega (arith, e)) (omega arith) (same, refl))
