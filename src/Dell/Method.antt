-- ===== src/Dell/Method.antt =====
-- The method that a Dell fan is controlled by.
use fancon.Common.{
  ℕ, ◌≤◌, ◌≡◌, ◌⊎◌, inl, inr, refl, Bool, false, ◌&&◌, Option, none, some, List, [], ◌∷◌, leb,
  if-cases, Elem, arith,
}
use fancon.Fan.Driver.{Driver}
use fancon.Dell.{
  manual_control_1, manual_control_2, manual_control_3, mode, try_method, try_methods, or_default,
  test_driver_enable_flag,
}

-- No method, or one of those that were tried.
abbrev Tried : List ℕ → Option ℕ → Type 0
Tried ms none = Unit
Tried ms (some m) = Elem m ms

Tried-cons : (m : ℕ) (ms : List ℕ) (o : Option ℕ) → Tried ms o → Tried (m ∷ ms) o
Tried-cons m ms none h = tt
Tried-cons m ms (some k) h = inr h

second_method :
    (o : Option ℕ) (on : Bool)
    → Tried (manual_control_2 ∷ manual_control_1 ∷ manual_control_3 ∷ []) o
    → mode (or_default o) on ≡ mode 2 on
unfolding or_default mode
second_method none on h = refl
second_method (some m) on h = ground (arith, h)

module _ {W : Type 0} (d : Driver W) (smm_send : ℕ → W → Bool × W) where
  try_methods-Tried : (ms : List ℕ) (w : W) → Tried ms (try_methods d smm_send ms w).0
  unfolding try_methods
  try_methods-Tried [] w = tt
  try_methods-Tried (m ∷ ms) w =
      let (took, w') = try_method d smm_send m w in
      if-cases (λ (r : Option ℕ × W). Tried (m ∷ ms) r.0) took {x = (some m, w')}
        {y = try_methods d smm_send ms w'} (λ h. inl refl)
        (λ h. Tried-cons m ms _ (try_methods-Tried ms w'))

  try_methods-Elem :
      (o : Option ℕ)
      → Tried (manual_control_2 ∷ manual_control_1 ∷ manual_control_3 ∷ []) o
      → Elem (or_default o) (2 ∷ manual_control_2 ∷ manual_control_1 ∷ manual_control_3 ∷ [])
  unfolding or_default
  try_methods-Elem none h = inl refl
  try_methods-Elem (some m) h = inr h

  -- The test of the method leaves a flag from 1 to 3, and the fan, as they are. Any other flag becomes
  -- 2 or the code of one of the three methods' commands; by each of these the fan is controlled by the
  -- second method, whichever method it answered to, since `mode` does not know the codes.
  pub test_driver_enable_flag-mode :
      (flag : ℕ) (w : W) (on : Bool)
      → let r = test_driver_enable_flag d smm_send flag w in
        ((1 ≤ flag) × (flag ≤ 3) × (r ≡ (flag, w)))
        ⊎ ((¬ ((1 ≤ flag) × (flag ≤ 3)))
            × Elem r.0 (2 ∷ manual_control_2 ∷ manual_control_1 ∷ manual_control_3 ∷ [])
            × (mode r.0 on ≡ mode 2 on))
  unfolding test_driver_enable_flag or_default mode
  test_driver_enable_flag-mode flag w on =
      let ms : List ℕ = manual_control_2 ∷ manual_control_1 ∷ manual_control_3 ∷ [] in
      let (m, w') = try_methods d smm_send ms w in
      let tried = try_methods-Tried ms w in
      if-cases
        (λ (r : ℕ × W).
          ((1 ≤ flag) × (flag ≤ 3) × (r ≡ (flag, w)))
          ⊎ ((¬ ((1 ≤ flag) × (flag ≤ 3)))
              × Elem r.0 (2 ∷ manual_control_2 ∷ manual_control_1 ∷ manual_control_3 ∷ [])
              × (mode r.0 on ≡ mode 2 on)))
        (leb 1 flag && leb flag 3) {x = (flag, w)} {y = (or_default m, w')}
        (λ h. inl (ground arith, ground arith, refl))
        (λ h. inr (outside h, try_methods-Elem m tried, second_method m on tried))
    where
      outside : (leb 1 flag && leb flag 3) ≡ false → ¬ ((1 ≤ flag) × (flag ≤ 3))
      outside h (a, b) = absurd (ground (arith, h, a, b))
