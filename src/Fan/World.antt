-- ===== src/Fan/World.antt =====
-- Programs over the world of a driver.
use fancon.Common.{ℕ, ◌≡◌, if◌then◌else◌, ltb}
use fancon.Fan.{Settings}
use fancon.Fan.Driver.{Driver}

-- `stuck` stands for a loop of the model that ran out of fuel.
pub data Outcome (A : Type 0) : Type 0 where
  ok : A → Outcome A
  undefined stuck : Outcome A

abbrev pub M : Type 0 → Type 0 → Type 0
M W A = W → Outcome (A × W)

infixl 5 ◌>>=◌ ◌>>◌
abbrev pub then_run : {A B W : Type 0} → Outcome (A × W) → (A → M W B) → Outcome (B × W)
then_run (ok (a, w)) f = f a w
then_run undefined f = undefined
then_run stuck f = stuck

abbrev pub ◌>>=◌ : {A B W : Type 0} → M W A → (A → M W B) → M W B
◌>>=◌ m f w = then_run (m w) f

abbrev pub ◌>>◌ : {B W : Type 0} → M W (Unit {0}) → M W B → M W B
◌>>◌ m k w = then_run (m w) (λ _. k)

abbrev pub return : {A W : Type 0} → A → M W A
return a w = ok (a, w)

abbrev pub diverge : {A W : Type 0} → M W A
diverge w = stuck

-- A call of the driver.
abbrev pub call : {A W : Type 0} → (W → A × W) → M W A
call f w = ok (f w)

-- The result, where there is one, satisfies `P`.
abbrev pub Returns : {A : Type 0} → (A → Type 0) → Outcome A → Type 0
Returns P (ok a) = P a
Returns P undefined = Unit
Returns P stuck = Unit

pub Returns-then_run :
    {A B W : Type 0} (P : A × W → Type 0) (Q : B × W → Type 0) (m : Outcome (A × W)) (f : A → M W B)
    → Returns P m
    → ((a : A) (w : W) → P (a, w) → Returns Q (f a w))
    → Returns Q (then_run m f)
Returns-then_run P Q (ok (a, w)) f h k = k a w h
Returns-then_run P Q undefined f h k = tt
Returns-then_run P Q stuck f h k = tt

-- `sleep_for_interval`
unfoldable pub sleep_for_interval : {W : Type 0} → Driver W → Settings → ℕ → M W (Unit {0})
sleep_for_interval driver fc interval w =
    ok (tt, driver.sleep_for (if ltb 0 interval then interval else fc.update_interval) w)

pub Returns-after :
    {A B W : Type 0} (Q : B × W → Type 0) (m : Outcome (A × W)) (f : A → M W B)
    → ((a : A) (w : W) → Returns Q (f a w))
    → Returns Q (then_run m f)
Returns-after Q (ok (a, w)) f k = k a w
Returns-after Q undefined f k = tt
Returns-after Q stuck f k = tt

-- There is a result, and it satisfies `P`.
abbrev pub Succeeds : {A : Type 0} → (A → Type 0) → Outcome A → Type 0
Succeeds P (ok a) = P a
Succeeds P undefined = ⊥
Succeeds P stuck = ⊥

pub Succeeds-then_run :
    {A B W : Type 0} (P : A × W → Type 0) (Q : B × W → Type 0) (m : Outcome (A × W)) (f : A → M W B)
    → Succeeds P m
    → ((a : A) (w : W) → P (a, w) → Succeeds Q (f a w))
    → Succeeds Q (then_run m f)
Succeeds-then_run P Q (ok (a, w)) f h k = k a w h
Succeeds-then_run P Q undefined f h k = absurd h
Succeeds-then_run P Q stuck f h k = absurd h

pub then_run-stuck :
    {A B W : Type 0} (P : A × W → Type 0) (m : Outcome (A × W)) (f : A → M W B)
    → Succeeds P m
    → ((a : A) (w : W) → P (a, w) → f a w ≡ stuck)
    → then_run m f ≡ stuck
then_run-stuck P (ok (a, w)) f h k = k a w h
then_run-stuck P undefined f h k = absurd h
then_run-stuck P stuck f h k = absurd h
