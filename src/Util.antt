-- ===== src/Util.antt =====
-- src/util/Util.hpp and src/util/Util.cpp: the repeated tries of `read` and `write`, `join` and the
-- number with observers. The children hold the text of numbers and maps.
pub mod Text
pub mod Removable
pub mod Files
use Prim.Native.String.{String}
use Prim.Native.String
use fancon.Common.{Bool, true, false, Option, none, some, List, [], ◌∷◌, ◌++◌, if◌then◌else◌}
use fancon.Common.Int.{ℤ, ◌+ℤ◌}

-- What one try comes to: the file was not opened, the value was not written, or it was.
pub data WriteResult : Type 0 where
  not_opened not_written written : WriteResult

unfoldable pub is_written : WriteResult → Bool
is_written not_opened = false
is_written not_written = false
is_written written = true

module _ {W : Type 0} where
  -- One try opens the file, reads and closes it; `exists` is asked before the second.
  unfoldable pub read : {A : Type 0} → (W → Option A × W) → (W → Bool) → W → Option A × W
  read attempt exists w =
      let (first, w') = attempt w in
      elim first [ some a ↦ (some a, w') | none ↦ if exists w' then attempt w' else (none, w') ]

  -- A value that was not written to an open file is tried once more.
  unfoldable pub write : (W → WriteResult × W) → W → Bool × W
  write attempt w =
      let (first, w') = attempt w in
      let (second, w'') = attempt w' in
      elim first [
        | not_opened ↦ (false, w')
        | not_written ↦ (is_written second, w'')
        | written ↦ (true, w')
      ]

-- The texts whose condition holds, in order.
unfoldable pub to_join : List (Bool × String) → List String
to_join [] = []
to_join ((condition, text) ∷ args) = if condition then text ∷ to_join args else to_join args

unfoldable pub join_all : String → List String → String
join_all join_with [] = ""
join_all join_with (text ∷ []) = text
join_all join_with (text ∷ next ∷ texts) =
    String.◌++◌ text (String.◌++◌ join_with (join_all join_with (next ∷ texts)))

unfoldable pub join : List (Bool × String) → String → String
join args join_with = join_all join_with (to_join args)

-- `ObservableNumber`: the value, and each observer as what it does to a world.
pub record ObservableNumber (W : Type 0) : Type 0 where
  pub value : ℤ
  pub observers : List (ℤ → W → W)

module _ {W : Type 0} where
  unfoldable pub notify_each : List (ℤ → W → W) → ℤ → W → W
  notify_each [] value w = w
  notify_each (f ∷ fs) value w = notify_each fs value (f value w)

  unfoldable pub notify_observers : ObservableNumber W → W → W
  notify_observers n w = notify_each n.observers n.value w

  unfoldable pub register_observer :
      (ℤ → W → W) → Bool → ObservableNumber W → W → ObservableNumber W × W
  register_observer callback call_on_register n w = (
    record n { observers = n.observers ++ callback ∷ [] },
    if call_on_register then callback n.value w else w,
  )

  unfoldable pub assign : ℤ → ObservableNumber W → W → ObservableNumber W × W
  assign other n w =
      let changed = record n { value = other } in (changed, notify_observers changed w)

  unfoldable pub add : ℤ → ObservableNumber W → W → ObservableNumber W × W
  add other n w = assign (n.value +ℤ other) n w
