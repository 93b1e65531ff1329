-- ===== src/Util/Removable.antt =====
-- src/util/Util.cpp: `RemovableMutex`, with the `ScopedCounter`s that it gives out; its two users are
-- `notify_devices_observers` and `notify_status_observers` of src/Controller.cpp and the ends of the
-- subscriptions of src/Service.cpp. Each step is one access to the counter, or an erasure.
mod Examples
use fancon.Common.{ℕ, suc, ◌+◌, ◌<◌, ◌≡◌, refl, Bool, true, false, arith, ap, if◌then◌else◌}
use fancon.Common.Int.{ℤ, pos, negsuc, pos_part, neg_part, ◌+ℤ◌, +ℤ_parts, ◌≤ℤ◌}

-- The counter, and how many threads stand at each place.
pub record Removable : Type 0 where
  pub counter : ℤ
  -- past the loop of `acquire_lock`, before the counter is increased
  pub passed : ℕ
  -- with the lock, calling the observers
  pub calling : ℕ
  -- past the loop of `acquire_removal_lock`, before the counter is decreased
  pub ending : ℕ
  -- with the removal lock, whose value is discarded at once
  pub locked : ℕ
  -- the lock given back, the observer not yet erased
  pub erasing : ℕ
  pub erased : ℕ

abbrev pub start : Removable
start = record {
  counter = pos 0;
  passed = 0;
  calling = 0;
  ending = 0;
  locked = 0;
  erasing = 0;
  erased = 0;
}

-- A `ScopedCounter`, made and destroyed.
unfoldable pub made : Bool → ℤ → ℤ
made increment counter = if increment then counter +ℤ pos 1 else counter +ℤ negsuc 0

unfoldable pub destroyed : Bool → ℤ → ℤ
destroyed increment counter = if increment then counter +ℤ negsuc 0 else counter +ℤ pos 1

-- A loop that waits reads the counter again and changes nothing, so only its last round is a step.
pub data Step (s : Removable) : Removable → Type 0 where
  pass : pos 0 ≤ℤ s.counter → Step s (record s { passed = suc s.passed })
  lock :
      {n : ℕ}
      → s.passed ≡ suc n
      → Step s (record s { passed = n; calling = suc s.calling; counter = made true s.counter })
  unlock :
      {n : ℕ}
      → s.calling ≡ suc n
      → Step s (record s { calling = n; counter = destroyed true s.counter })
  pass_removal : s.counter ≤ℤ pos 0 → Step s (record s { ending = suc s.ending })
  lock_removal :
      {n : ℕ}
      → s.ending ≡ suc n
      → Step s (record s { ending = n; locked = suc s.locked; counter = made false s.counter })
  unlock_removal :
      {n : ℕ}
      → s.locked ≡ suc n
      → Step s
          (record s { locked = n; erasing = suc s.erasing; counter = destroyed false s.counter })
  erase : {n : ℕ} → s.erasing ≡ suc n → Step s (record s { erasing = n; erased = suc s.erased })

pub data Reach (s : Removable) : Removable → Type 0 where
  here : Reach s s
  later : {t u : Removable} → Reach s t → Step t u → Reach s u

-- The counter is the number of threads that call observers, less that of the removal locks.
abbrev pub Counted : Removable → Type 0
Counted s = pos_part s.counter + s.locked ≡ neg_part s.counter + s.calling

Step-Counted : {s t : Removable} → Step s t → Counted s → Counted t
unfolding made destroyed
Step-Counted {s} (pass p) h = h
Step-Counted {s} (lock p) h = omega (arith, +ℤ_parts s.counter (pos 1))
Step-Counted {s} (unlock p) h = omega (arith, +ℤ_parts s.counter (negsuc 0))
Step-Counted {s} (pass_removal p) h = h
Step-Counted {s} (lock_removal p) h = omega (arith, +ℤ_parts s.counter (negsuc 0))
Step-Counted {s} (unlock_removal p) h = omega (arith, +ℤ_parts s.counter (pos 1))
Step-Counted {s} (erase p) h = h

-- In every state that is reached from the start, the counter is the number of the threads that hold
-- the lock and call observers, less the number of those that hold the removal lock.
pub Reach-Counted : {s : Removable} → Reach start s → Counted s
Reach-Counted here = refl
Reach-Counted (later r st) = Step-Counted st (Reach-Counted r)

abbrev both_passed : Removable → Removable
both_passed s = record s { passed = suc s.passed; ending = suc s.ending }

-- One thread goes on to its calls, the other through its removal lock.
abbrev clashed : Removable → Removable
clashed s = record s {
  calling = suc s.calling;
  erasing = suc s.erasing;
  counter = destroyed false (made false (made true s.counter));
}

run_to_clash : (s : Removable) → s.counter ≡ pos 0 → Reach s (clashed s)
run_to_clash s h =
    let passes : Reach s (record s { passed = suc s.passed }) =
      later here (pass (omega (arith, ap pos_part h, ap neg_part h))) in
    let both : Reach s (both_passed s) =
      later passes (pass_removal (omega (arith, ap pos_part h, ap neg_part h))) in
    later (later (later both (lock refl)) (lock_removal refl)) (unlock_removal refl)

-- The removal lock does not keep an observer from being erased while the observers are called: from
-- every state in which the counter is 0 there is a run to one in which a thread calls the observers
-- and the next step is an erasure.
pub erases-calling :
    (s : Removable)
    → s.counter ≡ pos 0
    → (t u : Removable) × Reach s t
      × Step t u
      × (0 < t.calling)
      × (0 < u.calling)
      × (u.erased ≡ suc t.erased)
erases-calling s h = (
  clashed s,
  record (clashed s) { erasing = s.erasing; erased = suc s.erased },
  run_to_clash s h,
  erase refl,
  omega arith,
  omega arith,
  refl,
)
