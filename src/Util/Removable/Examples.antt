-- ===== src/Util/Removable/Examples.antt =====
-- A subscription that ends while a thread calls the observers.
use fancon.Common.{◌<◌, ◌≡◌, suc, refl, true, arith}
use fancon.Util.Removable.{
  Removable, start, made, Step, pass, lock, Reach, here, later, Counted, Reach-Counted,
  erases-calling,
}

one_call : Reach start (record start { calling = 1; counter = made true start.counter })
one_call = later (later here (pass (omega arith))) (lock refl)

Reach-Counted_example : Counted (record start { calling = 1; counter = made true start.counter })
Reach-Counted_example = Reach-Counted one_call

erases-calling_example :
    (t u : Removable) × Reach start t
    × Step t u
    × (0 < t.calling)
    × (0 < u.calling)
    × (u.erased ≡ suc t.erased)
erases-calling_example = erases-calling start refl
