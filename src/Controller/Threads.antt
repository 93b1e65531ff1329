-- ===== src/Controller/Threads.antt =====
-- src/Controller.cpp: a call of `disable` and the thread of the task that it ends, with the mutex of
-- the fan's task between them; src/fan/FanTask.cpp: `join`.
use fancon.Common.{if◌then◌else◌, ◌≡◌, ◌≢◌, Bool, true, false, ◌⊎◌, List, [], ◌∷◌, arith}

-- The task's thread updates the fan, and reports its status if there are observers, or it tests it.
pub data Job : Type 0 where
  updating : Bool → Job
  a_test : Job

-- The call: before the lock, with the write lock, with the lock while it joins the thread, returned.
pub data Call : Type 0 where
  calling locked joining returned : Call

-- The thread: at work, at `lock_task_read`, with the read lock, ended.
pub data Thread : Type 0 where
  working waiting reading ended : Thread

pub record Both : Type 0 where
  pub call : Call
  pub thread : Thread
  -- `run` of the task
  pub run : Bool

-- `disable` holds the write lock.
unfoldable pub holds_write : Call → Bool
holds_write calling = false
holds_write locked = true
holds_write joining = true
holds_write returned = false

-- The next step of `disable`: the lock waits while the thread reads; `tasks.erase` tells the thread
-- to stop, and waits for its end.
unfoldable pub call_step : Both → Both
call_step s = elim s.call [
  | calling ↦ elim s.thread [ reading ↦ s | _ ↦ record s { call = locked } ]
  | locked ↦ record s { call = joining; run = false }
  | joining ↦ elim s.thread [ ended ↦ record s { call = returned } | _ ↦ s ]
  | returned ↦ s
]

-- The head of the loop of an update: the status is asked for where there are observers, and a test
-- asks for the lock at its end, whatever `run` is.
unfoldable pub work : Job → Bool → Thread
work (updating observers) run = if run then (if observers then waiting else working) else ended
work a_test run = waiting

-- After the read lock an update goes on, and a test ends.
unfoldable pub after_reading : Job → Thread
after_reading (updating observers) = working
after_reading a_test = ended

-- The next step of the thread: the read lock waits while `disable` holds the mutex.
unfoldable pub thread_step : Job → Both → Both
thread_step job s = elim s.thread [
  | working ↦ record s { thread = work job s.run }
  | waiting ↦ if holds_write s.call then s else record s { thread = reading }
  | reading ↦ record s { thread = after_reading job }
  | ended ↦ s
]

pub data Mover : Type 0 where
  the_call the_thread : Mover

-- An interleaving of the two.
unfoldable pub run_all : Job → List Mover → Both → Both
run_all job [] s = s
run_all job (the_call ∷ ms) s = run_all job ms (call_step s)
run_all job (the_thread ∷ ms) s = run_all job ms (thread_step job s)

-- `disable` holds the mutex, and the thread is to lock it: a test before its end, or an update that
-- is at its report.
abbrev pub Stuck : Job → Both → Type 0
Stuck a_test s = (holds_write s.call ≡ true) × ((s.thread ≡ working) ⊎ (s.thread ≡ waiting))
Stuck (updating observers) s = (holds_write s.call ≡ true) × (s.thread ≡ waiting)

call-Stuck : (job : Job) (s : Both) → Stuck job s → Stuck job (call_step s)
unfolding call_step holds_write
call-Stuck a_test s h = ground (arith, h)
call-Stuck (updating o) s h = ground (arith, h)

thread-Stuck : (job : Job) (s : Both) → Stuck job s → Stuck job (thread_step job s)
unfolding thread_step work
thread-Stuck a_test s h = ground (arith, h)
thread-Stuck (updating o) s h = ground (arith, h)

run_all-Stuck :
    (job : Job) (ms : List Mover) (s : Both) → Stuck job s → Stuck job (run_all job ms s)
unfolding run_all
run_all-Stuck job [] s h = h
run_all-Stuck job (the_call ∷ ms) s h = run_all-Stuck job ms (call_step s) (call-Stuck job s h)
run_all-Stuck job (the_thread ∷ ms) s h =
    run_all-Stuck job ms (thread_step job s) (thread-Stuck job s h)

Stuck-call : (job : Job) (s : Both) → Stuck job s → s.call ≢ returned
unfolding holds_write
Stuck-call a_test s h = ground (arith, h)
Stuck-call (updating o) s h = ground (arith, h)

-- A call of `disable` that has the lock of a fan under test, before the test's thread has come to
-- its own lock, does not return, however the two go on; nor does one that has the lock of an enabled
-- fan whose thread is about to report the status to an observer.
pub run_all-hangs :
    (job : Job) (ms : List Mover) (s : Both) → Stuck job s → (run_all job ms s).call ≢ returned
run_all-hangs job ms s h = Stuck-call job (run_all job ms s) (run_all-Stuck job ms s h)

-- The states of an update with no observers.
abbrev Quiet : Both → Type 0
Quiet s = ((s.thread ≡ working) ⊎ (s.thread ≡ ended)) × ((s.call ≡ joining) → s.run ≡ false)

run_all-Quiet : (ms : List Mover) (s : Both) → Quiet s → Quiet (run_all (updating false) ms s)
unfolding run_all call_step thread_step work
run_all-Quiet [] s h = h
run_all-Quiet (the_call ∷ ms) s h = run_all-Quiet ms (call_step s) (ground (arith, h))
run_all-Quiet (the_thread ∷ ms) s h =
    run_all-Quiet ms (thread_step (updating false) s) (ground (arith, h))

Quiet-returns :
    (s : Both)
    → Quiet s
    → (run_all (updating false) (the_call ∷ the_call ∷ the_thread ∷ the_call ∷ []) s).call
      ≡ returned
unfolding run_all call_step thread_step work
Quiet-returns s h = ground (arith, h)

-- With no observers, `disable` of an enabled fan is never stuck: after any interleaving of the two
-- that begins at the call, four more steps suffice for it to return.
pub run_all-returns :
    (ms : List Mover)
    → (run_all (updating false) (the_call ∷ the_call ∷ the_thread ∷ the_call ∷ []) (
        run_all (updating false) ms (record { call = calling; thread = working; run = true }))).call
      ≡ returned
run_all-returns ms =
    Quiet-returns
      (run_all (updating false) ms (record { call = calling; thread = working; run = true }))
      (run_all-Quiet ms (record { call = calling; thread = working; run = true }) (ground arith))
