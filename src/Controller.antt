-- ===== src/Controller.antt =====
-- src/Controller.hpp and src/Controller.cpp: the devices, the tasks that run for them, and the
-- operations on both. The children hold the reload of a configuration, the locking of the threads,
-- and the proofs.
pub mod Maps
pub mod Tasks
pub mod Blocked
pub mod Enable
pub mod Test
pub mod Merge
pub mod Threads
pub mod Watcher
pub mod Config
pub mod Abstract
pub mod Sensors
pub mod Observers
pub mod File
mod Examples
mod RunExamples
use text.Mathlib.Text.{◌==◌}
use fancon.Common.{
  ℕ, Bool, true, false, not, ◌&&◌, ◌||◌, Option, none, some, List, [], ◌∷◌, if◌then◌else◌,
}
use Prim.Native.String.{String, compare}
use Prim.Native.Nat.{Ordering}

pub data DevType : Type 0 where
  sys dell nvidia : DevType

pub data FanStatus : Type 0 where
  enabled disabled testing : FanStatus

module _ {V : Type 0} where
  unfoldable pub find : String → List (String × V) → Option V
  find k [] = none
  find k ((j, v) ∷ m) = if j == k then some v else find k m

  unfoldable pub contains : String → List (String × V) → Bool
  contains k [] = false
  contains k ((j, v) ∷ m) = j == k || contains k m

  unfoldable pub erase : String → List (String × V) → List (String × V)
  erase k [] = []
  erase k ((j, v) ∷ m) = if j == k then erase k m else (j, v) ∷ erase k m

  -- A new value for an existing key.
  unfoldable pub put : String → V → List (String × V) → List (String × V)
  put k v [] = []
  put k v ((j, w) ∷ m) = if j == k then (j, v) ∷ put k v m else (j, w) ∷ put k v m

  -- The place of a new key among those in order.
  unfoldable pub place : String → V → List (String × V) → List (String × V)
  place k v [] = (k, v) ∷ []
  place k v ((j, w) ∷ m) = elim (compare k j) [
    | Ordering.lt ↦ (k, v) ∷ (j, w) ∷ m
    | _ ↦ (j, w) ∷ place k v m
  ]

  -- An existing key keeps its value.
  unfoldable pub emplace : String → V → List (String × V) → List (String × V)
  emplace k v m = if contains k m then m else place k v m

-- What the controller asks of a fan, over the world `W` of the hardware.
pub record FanOps (F W : Type 0) : Type 0 where
  pub label : F → String
  pub hw_id : F → String
  pub dev_type : F → DevType
  pub ignore : F → Bool
  pub tested : F → Bool
  pub is_configured : F → Bool
  pub deep_equal : F → F → Bool
  pub enable_control : F → W → Bool × W
  pub disable_control : F → W → W
  -- `to_file(false)`
  pub to_file : List (String × F) → W → W

-- A task: the thread that updates an enabled fan, or one that tests it, with its `test_status`: the
-- number of the observers, or none once the test has completed.
pub data FanTask (F : Type 0) : Type 0 where
  updates : F → FanTask F
  tests : F → Option ℕ → FanTask F

pub record Controller (F W : Type 0) : Type 0 where
  pub fans : List (String × F)
  pub tasks : List (String × FanTask F)
  pub world : W

module _ {F W : Type 0} (ops : FanOps F W) where
  unfoldable pub is_dell : F → Bool
  is_dell f = elim (ops.dev_type f) [ DevType.dell ↦ true | _ ↦ false ]

  unfoldable pub is_testing : FanTask F → Bool
  is_testing (updates f) = false
  is_testing (tests f (some n)) = true
  is_testing (tests f none) = false

  unfoldable pub task_status : Option (FanTask F) → FanStatus
  task_status none = disabled
  task_status (some t) = if is_testing t then testing else enabled

  unfoldable pub status : String → Controller F W → FanStatus
  status flabel c = task_status (find flabel c.tasks)

  -- `Fan::try_enable`
  unfoldable pub try_enable : F → W → Bool × W
  try_enable f w =
      if ops.ignore f
      then (false, w)
      else let (success, w') = ops.enable_control f w in
        if success then (true, w') else (false, ops.disable_control f w')

  -- `enable` of one fan, with what it does for the other Dell fans before the task is added.
  unfoldable pub enable_with :
      (Controller F W → Controller F W) → F → Controller F W → Controller F W
  enable_with others f c =
      if contains (ops.label f) c.tasks
      then c
      else let (success, w) = try_enable f c.world in
        let tried = record c { world = w } in
        if not success || not (ops.is_configured f)
        then tried
        else let all = others tried in
          record all { tasks = emplace (ops.label f) (updates f) all.tasks }

  -- `enable(f, false)`
  unfoldable pub enable_one : F → Controller F W → Controller F W
  enable_one = enable_with (λ c. c)

  -- The loop of `enable_dell_fans`.
  unfoldable pub enable_each_dell : String → List (String × F) → Controller F W → Controller F W
  enable_each_dell except [] c = c
  enable_each_dell except ((fl, f) ∷ fans) c =
      enable_each_dell except fans (if is_dell f && not (fl == except) then enable_one f c else c)

  -- `enable(f, true)`
  unfoldable pub enable : F → Controller F W → Controller F W
  enable f = enable_with (λ c. if is_dell f then enable_each_dell (ops.label f) c.fans c else c) f

  unfoldable pub enable_each : List (String × F) → Controller F W → Controller F W
  enable_each [] c = c
  enable_each ((fl, f) ∷ fans) c = enable_each fans (enable_one f c)

  unfoldable pub enable_all : Controller F W → Controller F W
  enable_all c = enable_each c.fans c

  -- The end of a task that is erased: the thread that updates a fan gives its control back.
  unfoldable pub end_task : Option (FanTask F) → W → W
  end_task (some (updates f)) w = ops.disable_control f w
  end_task (some (tests f s)) w = w
  end_task none w = w

  -- What the erasure of a task leaves, where it returns: of a test under way it does not, since it joins
  -- a thread that waits for the lock its caller holds. The calls with that outcome are in
  -- Controller/Blocked.antt.
  unfoldable pub erase_task : String → Controller F W → Controller F W
  erase_task flabel c = record c {
    tasks = erase flabel c.tasks;
    world = end_task (find flabel c.tasks) c.world;
  }

  -- `disable(flabel, false)`, with what it does for the other Dell fans.
  unfoldable pub disable_with :
      (F → Controller F W → Controller F W) → String → Controller F W → Controller F W
  disable_with others flabel c =
      if not (contains flabel c.tasks)
      then c
      else let ended = erase_task flabel c in
        elim (find flabel c.fans) [
          | none ↦ ended
          | some f ↦ others f (record ended { world = ops.disable_control f ended.world })
        ]

  unfoldable pub disable_one : String → Controller F W → Controller F W
  disable_one = disable_with (λ f c. c)

  -- The loop of `disable_dell_fans`.
  unfoldable pub disable_each_dell : String → List (String × F) → Controller F W → Controller F W
  disable_each_dell except [] c = c
  disable_each_dell except ((fl, f) ∷ fans) c =
      disable_each_dell except fans
        (if is_dell f && not (fl == except) then disable_one fl c else c)

  unfoldable pub disable : String → Controller F W → Controller F W
  disable flabel =
      disable_with (λ f c. if is_dell f then disable_each_dell flabel c.fans c else c) flabel

  unfoldable pub disable_each : List (String × FanTask F) → Controller F W → Controller F W
  disable_each [] c = c
  disable_each ((flabel, t) ∷ tasks) c = disable_each tasks (disable_one flabel c)

  unfoldable pub disable_all : Controller F W → Controller F W
  disable_all c = disable_each c.tasks c

  -- `recover`: control is enabled again for each task's fan.
  unfoldable pub recover_each : List (String × F) → List (String × FanTask F) → W → W
  recover_each fans [] w = w
  recover_each fans ((flabel, t) ∷ tasks) w =
      recover_each fans tasks
        (elim (find flabel fans) [ none ↦ w | some f ↦ (ops.enable_control f w).1 ])

  unfoldable pub recover : Controller F W → Controller F W
  recover c = record c { world = recover_each c.fans c.tasks c.world }
