-- ===== src/Devices/Unique.antt =====
-- No hardware is loaded twice.
use Prim.Native.String.{String}
use text.Mathlib.Text.{◌==◌}
use text.Mathlib.TextEquality.{eq_iff}
use mathlib.Core.Bool.{false≢true}
use fancon.Common.{
  ◌≡◌, refl, Bool, true, false, ◌||◌, List, [], ◌∷◌, arith, if◌then◌else◌, if-cases,
}
use fancon.Controller.{contains, put, place, emplace}
use fancon.Controller.Maps.{Distinct, place-Distinct, put-Distinct}
use fancon.Devices.{Loader, Entry, count, assign, accepted, load_each, load_sensors, load_fans}

module _ {D : Type 0} (load : Loader D) where
  -- A device of the map has the id.
  abbrev pub has_hw : String → List (String × D) → Bool
  has_hw id [] = false
  has_hw id ((l, d) ∷ m) = load.hw_id d == id || has_hw id m

  -- No two devices of the map have the same id.
  abbrev pub Unique : List (String × D) → Type 0
  Unique [] = Unit
  Unique ((l, d) ∷ m) = (has_hw (load.hw_id d) m ≡ false) × Unique m

  has_hw-place :
      (id k : String) (d : D) (m : List (String × D))
      → has_hw id (place k d m) ≡ has_hw id m || load.hw_id d == id
  unfolding place
  has_hw-place id k d [] = ground arith
  has_hw-place id k d ((l, e) ∷ m) = ground (arith, has_hw-place id k d m)

  -- A put device may stand for one whose id is then gone.
  has_hw-put :
      (id k : String) (d : D) (m : List (String × D))
      → has_hw id m ≡ false
      → (load.hw_id d == id) ≡ false
      → has_hw id (put k d m) ≡ false
  unfolding put
  has_hw-put id k d [] h e = refl
  has_hw-put id k d ((l, f) ∷ m) h e = ground (arith, has_hw-put id k d m)

  place-Unique :
      (k : String) (d : D) (m : List (String × D))
      → has_hw (load.hw_id d) m ≡ false
      → Unique m
      → Unique (place k d m)
  unfolding place
  place-Unique k d [] h u = (refl, tt)
  place-Unique k d ((l, e) ∷ m) h u = ground (
    arith,
    place-Unique k d m,
    has_hw-place (load.hw_id e) k d m,
    eq_iff (load.hw_id e) (load.hw_id d),
    eq_iff (load.hw_id d) (load.hw_id e),
  )

  put-absent : (k : String) (d : D) (m : List (String × D)) → contains k m ≡ false → put k d m ≡ m
  unfolding put contains
  put-absent k d [] h = refl
  put-absent k d ((l, e) ∷ m) h = ground (arith, put-absent k d m)

  put-Unique :
      (k : String) (d : D) (m : List (String × D))
      → Distinct m
      → has_hw (load.hw_id d) m ≡ false
      → Unique m
      → Unique (put k d m)
  unfolding put
  put-Unique k d [] n h u = tt
  put-Unique k d ((l, e) ∷ m) n h u = ground (
    arith,
    put-Unique k d m,
    put-absent k d m,
    has_hw-put (load.hw_id e) k d m,
    eq_iff l k,
    eq_iff (load.hw_id e) (load.hw_id d),
    eq_iff (load.hw_id d) (load.hw_id e),
  )

  -- Labels and ids are distinct, and each id was counted.
  abbrev pub Loaded : List String → List (String × D) → Type 0
  Loaded uids m =
      Distinct m × Unique m × ((id : String) → has_hw id m ≡ true → count id uids ≡ true)

  -- Adding a device whose id was not counted keeps it so.
  Adds : (String → D → List (String × D) → List (String × D)) → Type 0
  Adds add =
      (uids : List String) (d : D) (m : List (String × D))
      → count (load.hw_id d) uids ≡ false
      → Loaded uids m
      → Loaded (load.hw_id d ∷ uids) (add (load.label d) d m)

  fresh :
      (uids : List String) (d : D) (m : List (String × D))
      → count (load.hw_id d) uids ≡ false
      → Loaded uids m
      → has_hw (load.hw_id d) m ≡ false
  fresh uids d m h (a, b, c) = ground (arith, c (load.hw_id d), h)

  place-Loaded :
      (uids : List String) (d : D) (m : List (String × D))
      → contains (load.label d) m ≡ false
      → count (load.hw_id d) uids ≡ false
      → Loaded uids m
      → Loaded (load.hw_id d ∷ uids) (place (load.label d) d m)
  unfolding count
  place-Loaded uids d m n h (a, b, c) = (
    place-Distinct (load.label d) d m n a,
    place-Unique (load.label d) d m (fresh uids d m h (a, b, c)) b,
    λ id k. ground (arith, has_hw-place id (load.label d) d m, c id, k),
  )

  put-Loaded :
      (uids : List String) (d : D) (m : List (String × D))
      → count (load.hw_id d) uids ≡ false
      → Loaded uids m
      → Loaded (load.hw_id d ∷ uids) (put (load.label d) d m)
  unfolding count
  put-Loaded uids d m h (a, b, c) = (
    put-Distinct (load.label d) d m a,
    put-Unique (load.label d) d m a (fresh uids d m h (a, b, c)) b,
    λ id k. ground (arith, has_hw-put id (load.label d) d m, c id, k),
  )

  kept :
      (uids : List String) (d : D) (m : List (String × D))
      → Loaded uids m
      → Loaded (load.hw_id d ∷ uids) m
  unfolding count
  kept uids d m (a, b, c) = (a, b, λ id k. ground (arith, c id k))

  emplace-Adds : Adds emplace
  unfolding Adds emplace
  emplace-Adds uids d m h l =
      if-cases (Loaded (load.hw_id d ∷ uids)) (contains (load.label d) m) (λ n. kept uids d m l)
        (λ n. place-Loaded uids d m n h l)

  assign-Adds : Adds assign
  unfolding Adds assign
  assign-Adds uids d m h l =
      if-cases (Loaded (load.hw_id d ∷ uids)) (contains (load.label d) m)
        (λ n. put-Loaded uids d m h l) (λ n. place-Loaded uids d m n h l)

  load_each-Loaded :
      (nv : Bool) (add : String → D → List (String × D) → List (String × D))
      → Adds add
      → (es : List (Entry D)) (uids : List String) (m : List (String × D)) → Loaded uids m
      → let (uids', m') = load_each load nv add es (uids, m) in Loaded uids' m'
  unfolding Adds load_each accepted
  load_each-Loaded nv add k [] uids m h = h
  load_each-Loaded nv add k (e ∷ es) uids m h =
      let d : D = e.device in
      let next : List String × List (String × D) =
        if accepted load nv e uids
        then (load.hw_id d ∷ uids, add (load.label d) d m)
        else (uids, m) in
      load_each-Loaded nv add k es next.0 next.1 (
        if-cases (λ (s : List String × List (String × D)). Loaded s.0 s.1) (accepted load nv e uids)
          {x = (load.hw_id d ∷ uids, add (load.label d) d m)} {y = (uids, m)}
          (λ a. k uids d m (ground (arith, a)) h) (λ a. h))

  -- Of the entries of a configuration, in whichever order, the sensors that are loaded have distinct
  -- labels and distinct hardware ids, and so have the fans, whatever ids were counted before them.
  pub load-Loaded :
      (nv : Bool) (sensors fans : List (Entry D)) (uids : List String)
      → (Distinct (load_sensors load nv sensors).1)
        × (Unique (load_sensors load nv sensors).1)
        × (Distinct (load_fans load nv fans uids).1)
        × (Unique (load_fans load nv fans uids).1)
  unfolding load_sensors load_fans
  load-Loaded nv sensors fans uids =
      let none_yet : (u : List String) → Loaded u [] =
        λ u. (tt, tt, λ id h. absurd (false≢true h)) in
      let (a, b, c) = load_each-Loaded nv emplace emplace-Adds sensors [] [] (none_yet []) in
      let (d, e, f) = load_each-Loaded nv assign assign-Adds fans uids [] (none_yet uids) in
      (a, b, d, e)
