-- ===== src/Devices/Complete.antt =====
-- A configuration is loaded completely: what its devices write is read back device for device.
use Prim.Native.String.{String}
use text.Mathlib.TextEquality.{eq_iff}
use fancon.Common.{
  ◌≡◌, ◌∙◌, ap, refl, Bool, true, false, Option, List, [], ◌∷◌, arith, if◌then◌else◌, All,
}
use fancon.Controller.{DevType, find, contains, place, emplace}
use fancon.Controller.Maps.{Distinct, find-place, contains-place, contains-find}
use fancon.Devices.{
  Loader, Entry, count, skipped, assign, accepted, load_each, load_sensors, load_fans,
}
use fancon.Devices.Unique.{has_hw, Unique}

module _ {D : Type 0} (load : Loader D) (nv_supported : Bool) (kind : D → Option DevType) where
  -- The entries of a map's devices.
  abbrev pub entries : List (String × D) → List (Entry D)
  entries [] = []
  entries ((k, d) ∷ m) = record { dev_type = kind d; device = d } ∷ entries m

  -- A device of a supported type that is valid and stands under its label.
  abbrev pub Good : String × D → Type 0
  Good (k, d) = (load.label d ≡ k) × (load.valid d ≡ true) × (skipped nv_supported (kind d) ≡ false)

  -- Neither the id nor the label was seen.
  abbrev pub Fresh : List String → List (String × D) → String × D → Type 0
  Fresh uids acc (k, d) = (count (load.hw_id d) uids ≡ false) × (contains k acc ≡ false)

  All-Fresh :
      (uids : List String) (acc : List (String × D)) (k : String) (d : D) (m : List (String × D))
      → contains k m ≡ false
      → has_hw load (load.hw_id d) m ≡ false
      → All (Fresh uids acc) m
      → All (Fresh (load.hw_id d ∷ uids) (place k d acc)) m
  unfolding contains count
  All-Fresh uids acc k d [] c h f = tt
  All-Fresh uids acc k d ((j, e) ∷ m) c h f = ground (
    arith,
    All-Fresh uids acc k d m,
    contains-place j k d acc,
    eq_iff j k,
    eq_iff k j,
    eq_iff (load.hw_id d) (load.hw_id e),
    eq_iff (load.hw_id e) (load.hw_id d),
  )

  accepted-true :
      (uids : List String) (acc : List (String × D)) (k : String) (d : D)
      → Good (k, d)
      → Fresh uids acc (k, d)
      → accepted load nv_supported (record { dev_type = kind d; device = d }) uids ≡ true
  unfolding accepted
  accepted-true uids acc k d g f = ground arith

  -- What adds a device with a new label places it.
  abbrev pub Places : (String → D → List (String × D) → List (String × D)) → Type 0
  Places add =
      (k : String) (d : D) (m : List (String × D)) → contains k m ≡ false → add k d m ≡ place k d m

  load_each-accepted :
      (add : String → D → List (String × D) → List (String × D)) (k : String) (d : D)
      (es : List (Entry D)) (uids : List String) (acc : List (String × D))
      → Places add
      → Good (k, d)
      → Fresh uids acc (k, d)
      → load_each load nv_supported add (record { dev_type = kind d; device = d } ∷ es) (uids, acc)
        ≡ load_each load nv_supported add es (load.hw_id d ∷ uids, place k d acc)
  unfolding load_each
  load_each-accepted add k d es uids acc p g f =
      let added : List String × List (String × D) =
        (load.hw_id d ∷ uids, add (load.label d) d acc) in
      ap (λ (b : Bool). load_each load nv_supported add es (if b then added else (uids, acc)))
        (accepted-true uids acc k d g f)
      ∙ ap (λ (m : List (String × D)). load_each load nv_supported add es (load.hw_id d ∷ uids, m))
          (ap (λ (l : String). add l d acc) (g.0) ∙ p k d acc (f.1))

  find-load_each :
      (add : String → D → List (String × D) → List (String × D))
      → Places add
      → (x : String) (m : List (String × D)) (uids : List String) (acc : List (String × D))
      → All Good m
      → Distinct m
      → Unique load m
      → All (Fresh uids acc) m
      → find x (load_each load nv_supported add (entries m) (uids, acc)).1
        ≡ (if contains x m then find x m else find x acc)
  unfolding load_each contains find
  find-load_each add p x [] uids acc g n u f = refl
  find-load_each add p x ((k, d) ∷ m) uids acc (g, gs) (n, ns) (u, us) (f, fs) =
      ap (λ s. find x (s.1)) (load_each-accepted add k d (entries m) uids acc p g f)
      ∙ find-load_each add p x m (load.hw_id d ∷ uids) (place k d acc) gs ns us
          (All-Fresh uids acc k d m n u fs)
      ∙ ground (arith, find-place x k d acc, eq_iff k x, contains-find x m)

  All-none : (m : List (String × D)) → All (Fresh [] []) m
  unfolding count contains
  All-none [] = tt
  All-none (e ∷ m) = ((refl, refl), All-none m)

  -- Valid sensors of a supported type, under their labels and with no id twice, are all there when a
  -- configuration that lists them is loaded, each under its label, and nothing else is.
  pub find-load_sensors :
      (x : String) (m : List (String × D))
      → All Good m
      → Distinct m
      → Unique load m
      → find x (load_sensors load nv_supported (entries m)).1 ≡ find x m
  unfolding load_sensors emplace find
  find-load_sensors x m g n u =
      find-load_each emplace (λ k d acc c. ground arith) x m [] [] g n u (All-none m)
      ∙ ground (arith, contains-find x m)

  -- So are the fans, where no sensor has an id of theirs.
  pub find-load_fans :
      (x : String) (m : List (String × D)) (uids : List String)
      → All Good m
      → Distinct m
      → Unique load m
      → All (Fresh uids []) m
      → find x (load_fans load nv_supported (entries m) uids).1 ≡ find x m
  unfolding load_fans assign find
  find-load_fans x m uids g n u f =
      find-load_each assign (λ k d acc c. ground arith) x m uids [] g n u f
      ∙ ground (arith, contains-find x m)
