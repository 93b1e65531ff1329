-- ===== src/Controller/Maps.antt =====
-- The laws of the maps by name that the controller keeps.
use Prim.Native.String.{String}
use text.Mathlib.Text.{◌==◌}
use text.Mathlib.TextEquality.{eq_iff}
use fancon.Common.{
  ◌≡◌, refl, true, false, not, ◌&&◌, ◌||◌, none, some, List, [], ◌∷◌, arith, if◌then◌else◌,
}
use fancon.Controller.{find, contains, erase, emplace, put, place}

module _ {V : Type 0} where
  pub find-none : (x : String) (m : List (String × V)) → contains x m ≡ false → find x m ≡ none
  unfolding find contains
  find-none x [] h = refl
  find-none x ((j, w) ∷ m) h = ground (arith, find-none x m)

  pub contains-find :
      (x : String) (m : List (String × V))
      → contains x m ≡ elim (find x m) [ none ↦ false | some v ↦ true ]
  unfolding find contains
  contains-find x [] = refl
  contains-find x ((j, w) ∷ m) = ground (arith, contains-find x m)

  pub find-place :
      (x k : String) (v : V) (m : List (String × V))
      → contains k m ≡ false
      → find x (place k v m) ≡ (if k == x then some v else find x m)
  unfolding find contains place
  find-place x k v [] h = refl
  find-place x k v ((j, w) ∷ m) h =
      ground (arith, find-place x k v m, eq_iff k j, eq_iff j k, eq_iff k x, eq_iff j x)

  pub find-emplace :
      (x k : String) (v : V) (m : List (String × V))
      → find x (emplace k v m) ≡ (if k == x && not (contains k m) then some v else find x m)
  unfolding emplace
  find-emplace x k v m = ground (arith, find-place x k v m, eq_iff k x)

  pub find-erase :
      (x k : String) (m : List (String × V))
      → find x (erase k m) ≡ (if k == x then none else find x m)
  unfolding find erase
  find-erase x k [] = ground arith
  find-erase x k ((j, w) ∷ m) = ground (arith, find-erase x k m, eq_iff k x, eq_iff j k, eq_iff j x)

  pub find-put :
      (x k : String) (v : V) (m : List (String × V))
      → find x (put k v m) ≡ (if k == x && contains k m then some v else find x m)
  unfolding find contains put
  find-put x k v [] = ground arith
  find-put x k v ((j, w) ∷ m) = ground (arith, find-put x k v m, eq_iff k x, eq_iff j k, eq_iff j x)

  pub contains-erase :
      (x k : String) (m : List (String × V)) → contains x (erase k m) ≡ not (k == x) && contains x m
  unfolding contains erase
  contains-erase x k [] = ground arith
  contains-erase x k ((j, w) ∷ m) =
      ground (arith, contains-erase x k m, eq_iff k x, eq_iff j k, eq_iff j x)

  pub contains-put :
      (x k : String) (v : V) (m : List (String × V)) → contains x (put k v m) ≡ contains x m
  unfolding contains put
  contains-put x k v [] = refl
  contains-put x k v ((j, w) ∷ m) = ground (arith, contains-put x k v m)

  pub contains-place :
      (x k : String) (v : V) (m : List (String × V))
      → contains x (place k v m) ≡ contains x m || k == x
  unfolding contains place
  contains-place x k v [] = ground arith
  contains-place x k v ((j, w) ∷ m) = ground (arith, contains-place x k v m)

  -- No key stands twice.
  abbrev pub Distinct : List (String × V) → Type 0
  Distinct [] = Unit
  Distinct ((j, v) ∷ m) = (contains j m ≡ false) × Distinct m

  pub erase-Distinct : (k : String) (m : List (String × V)) → Distinct m → Distinct (erase k m)
  unfolding erase
  erase-Distinct k [] h = h
  erase-Distinct k ((j, w) ∷ m) h = ground (arith, erase-Distinct k m (h.1), contains-erase j k m)

  pub put-Distinct :
      (k : String) (v : V) (m : List (String × V)) → Distinct m → Distinct (put k v m)
  unfolding put
  put-Distinct k v [] h = h
  put-Distinct k v ((j, w) ∷ m) h = ground (arith, put-Distinct k v m (h.1), contains-put j k v m)

  pub place-Distinct :
      (k : String) (v : V) (m : List (String × V))
      → contains k m ≡ false
      → Distinct m
      → Distinct (place k v m)
  unfolding contains place
  place-Distinct k v [] e h = (refl, tt)
  place-Distinct k v ((j, w) ∷ m) e h =
      ground (arith, place-Distinct k v m, contains-place j k v m, eq_iff j k, eq_iff k j)

  pub emplace-Distinct :
      (k : String) (v : V) (m : List (String × V)) → Distinct m → Distinct (emplace k v m)
  unfolding emplace
  emplace-Distinct k v m h = ground (arith, place-Distinct k v m)
