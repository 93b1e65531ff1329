-- ===== src/Devices/Enumerate/Valid.antt =====
-- What the enumeration of the chips leaves in the maps.
use Prim.Native.String.{String}
use fancon.Common.{◌≡◌, Bool, true, not, List, [], ◌∷◌, arith, if◌then◌else◌, if-cases, All}
use fancon.Controller.{contains, put, place}
use fancon.Controller.Maps.{Distinct, put-Distinct, place-Distinct}
use fancon.Util.Text.{codes}
use fancon.Dell.Smm.{is_smm_dell}
use fancon.Devices.{assign}
use fancon.Devices.Enumerate.{
  FeatureType, feature_fan, feature_temp, feature_other, Feature, Chip, Makers, usable, add_fan,
  add_sensor, add_feature, add_features, enumerate, Valid,
}

module _ {V : Type 0} (valid : V → Bool) where
  abbrev pub Good : List (String × V) → Type 0
  Good m = All (λ e. valid e.1 ≡ true) m × Distinct m

  put-valid :
      (k : String) (v : V) (m : List (String × V))
      → valid v ≡ true
      → All (λ e. valid e.1 ≡ true) m
      → All (λ e. valid e.1 ≡ true) (put k v m)
  unfolding put
  put-valid k v [] h a = tt
  put-valid k v ((j, w) ∷ m) h a = ground (arith, h, a, put-valid k v m h a.1)

  place-valid :
      (k : String) (v : V) (m : List (String × V))
      → valid v ≡ true
      → All (λ e. valid e.1 ≡ true) m
      → All (λ e. valid e.1 ≡ true) (place k v m)
  unfolding place
  place-valid k v [] h a = (h, tt)
  place-valid k v ((j, w) ∷ m) h a = ground (arith, h, a, place-valid k v m h a.1)

  pub assign-Good :
      (k : String) (v : V) (m : List (String × V))
      → Good m
      → Good (if valid v then assign k v m else m)
  unfolding assign
  assign-Good k v m (a, d) =
      if-cases Good (valid v)
        (λ h.
          if-cases Good (contains k m) (λ e. (put-valid k v m h a, put-Distinct k v m d))
            (λ e. (place-valid k v m h a, place-Distinct k v m e d)))
        (λ h. (a, d))

module _ {F S : Type 0} (make : Makers F S) where
  add_fan-Good :
      (is_dell : Bool) (sc : Chip) (sf : Feature) (fans : List (String × F))
      → Good make.valid_fan fans
      → Good make.valid_fan (add_fan make is_dell sc sf fans)
  unfolding add_fan
  add_fan-Good is_dell sc sf fans h = assign-Good make.valid_fan _ _ fans h

  add_sensor-Good :
      (sc : Chip) (sf : Feature) (sensors : List (String × S))
      → Good make.valid_sensor sensors
      → Good make.valid_sensor (add_sensor make sc sf sensors)
  unfolding add_sensor
  add_sensor-Good sc sf sensors h = assign-Good make.valid_sensor _ _ sensors h

  add_feature-Valid :
      (is_dell : Bool) (sc : Chip) (sf : Feature) (s : List (String × F) × List (String × S))
      → Valid make s
      → Valid make (add_feature make is_dell sc sf s)
  unfolding add_feature
  add_feature-Valid is_dell sc sf (fans, sensors) (f, g) =
      if-cases (Valid make) (not (usable sf.input)) (λ e. (f, g)) (λ e. by_type sf.feature_type)
    where
      by_type :
          (t : FeatureType)
          → Valid make (elim t [
            | feature_fan ↦ (add_fan make is_dell sc sf fans, sensors)
            | feature_temp ↦ (fans, add_sensor make sc sf sensors)
            | feature_other ↦ (fans, sensors)
          ])
      by_type feature_fan = (add_fan-Good is_dell sc sf fans f, g)
      by_type feature_temp = (f, add_sensor-Good sc sf sensors g)
      by_type feature_other = (f, g)

  add_features-Valid :
      (is_dell : Bool) (sc : Chip) (features : List Feature)
      (s : List (String × F) × List (String × S))
      → Valid make s
      → Valid make (add_features make is_dell sc features s)
  unfolding add_features
  add_features-Valid is_dell sc [] s h = h
  add_features-Valid is_dell sc (sf ∷ features) s h =
      add_features-Valid is_dell sc features (add_feature make is_dell sc sf s)
        (add_feature-Valid is_dell sc sf s h)

  -- Enumerating chips adds only valid fans and sensors, and leaves no label of a fan or of a sensor
  -- twice: where the devices before were valid under distinct labels, those after it are.
  pub enumerate-Valid :
      (found : Bool) (chips : List Chip) (s : List (String × F) × List (String × S))
      → Valid make s
      → Valid make (enumerate make found chips s)
  unfolding enumerate
  enumerate-Valid found [] s h = h
  enumerate-Valid found (sc ∷ chips) s h =
      let is_dell : Bool = is_smm_dell (codes "dell_smm") (codes sc.chip_name) found in
      enumerate-Valid found chips (add_features make is_dell sc sc.features s)
        (add_features-Valid is_dell sc sc.features s h)
