-- ===== src/Nvidia/Names.antt =====
-- src/nvidia/NvidiaUtil.cpp: `get_gpu_product_name`; src/nvidia/NvidiaDevices.cpp: the enumeration of
-- the fans and the sensors, with their labels. `none` stands for undefined behaviour.
pub mod Titles
use fancon.Common.{
  ℕ, Bool, true, false, ◌&&◌, Option, none, some, List, [], ◌∷◌, ◌++◌, ltb, ◌==◌, length,
  if◌then◌else◌, ◌>>=◌, map,
}
use fancon.Util.Text.{Text, codes, show}
use fancon.Nvidia.{from_binary_data}

unfoldable pub after_prefix : Text → Text → Option Text
after_prefix [] s = some s
after_prefix (a ∷ t) [] = none
after_prefix (a ∷ t) (b ∷ s) = if a == b then after_prefix t s else none

-- `std::search`, and what follows the title that is found.
unfoldable pub search_after : Text → Text → Option Text
unfolding after_prefix
search_after t [] = after_prefix t []
search_after t (b ∷ s) = elim (after_prefix t (b ∷ s)) [
  | some rest ↦ some rest
  | none ↦ search_after t s
]

-- One title. Where it is not found, `search` gives the end, and the iterator is moved past it and read;
-- where the name ends with it, the end is read.
unfoldable pub skip_title : Text → Text → Option Text
unfolding search_after
skip_title t name = search_after t name >>= λ rest. elim rest [
  | [] ↦ none
  | c ∷ [] ↦ some name
  | c ∷ d ∷ after ↦ some (if c == 32 then d ∷ after else name)
]

unfoldable pub skip_titles : List Text → Text → Option Text
unfolding skip_title
skip_titles [] name = some name
skip_titles (t ∷ titles) name = skip_title t name >>= skip_titles titles

abbrev pub titles : List Text
titles = codes "GeForce" ∷ codes "GTX" ∷ codes "GRID" ∷ codes "Quadro" ∷ []

unfoldable pub underscores : Text → Text
underscores s = map (λ c. if c == 32 then b'_' else c) s

-- The name that X reports, if it does.
unfoldable pub get_gpu_product_name : Option Text → Option Text
unfolding skip_titles underscores
get_gpu_product_name none = some []
get_gpu_product_name (some name) = skip_titles titles name >>= λ rest. some (underscores rest)

-- `insert_or_assign`
unfoldable pub same_text : Text → Text → Bool
same_text [] [] = true
same_text (a ∷ s) (b ∷ t) = a == b && same_text s t
same_text s t = false

module _ {D : Type 0} where
  unfoldable pub insert_or_assign : Text → D → List (Text × D) → List (Text × D)
  unfolding same_text
  insert_or_assign l d [] = (l, d) ∷ []
  insert_or_assign l d ((k, e) ∷ m) =
      let rest = insert_or_assign l d m in if same_text k l then (k, d) ∷ m else (k, e) ∷ rest

-- The label of a device: a number is added where the GPU has several.
unfoldable pub device_label : Text → Bool → ℕ → Text → Text
device_label name several id suffix = name ++ ((if several then show id else []) ++ suffix)

unfoldable pub add_ids : Text → Bool → Text → List ℕ → List (Text × ℕ) → List (Text × ℕ)
unfolding insert_or_assign device_label
add_ids name several suffix [] m = m
add_ids name several suffix (id ∷ ids) m =
    add_ids name several suffix ids (insert_or_assign (device_label name several id suffix) id m)

-- A GPU: the bytes of its devices, if they can be asked for, with their length, and its name.
pub record Gpu : Type 0 where
  pub binary : Option (List ℕ × ℕ)
  pub product_name : Text

-- The loop over the GPUs, for the fans with the suffix "" and for the sensors with "_temp".
unfoldable pub enumerate : Text → List Gpu → List (Text × ℕ) → List (Text × ℕ)
unfolding add_ids from_binary_data
enumerate suffix [] m = m
enumerate suffix (gpu ∷ gpus) m = enumerate suffix gpus (elim gpu.binary [
  | none ↦ m
  | some (bytes, len) ↦
      let ids = from_binary_data bytes len in
      add_ids gpu.product_name (ltb 1 (length ids)) suffix ids m
])
