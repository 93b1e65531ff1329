-- ===== src/Nvidia/Names/Titles.antt =====
-- Names without a title, and GPUs of one name.
use mathlib.Core.List.{append_assoc}
use mathlib.Core.Path.{subst}
use fancon.Common.{
  ℕ, suc, ◌≡◌, ◌≢◌, inl, inr, ap, sym, ◌∙◌, refl, true, none, some, List, [], ◌∷◌, ◌++◌, ◌==◌,
  arith, Elem, Option-cases, Bool-cases, map,
}
use fancon.Util.Text.{Text}
use fancon.Nvidia.{from_binary_data}
use fancon.Nvidia.Names.{
  after_prefix, search_after, skip_title, skip_titles, titles, get_gpu_product_name, same_text,
  insert_or_assign, device_label, add_ids, Gpu, enumerate,
}

-- `t` stands somewhere in the text.
abbrev pub Occurs : Text → Text → Type 0
Occurs t s = (pre post : Text) × (s ≡ pre ++ (t ++ post))

after_prefix-Occurs : (t s rest : Text) → after_prefix t s ≡ some rest → s ≡ t ++ rest
unfolding after_prefix
after_prefix-Occurs [] s rest h = ground (arith, h)
after_prefix-Occurs (a ∷ t) [] rest h = ground (arith, h)
after_prefix-Occurs (a ∷ t) (b ∷ s) rest h = ground (arith, h, after_prefix-Occurs t s rest)

search-found :
    (t s rest : Text) → search_after t s ≡ some rest → (pre : Text) × (s ≡ pre ++ (t ++ rest))
unfolding search_after
search-found t [] rest h = ([], after_prefix-Occurs t [] rest h)
search-found t (b ∷ s) rest h = elim (Option-cases (after_prefix t (b ∷ s))) [
  | inl e ↦
      let (pre, f) = search-found t s rest (ground (arith, h, e)) in
      (b ∷ pre, ap (λ (u : Text). b ∷ u) f)
  | inr (r, e) ↦ ([], after_prefix-Occurs t (b ∷ s) rest (ground (arith, h, e)))
]

absent-none : (t s : Text) → ¬ Occurs t s → skip_title t s ≡ none
unfolding skip_title
absent-none t s n = elim (Option-cases (search_after t s)) [
  | inl e ↦ rw e refl
  | inr (rest, e) ↦ let (pre, f) = search-found t s rest e in absurd (n (pre, rest, f))
]

-- What a title leaves is the end of the name.
left_end :
    (t s s' rest pre : Text)
    → s ≡ pre ++ (t ++ rest)
    → search_after t s ≡ some rest
    → skip_title t s ≡ some s'
    → (p : Text) × (s ≡ p ++ s')
unfolding skip_title
left_end t s s' [] pre f e h = absurd (ground (arith, h, e))
left_end t s s' (c ∷ []) pre f e h = ([], ground (arith, h, e))
left_end t s s' (c ∷ d ∷ after) pre f e h = elim (Bool-cases (c == 32)) [
  | inl space ↦
      let title_end : pre ++ (t ++ (c ∷ d ∷ after)) ≡ (pre ++ (t ++ (c ∷ []))) ++ (d ∷ after) =
        sym (
          append_assoc pre (t ++ (c ∷ [])) (d ∷ after)
          ∙ ap (λ (u : Text). pre ++ u) (append_assoc t (c ∷ []) (d ∷ after))) in
      subst (λ (x : Text). (p : Text) × (s ≡ p ++ x)) (ground (arith, h, e, space))
        (pre ++ (t ++ (c ∷ [])), f ∙ title_end)
  | inr other ↦ ([], ground (arith, h, e, other))
]

skip_title-end : (t s s' : Text) → skip_title t s ≡ some s' → (pre : Text) × (s ≡ pre ++ s')
skip_title-end t s s' h = elim (Option-cases (search_after t s)) [
  | inl e ↦ absurd (unfold skip_title in ground (arith, h, e))
  | inr (rest, e) ↦ let (pre, f) = search-found t s rest e in left_end t s s' rest pre f e h
]

absent-end : (t pre s : Text) → ¬ Occurs t (pre ++ s) → ¬ Occurs t s
absent-end t pre s n (p, q, e) =
    n (pre ++ p, q, ap (λ (u : Text). pre ++ u) e ∙ sym (append_assoc pre p (t ++ q)))

skip_titles-none :
    (t : Text) (ts : List Text) (s : Text) → Elem t ts → ¬ Occurs t s → skip_titles ts s ≡ none
unfolding skip_titles
skip_titles-none t [] s m n = absurd m
skip_titles-none t (u ∷ ts) s (inl e) n = rw (absent-none u s (subst (λ x. ¬ Occurs x s) e n)) refl
skip_titles-none t (u ∷ ts) s (inr m) n = elim (Option-cases (skip_title u s)) [
  | inl e ↦ rw e refl
  | inr (s', e) ↦
      let (pre, f) = skip_title-end u s s' e in
      rw e (skip_titles-none t ts s' m (absent-end t pre s' (subst (λ x. ¬ Occurs t x) f n)))
]

-- The name of a GPU is undefined behaviour wherever one of the four titles is missing in it: the
-- iterator is then past the end of the name when it is read.
pub get_gpu_product_name-Occurs :
    (t name : Text) → Elem t titles → ¬ Occurs t name → get_gpu_product_name (some name) ≡ none
unfolding get_gpu_product_name
get_gpu_product_name-Occurs t name m n = rw (skip_titles-none t titles name m n) refl

after_prefix-append : (t post : Text) → after_prefix t (t ++ post) ≡ some post
unfolding after_prefix
after_prefix-append [] post = refl
after_prefix-append (a ∷ t) post = ground (arith, after_prefix-append t post)

append-found : (t pre post : Text) → search_after t (pre ++ (t ++ post)) ≢ none
unfolding search_after after_prefix
append-found [] [] [] h = ground (arith, h)
append-found [] [] (b ∷ post) h = ground (arith, h)
append-found (a ∷ t) [] post h = ground (arith, h, after_prefix-append t post)
append-found t (b ∷ pre) post h =
    ground (arith, h, λ (e : search_after t (pre ++ (t ++ post)) ≡ none). append-found t pre post e)

-- A search that fails shows that a title is missing.
pub search_after-none : (t s : Text) → search_after t s ≡ none → ¬ Occurs t s
search_after-none t s h (pre, post, e) =
    append-found t pre post (subst (λ x. search_after t x ≡ none) e h)

same_text_refl : (s : Text) → same_text s s ≡ true
unfolding same_text
same_text_refl [] = refl
same_text_refl (a ∷ s) = ground (arith, same_text_refl s)

-- A GPU with one device, of which the bytes give the id.
abbrev pub single : Text → ℕ → Gpu
single name id = record { binary = some (suc id ∷ [], 1); product_name = name }

one_id : (id : ℕ) → from_binary_data (suc id ∷ []) 1 ≡ id ∷ []
unfolding from_binary_data
one_id id = ground arith

enumerate-one :
    (name suffix : Text) (id : ℕ) (gpus : List Gpu) (m : List (Text × ℕ))
    → enumerate suffix (single name id ∷ gpus) m
      ≡ enumerate suffix gpus (insert_or_assign (name ++ suffix) id m)
unfolding enumerate add_ids device_label
enumerate-one name suffix id gpus m = rw (one_id id) refl

replaced : (l : Text) (a b : ℕ) → insert_or_assign l a ((l, b) ∷ []) ≡ (l, a) ∷ []
unfolding insert_or_assign
replaced l a b = rw (same_text_refl l) refl

enumerate-replaces :
    (name suffix : Text) (ids : List ℕ) (last before : ℕ)
    → enumerate suffix (map (single name) (ids ++ (last ∷ []))) ((name ++ suffix, before) ∷ [])
      ≡ (name ++ suffix, last) ∷ []
unfolding enumerate
enumerate-replaces name suffix [] last before =
    enumerate-one name suffix last [] _ ∙ replaced (name ++ suffix) last before
enumerate-replaces name suffix (id ∷ ids) last before =
    enumerate-one name suffix id (map (single name) (ids ++ (last ∷ []))) _
    ∙ rw (replaced (name ++ suffix) id before) (enumerate-replaces name suffix ids last id)

-- Of several GPUs that have one name and one device each, only the device of the last is kept.
pub enumerate-last :
    (name suffix : Text) (ids : List ℕ) (last : ℕ)
    → enumerate suffix (map (single name) (ids ++ (last ∷ []))) [] ≡ (name ++ suffix, last) ∷ []
unfolding enumerate insert_or_assign
enumerate-last name suffix [] last = enumerate-one name suffix last [] []
enumerate-last name suffix (id ∷ ids) last =
    enumerate-one name suffix id (map (single name) (ids ++ (last ∷ []))) []
    ∙ enumerate-replaces name suffix ids last id
