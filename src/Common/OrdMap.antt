-- ===== src/Common/OrdMap.antt =====
-- `std::map`: an association list with ascending keys.
use fancon.Common.{
  ℕ, ◌≡◌, refl, Bool, true, false, Option, none, some, List, [], ◌∷◌, arith, ltb, if◌then◌else◌,
  if-cases,
}
use fancon.Common.Int.{ℤ, ltb_ℤ, eq_of_parts}

-- The order `std::less` of a key type.
pub record Less (K : Type 0) : Type 0 where
  pub less : K → K → Bool
  pub less_trans : (a b c : K) → less a b ≡ true → less b c ≡ true → less a c ≡ true
  pub less_total : (a b : K) → less a b ≡ false → less b a ≡ false → a ≡ b
  pub less_irrefl : (a : K) → less a a ≡ false

pub ltb_trans : (a b c : ℕ) → ltb a b ≡ true → ltb b c ≡ true → ltb a c ≡ true
ltb_trans a b c h k = ground arith

pub ltb_total : (a b : ℕ) → ltb a b ≡ false → ltb b a ≡ false → a ≡ b
ltb_total a b h k = ground arith

pub ltb_irrefl : (a : ℕ) → ltb a a ≡ false
ltb_irrefl a = ground arith

pub ltb_ℤ-trans : (a b c : ℤ) → ltb_ℤ a b ≡ true → ltb_ℤ b c ≡ true → ltb_ℤ a c ≡ true
ltb_ℤ-trans a b c h k = ground arith

pub ltb_ℤ-total : (a b : ℤ) → ltb_ℤ a b ≡ false → ltb_ℤ b a ≡ false → a ≡ b
ltb_ℤ-total a b h k = ground (arith, eq_of_parts a b)

pub ltb_ℤ-irrefl : (a : ℤ) → ltb_ℤ a a ≡ false
ltb_ℤ-irrefl a = ground arith

instance abbrev pub nat_less : Less ℕ
nat_less = record {
  less = ltb;
  less_trans = ltb_trans;
  less_total = ltb_total;
  less_irrefl = ltb_irrefl;
}

instance abbrev pub int_less : Less ℤ
int_less = record {
  less = ltb_ℤ;
  less_trans = ltb_ℤ-trans;
  less_total = ltb_ℤ-total;
  less_irrefl = ltb_ℤ-irrefl;
}

module _ {K V : Type 0} where
  abbrev pub keys : List (K × V) → List K
  keys [] = []
  keys ((k, v) ∷ m) = k ∷ keys m

  abbrev pub values : List (K × V) → List V
  values [] = []
  values ((k, v) ∷ m) = v ∷ values m

module _ {K V : Type 0} ⦃o : Less K⦄ where
  -- `m[k] = v`
  unfoldable pub insert : K → V → List (K × V) → List (K × V)
  insert k v [] = (k, v) ∷ []
  insert k v ((j, w) ∷ m) =
      if o.less k j
      then (k, v) ∷ (j, w) ∷ m
      else if o.less j k
      then (j, w) ∷ insert k v m
      else (k, v) ∷ m

  -- `m.lower_bound(k)`: the entry before the iterator, if there is one, and those from it on.
  unfoldable pub lower_bound : K → Option (K × V) → List (K × V) → Option (K × V) × List (K × V)
  lower_bound k before [] = (before, [])
  lower_bound k before ((j, w) ∷ m) =
      if o.less j k then lower_bound k (some (j, w)) m else (before, (j, w) ∷ m)

  -- All keys lie above `k`.
  abbrev pub Above : K → List (K × V) → Type 0
  Above k [] = Unit
  Above k ((j, w) ∷ m) = (o.less k j ≡ true) × Above k m

  abbrev pub IsAscending : List (K × V) → Type 0
  IsAscending [] = Unit
  IsAscending ((j, w) ∷ m) = Above j m × IsAscending m

  pub Above-trans : (i j : K) (m : List (K × V)) → o.less i j ≡ true → Above j m → Above i m
  Above-trans i j [] h a = tt
  Above-trans i j ((k, w) ∷ m) h a = (o.less_trans i j k h a.0, Above-trans i j m h a.1)

  pub Above-insert :
      (i k : K) (v : V) (m : List (K × V)) → o.less i k ≡ true → Above i m → Above i (insert k v m)
  unfolding insert
  Above-insert i k v [] h a = (h, tt)
  Above-insert i k v ((j, w) ∷ m) h a = ground (arith, Above-insert i k v m h a.1)

  -- A write keeps the keys in order.
  pub insert-IsAscending :
      (k : K) (v : V) (m : List (K × V)) → IsAscending m → IsAscending (insert k v m)
  unfolding insert
  insert-IsAscending k v [] a = (tt, tt)
  insert-IsAscending k v ((j, w) ∷ m) a = ground (
    arith,
    insert-IsAscending k v m a.1,
    Above-insert j k v m,
    Above-trans k j m,
    o.less_total k j,
  )

  pub lower_bound-before :
      (k : K) (e : K × V) (m : List (K × V))
      → (e' : K × V) × ((lower_bound k (some e) m).0 ≡ some e')
  unfolding lower_bound
  lower_bound-before k e [] = (e, refl)
  lower_bound-before k e ((j, w) ∷ m) =
      if-cases (λ (r : Option (K × V) × List (K × V)). (e' : K × V) × (r.0 ≡ some e')) (o.less j k)
        (λ _. lower_bound-before k (j, w) m) (λ _. (e, refl))

module _ {K V : Type 0} where
  -- `*m.rbegin()`
  unfoldable pub last_entry : List (K × V) → Option (K × V)
  last_entry [] = none
  last_entry (e ∷ []) = some e
  last_entry (e ∷ f ∷ m) = last_entry (f ∷ m)
