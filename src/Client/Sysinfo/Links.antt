-- ===== src/Client/Sysinfo/Links.antt =====
-- The listing ends, however the links of the directories lie.
use mathlib.Core.Path.{fun_ext}
use fancon.Common.{
  sym, ℕ, suc, ◌≡◌, ◌∙◌, ap, refl, Bool, true, false, Option, none, some, List, [], ◌∷◌, ◌++◌, map,
  arith,
}
use fancon.Util.Text.{Text}
use fancon.Client.Output.{same_text}
use fancon.Client.Sysinfo.{
  Item, seen, item_line, Listed, follow_link, enumerate_items, enumerate_directory,
}

same_text_refl : (t : Text) → same_text t t ≡ true
unfolding same_text
same_text_refl [] = refl
same_text_refl (c ∷ t) = ground (arith, same_text_refl t)

-- The target of a link was searched.
abbrev SearchedLink : List Text → Option Text → Type 0
SearchedLink all none = Unit
SearchedLink all (some p) = seen p all ≡ true

abbrev pub Searched : List Text → List Item → Type 0
Searched all [] = Unit
Searched all (e ∷ es) = SearchedLink all e.target × Searched all es

SearchedLink-kept :
    (now all : List Text) (target : Option Text)
    → ((t : Text) → seen t now ≡ true → seen t all ≡ true)
    → SearchedLink now target
    → SearchedLink all target
SearchedLink-kept now all none kept h = tt
SearchedLink-kept now all (some p) kept h = kept p h

module _ (follow : Text → List Text → Listed) where
  follow_link-Searched :
      (e : Item) (all : List Text)
      → SearchedLink all e.target
      → follow_link follow 0 e all ≡ some ([], all)
  unfolding follow_link
  follow_link-Searched e all h = ground arith

  -- Where all links were searched, none is followed.
  enumerate_items-Searched :
      (es : List Item) (all : List Text)
      → Searched all es
      → enumerate_items follow 0 es all ≡ some (map item_line es, all)
  unfolding enumerate_items
  enumerate_items-Searched [] all h = refl
  enumerate_items-Searched (e ∷ es) all (h, hs) =
      rw (follow_link-Searched e all h, enumerate_items-Searched es all hs) refl

  follow_link-deep :
      (depth : ℕ) (e : Item) (all : List Text)
      → follow_link follow (suc depth) e all ≡ some ([], all)
  unfolding follow_link
  follow_link-deep depth e all = ground arith

  -- Below the top no link is followed.
  enumerate_items-deep :
      (depth : ℕ) (es : List Item) (all : List Text)
      → enumerate_items follow (suc depth) es all ≡ some (map item_line es, all)
  unfolding enumerate_items
  enumerate_items-deep depth [] all = refl
  enumerate_items-deep depth (e ∷ es) all =
      rw (follow_link-deep depth e all, enumerate_items-deep depth es all) refl

  -- A result under which the links of some entries were searched, with those before.
  abbrev Ends : List Text → (List Text → Type 0) → Listed → Type 0
  Ends before Links result =
      (lines all : List Text) × (result ≡ some (lines, all))
      × Links all
      × ((t : Text) → seen t before ≡ true → seen t all ≡ true)

  -- `follow` ends and searches nothing more.
  abbrev Flat : (Text → List Text) → Type 0
  Flat lines = (p : Text) (all : List Text) → follow p all ≡ some (lines p, all)

  follow_link-target :
      (below : Text → List Text)
      → Flat below
      → (e : Item) (before : List Text) (target : Option Text) → e.target ≡ target
      → Ends before (λ all. SearchedLink all target) (follow_link follow 0 e before)
  unfolding follow_link seen
  follow_link-target below f e before none eq = ([], before, ground arith, tt, λ t h. h)
  follow_link-target below f e before (some p) eq = by_seen (seen p before) refl
    where
      by_seen :
          (b : Bool)
          → seen p before ≡ b
          → Ends before (λ all. seen p all ≡ true) (follow_link follow 0 e before)
      by_seen true h = ([], before, ground arith, h, λ t k. k)
      by_seen false h = (
        below e.path,
        p ∷ before,
        ground (arith, f e.path (p ∷ before)),
        ground (arith, same_text_refl p),
        λ t k. ground arith,
      )

  follow_link-Ends :
      (below : Text → List Text)
      → Flat below
      → (e : Item) (before : List Text)
      → Ends before (λ all. SearchedLink all e.target) (follow_link follow 0 e before)
  follow_link-Ends below f e before = follow_link-target below f e before e.target refl

  enumerate_items-Ends :
      (below : Text → List Text)
      → Flat below
      → (es : List Item) (before : List Text)
      → Ends before (λ all. Searched all es) (enumerate_items follow 0 es before)
  unfolding enumerate_items
  enumerate_items-Ends below f [] before = ([], before, refl, tt, λ t h. h)
  enumerate_items-Ends below f (e ∷ es) before =
      let (linked, now, eq, link, kept) = follow_link-Ends below f e before in
      let (lines, all, eq', links, kept') = enumerate_items-Ends below f es now in
      (
        item_line e ∷ (linked ++ lines),
        all,
        rw (eq, eq') refl,
        (SearchedLink-kept now all e.target kept' link, links),
        λ t h. kept' t (kept t h),
      )

-- A directory below the top, with any fuel.
enumerate_directory-below :
    (list : Text → List Item) (fuel depth : ℕ) (p : Text) (all : List Text)
    → enumerate_directory (suc fuel) list p (suc depth) all ≡ some (map item_line (list p), all)
unfolding enumerate_directory
enumerate_directory-below list fuel depth p all =
    enumerate_items-deep (λ q r. enumerate_directory fuel list q (suc (suc depth)) r) depth (list p)
      all

enumerate_directory-fuel :
    (list : Text → List Item) (dir : Text) (fuel : ℕ) (searched : List Text)
    → enumerate_directory (suc (suc fuel)) list dir 0 searched
      ≡ enumerate_directory 2 list dir 0 searched
unfolding enumerate_directory
enumerate_directory-fuel list dir fuel searched =
    ap (λ (follow : Text → List Text → Listed). enumerate_items follow 0 (list dir) searched)
      (fun_ext (λ p. fun_ext (λ s.
        enumerate_directory-below list fuel 0 p s ∙ sym (enumerate_directory-below list 0 0 p s))))

-- The listing of a directory ends with two levels of fuel, and more fuel gives the same, even where
-- links lead back to what is above them. A second listing in the same process follows no link that
-- the first one found: it gives the lines of the directory's own entries.
pub enumerate_directory-again :
    (list : Text → List Item) (dir : Text) (fuel : ℕ) (searched : List Text)
    → (lines all : List Text) × (enumerate_directory 2 list dir 0 searched ≡ some (lines, all))
      × (enumerate_directory (suc (suc fuel)) list dir 0 searched ≡ some (lines, all))
      × (enumerate_directory 2 list dir 0 all ≡ some (map item_line (list dir), all))
unfolding enumerate_directory
enumerate_directory-again list dir fuel searched =
    let follow : Text → List Text → Listed = λ p s. enumerate_directory 1 list p 1 s in
    let (lines, all, e, links, kept) =
      enumerate_items-Ends follow (λ p. map item_line (list p)) (enumerate_directory-below list 0 0)
        (list dir) searched in
    (
      lines,
      all,
      e,
      enumerate_directory-fuel list dir fuel searched ∙ e,
      enumerate_items-Searched follow (list dir) all links,
    )
