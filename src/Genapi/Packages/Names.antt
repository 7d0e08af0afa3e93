-- ===== src/Genapi/Packages/Names.antt =====
-- What sortedNames promises: every name of a struct or a constant, in order.
use configmapsecrets.Prelude.{
  ℕ, suc, ◌+◌, Text, Map, text_eq, text_equality, lookup, ltb, Bool, true, false, is_some, List, [],
  ◌∷◌, ◌++◌, if◌then◌else◌, ◌&&◌, ◌||◌, ◌≡◌, refl, arith, text_le, insert_sorted, sort_texts, ◌∙◌,
}
use configmapsecrets.Genapi.Texts.{member}
use configmapsecrets.Genapi.Packages.{names_of, sorted_names, Package}

-- How often the text occurs in the list.
unfoldable pub count : Text → List Text → ℕ
count s [] = 0
count s (t ∷ ts) = let rest = count s ts in if text_eq t s then suc rest else rest

count-append : (s : Text) (ts us : List Text) → count s (ts ++ us) ≡ count s ts + count s us
unfolding count
count-append s [] us = omega arith
count-append s (t ∷ ts) us = ground (arith, count-append s ts us)

count-insert_sorted :
    (s t : Text) (ts : List Text) → count s (insert_sorted t ts) ≡ count s (t ∷ ts)
unfolding count insert_sorted
count-insert_sorted s t [] = refl
count-insert_sorted s t (u ∷ us) = ground (arith, count-insert_sorted s t us)

count-sort_texts : (s : Text) (ts : List Text) → count s (sort_texts ts) ≡ count s ts
unfolding count sort_texts
count-sort_texts s [] = refl
count-sort_texts s (t ∷ ts) =
    ground (arith, count-insert_sorted s t (sort_texts ts), count-sort_texts s ts)

-- Each text is at most the next, byte by byte.
unfoldable pub sorted : List Text → Bool
sorted [] = true
sorted (s ∷ []) = true
sorted (s ∷ t ∷ ts) = text_le s t && sorted (t ∷ ts)

text_le_total : (s t : Text) → text_le s t ≡ false → text_le t s ≡ true
unfolding text_le
text_le_total [] t h = cc
text_le_total (a ∷ s) [] h = refl
text_le_total (a ∷ s) (b ∷ t) h = ground (arith, text_le_total s t)

insert_sorted-sorted :
    (s : Text) (ts : List Text) → sorted ts ≡ true → sorted (insert_sorted s ts) ≡ true
unfolding sorted insert_sorted
insert_sorted-sorted s [] h = refl
insert_sorted-sorted s (t ∷ []) h = ground (arith, text_le_total s t)
insert_sorted-sorted s (t ∷ u ∷ us) h =
    ground (arith, text_le_total s t, text_le_total s u, insert_sorted-sorted s (u ∷ us))

sort_texts-sorted : (ts : List Text) → sorted (sort_texts ts) ≡ true
unfolding sorted sort_texts
sort_texts-sorted [] = refl
sort_texts-sorted (t ∷ ts) = insert_sorted-sorted t (sort_texts ts) (sort_texts-sorted ts)

-- sortedNames is sorted, and has every name as often as the structs and the constants together do.
sorted_names-sorted :
    (pkg : Package) (name : Text)
    → (sorted (sorted_names pkg) ≡ true)
      × (count name (sorted_names pkg)
          ≡ count name (names_of pkg.structs) + count name (names_of pkg.constants))
unfolding sorted_names
sorted_names-sorted pkg name =
    let names = names_of pkg.structs ++ names_of pkg.constants in
    (
      sort_texts-sorted names,
      count-sort_texts name names
          ∙ count-append name (names_of pkg.structs) (names_of pkg.constants),
    )

abbrev positive : ℕ → Bool
positive n = ltb 0 n

member-count : (s : Text) (ts : List Text) → member s ts ≡ positive (count s ts)
unfolding member count
member-count s [] = refl
member-count s (t ∷ ts) = ground (arith, member-count s ts)

count-names_of {ℓ} :
    {V : Type ℓ} (name : Text) (m : Map Text V)
    → positive (count name (names_of m)) ≡ is_some (lookup name m)
unfolding count names_of lookup
count-names_of name [] = refl
count-names_of name ((k, v) ∷ m) = ground (arith, count-names_of name m)

pub member-sorted_names :
    (pkg : Package) (name : Text)
    → member name (sorted_names pkg)
      ≡ (is_some (lookup name pkg.structs) || is_some (lookup name pkg.constants))
member-sorted_names pkg name = ground (
  arith,
  member-count name (sorted_names pkg),
  (sorted_names-sorted pkg name).1,
  count-names_of name pkg.structs,
  count-names_of name pkg.constants,
)
