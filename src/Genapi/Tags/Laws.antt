-- ===== src/Genapi/Tags/Laws.antt =====
-- What the json tags promise: the parts that were joined by commas are found again.
use configmapsecrets.Prelude.{
  ℕ, zero, suc, ◌+◌, ◌≤◌, Text, join, true, false, List, [], ◌∷◌, ◌++◌, ◌≡◌, refl, arith,
}
use configmapsecrets.Genapi.Texts.{null, lacks, cut-lacks, cut-append, member}
use configmapsecrets.Genapi.Tags.{parse, comma, size, contains_in, contains}

-- A part of a tag: it has no comma, and is not empty if it is an option.
abbrev pub IsOption : Text → Type 0
IsOption s = (null s ≡ false) × (lacks comma s ≡ true)

abbrev pub AreOptions : List Text → Type 0
AreOptions [] = Unit
AreOptions (s ∷ ss) = IsOption s × AreOptions ss

abbrev pub separator : Text
separator = comma ∷ []

size-append : (s t : Text) → size (s ++ t) ≡ size s + size t
size-append [] t = omega arith
size-append (c ∷ s) t = ground (arith, size-append s t)

contains_in-join :
    (fuel : ℕ) (options : List Text) (option : Text)
    → AreOptions options
    → size (join options separator) ≤ fuel
    → contains_in fuel (join options separator) option ≡ member option options
unfolding contains_in member join
contains_in-join zero [] option h le = refl
contains_in-join (suc fuel) [] option h le = refl
contains_in-join fuel ([] ∷ ss) option h le = cc (h.0.0)
contains_in-join zero ((c ∷ s) ∷ []) option h le = ground (arith)
contains_in-join zero ((c ∷ s) ∷ t ∷ ts) option h le = ground (arith)
contains_in-join (suc fuel) ((c ∷ s) ∷ []) option h le = rw (cut-lacks comma (c ∷ s) (h.0.1)) refl
contains_in-join (suc fuel) ((c ∷ s) ∷ t ∷ ts) option h le =
    let rest = join (t ∷ ts) separator in
    rw
      (
        cut-append comma (c ∷ s) rest (h.0.1),
        contains_in-join fuel (t ∷ ts) option (h.1) (ground (arith, size-append s (comma ∷ rest))),
      )
      refl

-- A name and options that are joined by commas, none of them with a comma in it and no option
-- empty, are parsed to the name, and to a tag that contains exactly these options.
pub contains-parse :
    (name : Text) (options : List Text) (option : Text)
    → lacks comma name ≡ true
    → AreOptions options
    → let tag = parse (join (name ∷ options) separator) in
      (tag.name ≡ name) × (contains tag option ≡ member option options)
unfolding parse contains join contains_in member
contains-parse name [] option h hs = rw (cut-lacks comma name h) (refl, refl)
contains-parse name (s ∷ ss) option h hs =
    let rest = join (s ∷ ss) separator in
    rw (cut-append comma name rest h)
      (refl, contains_in-join (size rest) (s ∷ ss) option hs (omega arith))
