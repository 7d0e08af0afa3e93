-- ===== src/Genapi/Texts.antt =====
-- What pkg/genapi uses of Go's package strings.
use configmapsecrets.Prelude.{
  ℕ, Text, nat_eq, text_eq, Bool, true, false, Option, none, some, List, [], ◌∷◌, ◌++◌,
  if◌then◌else◌, ◌≡◌, refl, arith,
}

abbrev pub null {ℓ} : {A : Type ℓ} → List A → Bool
null [] = true
null (_ ∷ _) = false

abbrev cons_part : ℕ → Option (Text × Text) → Option (Text × Text)
cons_part c none = none
cons_part c (some (before, after)) = some (c ∷ before, after)

-- The parts s[:i] and s[i+1:] for i = strings.Index(s, sep), or none for i < 0
unfoldable pub cut : ℕ → Text → Option (Text × Text)
cut sep [] = none
cut sep (c ∷ s) = if nat_eq c sep then some ([], s) else cons_part c (cut sep s)

abbrev pub onto_first : ℕ → List Text → List Text
onto_first c [] = (c ∷ []) ∷ []
onto_first c (part ∷ parts) = (c ∷ part) ∷ parts

-- strings.Split(s, sep), for a separator of one character
unfoldable pub split : ℕ → Text → List Text
split sep [] = [] ∷ []
split sep (c ∷ s) =
    let parts = split sep s in if nat_eq c sep then [] ∷ parts else onto_first c parts

-- strings.Replace(s, old, new, -1), for an old text of one character
unfoldable pub replace_char : ℕ → Text → Text → Text
replace_char old new [] = []
replace_char old new (c ∷ s) =
    let rest = replace_char old new s in if nat_eq c old then new ++ rest else c ∷ rest

-- The text is one of the list.
unfoldable pub member : Text → List Text → Bool
member s [] = false
member s (t ∷ ts) = let rest = member s ts in if text_eq t s then true else rest

-- The character does not occur in the text.
unfoldable pub lacks : ℕ → Text → Bool
lacks sep [] = true
lacks sep (c ∷ s) = let rest = lacks sep s in if nat_eq c sep then false else rest

pub cut-lacks : (sep : ℕ) (s : Text) → lacks sep s ≡ true → cut sep s ≡ none
unfolding cut lacks
cut-lacks sep [] h = refl
cut-lacks sep (c ∷ s) h = ground (arith, cut-lacks sep s)

pub cut-append :
    (sep : ℕ) (s t : Text) → lacks sep s ≡ true → cut sep (s ++ (sep ∷ t)) ≡ some (s, t)
unfolding cut lacks
cut-append sep [] t h = ground arith
cut-append sep (c ∷ s) t h = ground (arith, cut-append sep s t)
