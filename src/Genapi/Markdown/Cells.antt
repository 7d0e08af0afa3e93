-- ===== src/Genapi/Markdown/Cells.antt =====
-- The characters of a table that mdDoc leaves in its text.
use configmapsecrets.Prelude.{
  ℕ, zero, suc, Text, codes, nat_eq, Bool, true, false, ◌&&◌, ◌||◌, not, ◌⊎◌, [], ◌∷◌, ◌++◌,
  if◌then◌else◌, ◌≡◌, refl, arith, inl, inr, ap, ◌∙◌,
}
use mathlib.Core.List.{append_assoc}
use configmapsecrets.Genapi.Texts.{lacks, replace_char}
use configmapsecrets.Genapi.Markdown.{
  is_space, is_space_pair, is_space_triple, space_width, trim_behind, trim_left, trim_right,
  trim_space, unescape_quotes, md_doc,
}

-- What a character becomes in a cell.
unfoldable pub escaped : ℕ → Text
escaped c =
    if nat_eq c b'"'
    then codes "\\\""
    else if nat_eq c 10
    then codes "<br/>"
    else if nat_eq c 9
    then codes "\\t"
    else if nat_eq c b'|'
    then codes "\\|"
    else c ∷ []

unfoldable pub escape_all : Text → Text
escape_all [] = []
escape_all (c ∷ s) = escaped c ++ escape_all s

replacements : Text → Text
replacements doc = replace_char b'|' (codes "\\|") (
    replace_char 9 (codes "\\t")
      (replace_char 10 (codes "<br/>") (replace_char b'"' (codes "\\\"") doc)))

replace_char-append :
    (old : ℕ) (new s t : Text)
    → replace_char old new (s ++ t) ≡ replace_char old new s ++ replace_char old new t
unfolding replace_char
replace_char-append old new [] t = refl
replace_char-append old new (c ∷ s) t = ground (
  arith,
  replace_char-append old new s t,
  append_assoc new (replace_char old new s) (replace_char old new t),
)

replacements-append : (s t : Text) → replacements (s ++ t) ≡ replacements s ++ replacements t
unfolding replacements
replacements-append s t = simp replace_char-append

replacements-one : (c : ℕ) → replacements (c ∷ []) ≡ escaped c
unfolding replacements escaped replace_char
replacements-one c = ground arith

replacements-escape_all : (s : Text) → replacements s ≡ escape_all s
unfolding replacements escape_all replace_char
replacements-escape_all [] = refl
replacements-escape_all (c ∷ s) =
    replacements-append (c ∷ []) s ∙ cc (replacements-one c, replacements-escape_all s)

-- The replacements of mdDoc one after the other are one replacement of every character by its own
-- text, so that none of them touches what another has put in.
md_doc-escape_all : (doc : Text) → md_doc doc ≡ trim_space (escape_all (unescape_quotes doc))
unfolding md_doc replacements
md_doc-escape_all doc = ap trim_space (replacements-escape_all (unescape_quotes doc))

-- Every occurrence of the mark stands right behind a backslash; `behind` says whether the text
-- itself does.
unfoldable pub guarded : ℕ → Bool → Text → Bool
guarded mark behind [] = true
guarded mark behind (c ∷ s) =
    let rest = guarded mark (nat_eq c b'\\') s in (not (nat_eq c mark) || behind) && rest

guarded-escaped :
    (mark : ℕ) (c : ℕ) (s : Text) (behind : Bool)
    → (mark ≡ b'"') ⊎ (mark ≡ b'|')
    → ((b : Bool) → guarded mark b s ≡ true)
    → guarded mark behind (escaped c ++ s) ≡ true
unfolding guarded escaped
guarded-escaped mark c s behind e h = elim e [
  | inl m ↦ ground (arith, h true, h false, h (nat_eq c b'\\'))
  | inr m ↦ ground (arith, h true, h false, h (nat_eq c b'\\'))
]

guarded-escape_all :
    (mark : ℕ) (s : Text) (behind : Bool)
    → (mark ≡ b'"') ⊎ (mark ≡ b'|')
    → guarded mark behind (escape_all s) ≡ true
unfolding guarded escape_all
guarded-escape_all mark [] behind e = refl
guarded-escape_all mark (c ∷ s) behind e =
    guarded-escaped mark c (escape_all s) behind e λ b. guarded-escape_all mark s b e

-- None of the first bytes is a backslash.
unfoldable plain : ℕ → Text → Bool
plain zero s = true
plain (suc n) [] = true
plain (suc n) (c ∷ s) = not (nat_eq c b'\\') && plain n s

plain-space_width : (s : Text) → plain (space_width s) s ≡ true
unfolding plain space_width is_space is_space_pair is_space_triple
plain-space_width [] = refl
plain-space_width (c ∷ []) = ground arith
plain-space_width (c ∷ d ∷ []) = ground arith
plain-space_width (c ∷ d ∷ e ∷ s) = ground arith

skip-guarded :
    (mark c k : ℕ) (s : Text)
    → ((n : ℕ)
        → plain n s ≡ true
        → guarded mark false s ≡ true
        → guarded mark false (trim_behind n s) ≡ true)
    → plain k (c ∷ s) ≡ true
    → guarded mark false (c ∷ s) ≡ true
    → guarded mark false (elim k [ zero ↦ c ∷ s | suc n ↦ trim_behind n s ]) ≡ true
unfolding guarded plain
skip-guarded mark c zero s ih p h = h
skip-guarded mark c (suc n) s ih p h = ih n (ground arith) (ground arith)

trim_behind-guarded :
    (mark n : ℕ) (s : Text)
    → plain n s ≡ true
    → guarded mark false s ≡ true
    → guarded mark false (trim_behind n s) ≡ true
unfolding guarded plain trim_behind
trim_behind-guarded mark n [] p h = refl
trim_behind-guarded mark (suc n) (c ∷ s) p h =
    trim_behind-guarded mark n s (ground arith) (ground arith)
trim_behind-guarded mark zero (c ∷ s) p h =
    skip-guarded mark c (space_width (c ∷ s)) s (λ n. trim_behind-guarded mark n s)
      (plain-space_width (c ∷ s)) h

trim_left-guarded :
    (mark : ℕ) (s : Text) → guarded mark false s ≡ true → guarded mark false (trim_left s) ≡ true
unfolding trim_left plain
trim_left-guarded mark s h = trim_behind-guarded mark 0 s refl h

trim_right-guarded :
    (mark : ℕ) (s : Text) (behind : Bool)
    → guarded mark behind s ≡ true
    → guarded mark behind (trim_right s) ≡ true
unfolding guarded trim_right
trim_right-guarded mark [] behind h = refl
trim_right-guarded mark (c ∷ s) behind h =
    ground (arith, trim_right-guarded mark s (nat_eq c b'\\'))

lacks-escape_all : (c : ℕ) (s : Text) → (c ≡ 10) ⊎ (c ≡ 9) → lacks c (escape_all s) ≡ true
unfolding lacks escape_all escaped
lacks-escape_all c [] e = refl
lacks-escape_all c (d ∷ s) (inl e) = ground (arith, lacks-escape_all c s (inl e))
lacks-escape_all c (d ∷ s) (inr e) = ground (arith, lacks-escape_all c s (inr e))

lacks-skip :
    (c d k : ℕ) (s : Text)
    → ((n : ℕ) → lacks c s ≡ true → lacks c (trim_behind n s) ≡ true)
    → lacks c (d ∷ s) ≡ true
    → lacks c (elim k [ zero ↦ d ∷ s | suc n ↦ trim_behind n s ]) ≡ true
unfolding lacks
lacks-skip c d zero s ih h = h
lacks-skip c d (suc n) s ih h = ih n (ground arith)

lacks-trim_behind : (c n : ℕ) (s : Text) → lacks c s ≡ true → lacks c (trim_behind n s) ≡ true
unfolding lacks trim_behind
lacks-trim_behind c n [] h = refl
lacks-trim_behind c (suc n) (d ∷ s) h = lacks-trim_behind c n s (ground arith)
lacks-trim_behind c zero (d ∷ s) h =
    lacks-skip c d (space_width (d ∷ s)) s (λ n. lacks-trim_behind c n s) h

lacks-trim_left : (c : ℕ) (s : Text) → lacks c s ≡ true → lacks c (trim_left s) ≡ true
unfolding trim_left
lacks-trim_left c s h = lacks-trim_behind c 0 s h

lacks-trim_right : (c : ℕ) (s : Text) → lacks c s ≡ true → lacks c (trim_right s) ≡ true
unfolding lacks trim_right
lacks-trim_right c [] h = refl
lacks-trim_right c (d ∷ s) h = ground (arith, lacks-trim_right c s)

trim_space-guarded :
    (mark : ℕ) (s : Text) → guarded mark false s ≡ true → guarded mark false (trim_space s) ≡ true
unfolding trim_space
trim_space-guarded mark s h =
    trim_right-guarded mark (trim_left s) false (trim_left-guarded mark s h)

lacks-trim_space : (c : ℕ) (s : Text) → lacks c s ≡ true → lacks c (trim_space s) ≡ true
unfolding trim_space
lacks-trim_space c s h = lacks-trim_right c (trim_left s) (lacks-trim_left c s h)

-- The text that mdDoc returns has no newline and no tab, and each of its quotes and bars stands
-- right behind a backslash.
pub md_doc-guarded :
    (doc : Text)
    → (lacks 10 (md_doc doc) ≡ true)
      × (lacks 9 (md_doc doc) ≡ true)
      × (guarded b'"' false (md_doc doc) ≡ true)
      × (guarded b'|' false (md_doc doc) ≡ true)
md_doc-guarded doc = rw (md_doc-escape_all doc) (
    let s = unescape_quotes doc in
    (
      lacks-trim_space 10 (escape_all s) (lacks-escape_all 10 s (inl refl)),
      lacks-trim_space 9 (escape_all s) (lacks-escape_all 9 s (inr refl)),
      trim_space-guarded b'"' (escape_all s) (guarded-escape_all b'"' s false (inl refl)),
      trim_space-guarded b'|' (escape_all s) (guarded-escape_all b'|' s false (inr refl)),
    ))
