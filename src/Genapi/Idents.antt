-- ===== src/Genapi/Idents.antt =====
-- pkg/genapi/genapi.go: packageIdent, removeNonAlphaNum and isVersion, with what they use of Go's
-- package path.
use configmapsecrets.Prelude.{
  ℕ, Text, codes, text_eq, nat_eq, ltb, join, Bool, true, false, not, ◌&&◌, ◌||◌, List, [], ◌∷◌,
  ◌++◌, if◌then◌else◌,
}
use configmapsecrets.Genapi.Texts.{null, split}

-- unicode.IsLetter and unicode.IsDigit, and unicode.ToLower on a whole text: the tables of the
-- Unicode standard
pub record Unicode : Type 0 where
  pub is_letter : ℕ → Bool
  pub is_digit : ℕ → Bool
  pub lower : Text → Text

abbrev slash : Text
slash = codes "/"

abbrev dot : Text
dot = codes "."

abbrev dots : Text
dots = codes ".."

-- The last part of a path, and the parts before it
abbrev pub last_part : List Text → Text
last_part [] = []
last_part (part ∷ []) = part
last_part (_ ∷ next ∷ parts) = last_part (next ∷ parts)

abbrev pub without_last : List Text → List Text
without_last [] = []
without_last (_ ∷ []) = []
without_last (part ∷ next ∷ parts) = part ∷ without_last (next ∷ parts)

-- The last part that is not empty, if there is one
unfoldable pub last_non_empty : List Text → Text
last_non_empty [] = []
last_non_empty (part ∷ parts) = let rest = last_non_empty parts in if null rest then part else rest

-- path.Base
unfoldable pub base : Text → Text
unfolding split last_non_empty
base [] = dot
base (c ∷ s) = let last = last_non_empty (split b'/' (c ∷ s)) in if null last then slash else last

-- The rules of path.Clean for the parts of a path; `kept` holds the parts so far, the last first.
-- The parent of the root is the root, and no part cancels a leading "..".
abbrev parent_of : Bool → List Text → List Text
parent_of true [] = []
parent_of false [] = dots ∷ []
parent_of rooted (part ∷ kept) = if text_eq part dots then dots ∷ part ∷ kept else kept

unfoldable pub clean_parts : Bool → List Text → List Text → List Text
clean_parts rooted kept [] = kept
clean_parts rooted kept (part ∷ parts) =
    clean_parts rooted
      (if null part || text_eq part dot
        then kept
        else if text_eq part dots
        then parent_of rooted kept
        else part ∷ kept)
      parts

unfoldable pub reversed : List Text → List Text → List Text
reversed [] acc = acc
reversed (part ∷ parts) acc = reversed parts (part ∷ acc)

abbrev is_rooted : Text → Bool
is_rooted [] = false
is_rooted (c ∷ _) = nat_eq c b'/'

-- path.Clean
unfoldable pub clean : Text → Text
unfolding split clean_parts reversed join
clean path =
    let rooted = is_rooted path in
    let parts = join (reversed (clean_parts rooted [] (split b'/' path)) []) slash in
    if rooted then slash ++ parts else if null parts then dot else parts

-- path.Dir: what stands before the last slash, with it, cleaned
unfoldable pub dir : Text → Text
unfolding clean
dir path = clean (
    join (without_last (split b'/' path)) slash
    ++ (if null (without_last (split b'/' path)) then [] else slash))

-- removeNonAlphaNum
unfoldable pub remove_non_alpha_num : Unicode → Text → Text
remove_non_alpha_num unicode [] = []
remove_non_alpha_num unicode (r ∷ s) =
    let rest = remove_non_alpha_num unicode s in
    if not (unicode.is_letter r) && not (unicode.is_digit r) then rest else r ∷ rest

-- [0-9]
abbrev is_ascii_digit : ℕ → Bool
is_ascii_digit c = ltb 47 c && ltb c 58

unfoldable pub all_digits : Text → Bool
all_digits [] = true
all_digits (c ∷ s) = is_ascii_digit c && all_digits s

unfoldable pub after_digits : Text → Text
after_digits [] = []
after_digits (c ∷ s) = let rest = after_digits s in if is_ascii_digit c then rest else c ∷ s

-- [0-9]+ up to the end of the text
unfoldable pub digits : Text → Bool
unfolding all_digits
digits s = not (null s) && all_digits s

-- (prefix)([0-9]+) up to the end of the text
unfoldable pub prefixed_digits : Text → Text → Bool
unfolding digits
prefixed_digits [] s = digits s
prefixed_digits (p ∷ prefix) [] = false
prefixed_digits (p ∷ prefix) (c ∷ s) = nat_eq p c && prefixed_digits prefix s

abbrev starts_with_digit : Text → Bool
starts_with_digit [] = false
starts_with_digit (c ∷ _) = is_ascii_digit c

-- isVersion: ^v([0-9]+)((alpha|beta)([0-9]+))?$
unfoldable pub is_version : Text → Bool
unfolding prefixed_digits after_digits
is_version [] = false
is_version (c ∷ s) =
    let rest = after_digits s in
    nat_eq c b'v'
    && (starts_with_digit s
        && (null rest
            || (prefixed_digits (codes "alpha") rest || prefixed_digits (codes "beta") rest)))

-- packageIdent
unfoldable pub package_ident : Unicode → Text → Text
unfolding base dir remove_non_alpha_num is_version
package_ident unicode pkg =
    let clean_base = remove_non_alpha_num unicode (base pkg) in
    let clean_parent = remove_non_alpha_num unicode (base (dir pkg)) in
    if not (is_version (base pkg)) || null clean_parent
    then clean_base
    else clean_parent ++ clean_base
