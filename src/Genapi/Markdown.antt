-- ===== src/Genapi/Markdown.antt =====
-- pkg/genapi/genapi.go: mdDoc and mdSectionLink.
pub mod Cells
use configmapsecrets.Prelude.{
  ℕ, zero, suc, Text, codes, nat_eq, ltb, Bool, true, false, ◌&&◌, ◌||◌, List, [], ◌∷◌, ◌++◌,
  if◌then◌else◌,
}
use configmapsecrets.Genapi.Texts.{null, replace_char}

-- unicode.IsSpace, on the bytes of a code point in UTF-8: the ASCII spaces,
unfoldable pub is_space : ℕ → Bool
is_space c = (ltb 8 c && ltb c 14) || nat_eq c 32

-- U+0085 and U+00A0,
unfoldable pub is_space_pair : ℕ → ℕ → Bool
is_space_pair c d = nat_eq c 194 && (nat_eq d 133 || nat_eq d 160)

-- and U+1680, U+2000 to U+200A, U+2028, U+2029, U+202F, U+205F and U+3000
unfoldable pub is_space_triple : ℕ → ℕ → ℕ → Bool
is_space_triple c d e =
    (nat_eq c 225 && (nat_eq d 154 && nat_eq e 128))
    || ((nat_eq c 226
          && ((nat_eq d 128
                && ((ltb 127 e && ltb e 139) || (nat_eq e 168 || (nat_eq e 169 || nat_eq e 175))))
              || (nat_eq d 129 && nat_eq e 159)))
        || (nat_eq c 227 && (nat_eq d 128 && nat_eq e 128)))

-- How many bytes the space at the front takes, 0 for no space
unfoldable pub space_width : Text → ℕ
unfolding is_space is_space_pair is_space_triple
space_width [] = 0
space_width (c ∷ []) = if is_space c then 1 else 0
space_width (c ∷ d ∷ []) = if is_space c then 1 else if is_space_pair c d then 2 else 0
space_width (c ∷ d ∷ e ∷ s) =
    if is_space c
    then 1
    else if is_space_pair c d
    then 2
    else if is_space_triple c d e
    then 3
    else 0

-- The text without its next `skipped` bytes, the rest of a space, and the spaces behind them
unfoldable pub trim_behind : ℕ → Text → Text
unfolding space_width
trim_behind skipped [] = []
trim_behind (suc skipped) (c ∷ s) = trim_behind skipped s
trim_behind zero (c ∷ s) = elim (space_width (c ∷ s)) [
  | zero ↦ c ∷ s
  | suc skipped ↦ trim_behind skipped s
]

-- strings.TrimLeftFunc and strings.TrimRightFunc with unicode.IsSpace
unfoldable pub trim_left : Text → Text
unfolding trim_behind
trim_left s = trim_behind 0 s

unfoldable pub trim_right : Text → Text
unfolding trim_left
trim_right [] = []
trim_right (c ∷ s) = let rest = trim_right s in if null (trim_left (c ∷ s)) then [] else c ∷ rest

-- strings.TrimSpace
unfoldable pub trim_space : Text → Text
unfolding trim_left trim_right
trim_space s = trim_right (trim_left s)

-- strings.Replace(doc, "\\\"", "\"", -1)
unfoldable pub unescape_quotes : Text → Text
unescape_quotes [] = []
unescape_quotes (c ∷ []) = c ∷ []
unescape_quotes (c ∷ d ∷ s) =
    let skipped = unescape_quotes s in
    let kept = unescape_quotes (d ∷ s) in
    if nat_eq c b'\\' && nat_eq d b'"' then b'"' ∷ skipped else c ∷ kept

-- mdDoc
unfoldable pub md_doc : Text → Text
unfolding replace_char unescape_quotes trim_space
md_doc doc =
    let doc = unescape_quotes doc in
    let doc = replace_char b'"' (codes "\\\"") doc in
    let doc = replace_char 10 (codes "<br/>") doc in
    let doc = replace_char 9 (codes "\\t") doc in
    let doc = replace_char b'|' (codes "\\|") doc in trim_space doc

-- mdSectionLink, with strings.ToLower on the letters beyond ASCII as the argument `lower`
unfoldable pub md_section_link : (Text → Text) → Text → Text
unfolding replace_char
md_section_link lower name =
    let link = replace_char b' ' (codes "-") (lower name) in
    codes "[" ++ (name ++ (codes "](#" ++ (link ++ codes ")")))
