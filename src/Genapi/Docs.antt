-- ===== src/Genapi/Docs.antt =====
-- pkg/genapi/genapi.go: fmtRawDoc and hasComment.
pub mod Dashes
use configmapsecrets.Prelude.{
  ℕ, Text, codes, text_eq, nat_eq, Bool, true, false, ◌&&◌, ◌||◌, not, Option, none, some, List, [],
  ◌∷◌, ◌++◌, if◌then◌else◌,
}
use configmapsecrets.Genapi.Texts.{null, split}
use configmapsecrets.Genapi.Markdown.{trim_right, trim_space}

-- strings.HasPrefix(s, prefix)
unfoldable pub has_prefix : Text → Text → Bool
has_prefix [] s = true
has_prefix (p ∷ prefix) [] = false
has_prefix (p ∷ prefix) (c ∷ s) = nat_eq p c && has_prefix prefix s

-- strings.TrimPrefix
unfoldable pub trim_prefix : Text → Text → Text
trim_prefix [] s = s
trim_prefix (p ∷ prefix) [] = []
trim_prefix (p ∷ prefix) (c ∷ s) = trim_prefix prefix s

abbrev pub dashes : Text
dashes = codes "---"

-- strings.Split(rawDoc, "---")[0]
unfoldable pub before_dashes : Text → Text
unfolding has_prefix
before_dashes [] = []
before_dashes (c ∷ s) =
    let rest = before_dashes s in if has_prefix dashes (c ∷ s) then [] else c ∷ rest

-- strings.TrimRight(line, " ") and strings.TrimLeft(line, " ")
unfoldable pub trim_right_blanks : Text → Text
trim_right_blanks [] = []
trim_right_blanks (c ∷ s) =
    let rest = trim_right_blanks s in if null rest && nat_eq c 32 then [] else c ∷ rest

unfoldable pub trim_left_blanks : Text → Text
trim_left_blanks [] = []
trim_left_blanks (c ∷ s) = let rest = trim_left_blanks s in if nat_eq c 32 then rest else c ∷ s

-- strings.TrimSuffix(s, ".")
unfoldable pub trim_period : Text → Text
trim_period [] = []
trim_period (c ∷ s) = let rest = trim_period s in if null s && nat_eq c b'.' then [] else c ∷ rest

abbrev more_info : Text
more_info = codes "More info:"

-- What the default case makes of the buffer and the line; `is_url` says whether url.Parse succeeds.
unfoldable pub write_line : (Text → Bool) → Text → Text → Text
unfolding has_prefix trim_prefix trim_period
write_line is_url buffer line =
    if has_prefix more_info line
    then (let suffix = trim_space (trim_period (trim_prefix more_info line)) in
        buffer ++ (if is_url suffix then codes "[More info](" ++ (suffix ++ codes ").") else line))
    else if has_prefix (codes " ") line || has_prefix (9 ∷ []) line
    then trim_right buffer ++ (10 ∷ (line ++ (10 ∷ [])))
    else buffer ++ (line ++ (32 ∷ []))

-- The cases of the loop
unfoldable pub add_line : (Text → Bool) → Text → Text → Text
unfolding write_line has_prefix trim_right_blanks trim_left_blanks
add_line is_url buffer raw =
    let line = trim_right_blanks raw in
    let leading = trim_left_blanks line in
    if null line
    then trim_right buffer ++ (10 ∷ 10 ∷ [])
    else if has_prefix (codes "TODO") leading
    then buffer
    else if has_prefix (codes "+") leading
    then buffer
    else write_line is_url buffer line

unfoldable pub add_lines : (Text → Bool) → Text → List Text → Text
unfolding add_line
add_lines is_url buffer [] = buffer
add_lines is_url buffer (line ∷ lines) = add_lines is_url (add_line is_url buffer line) lines

-- fmtRawDoc
unfoldable pub fmt_raw_doc : (Text → Bool) → Text → Text
unfolding add_lines before_dashes
fmt_raw_doc is_url raw_doc = trim_space (add_lines is_url [] (split 10 (before_dashes raw_doc)))

-- ast.CommentGroup: the comments of its list, and what its method Text returns
pub record CommentGroup : Type 0 where
  pub comments : List Text
  pub text : Text

unfoldable pub any_comment : List Text → Text → Bool
any_comment [] comment = false
any_comment (s ∷ comments) comment =
    let rest = any_comment comments comment in if text_eq (trim_space s) comment then true else rest

-- hasComment; none is the nil group
unfoldable pub has_comment : Option CommentGroup → Text → Bool
unfolding any_comment
has_comment none comment = false
has_comment (some group) comment = any_comment group.comments comment

-- The method Text, which a nil group has too
abbrev pub text_of : Option CommentGroup → Text
text_of none = []
text_of (some group) = group.text
