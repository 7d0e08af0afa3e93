-- ===== src/Genapi/Tags.antt =====
-- pkg/genapi/internal/jsontags/jsontags.go: the json tags of struct fields.
pub mod Laws
use configmapsecrets.Prelude.{
  ℕ, zero, suc, Text, text_eq, Bool, true, false, Option, none, some, [], ◌∷◌, if◌then◌else◌,
}
use configmapsecrets.Genapi.Texts.{cut}

pub record Tag : Type 0 where
  pub name : Text
  pub options : Text

abbrev pub comma : ℕ
comma = b','

abbrev tag_of : Text → Option (Text × Text) → Tag
tag_of tag none = record { name = tag; options = [] }
tag_of tag (some (name, options)) = record { name = name; options = options }

-- Parse
unfoldable pub parse : Text → Tag
parse tag = tag_of tag (cut comma tag)

-- s, next = s[:i], s[i+1:], or s and the empty text
abbrev pub first_part : Text → Option (Text × Text) → Text × Text
first_part s none = (s, [])
first_part s (some parts) = parts

abbrev pub size : Text → ℕ
size [] = zero
size (_ ∷ s) = suc (size s)

-- The loop of Contains: s gets shorter in each round, so its length is enough fuel.
unfoldable pub contains_in : ℕ → Text → Text → Bool
contains_in _ [] option = false
contains_in zero (_ ∷ _) option = false
contains_in (suc fuel) (c ∷ s) option =
    let (part, next) = first_part (c ∷ s) (cut comma (c ∷ s)) in
    let rest = contains_in fuel next option in if text_eq part option then true else rest

-- Contains
unfoldable pub contains : Tag → Text → Bool
unfolding contains_in
contains tag option = contains_in (size tag.options) tag.options option
