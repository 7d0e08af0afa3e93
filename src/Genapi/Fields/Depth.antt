-- ===== src/Genapi/Fields/Depth.antt =====
-- How much fuel structFields takes: as much as structs are inlined in one another.
use configmapsecrets.Prelude.{
  ℕ, zero, suc, ◌≤◌, Text, Bool, Bool-cases, true, ◌&&◌, Option, none, some, is_some, List, [], ◌∷◌,
  ◌≡◌, refl, arith, inl, inr,
}
use configmapsecrets.Genapi.Tags.{parse, contains}
use configmapsecrets.Genapi.Packages.{GoType, Field}
use configmapsecrets.Genapi.Fields.{
  StructField, ParsedStruct, Packages, inline, find_struct, appended, added, fields_in,
  struct_fields,
}

unfoldable pub is_inline : StructField → Bool
is_inline f = f.exported && contains (parse f.json) inline

-- Every field of the list that is inlined has a struct as its type that is found and is in P.
abbrev pub AllInline {ℓ} : Packages → (ParsedStruct → Type ℓ) → List StructField → Type ℓ
AllInline pkgs P [] = Unit
AllInline pkgs P (f ∷ fields) =
    (is_inline f ≡ true → (y : ParsedStruct) × (find_struct pkgs f.field_type ≡ some y) × P y)
    × AllInline pkgs P fields

-- The struct has structs inlined in it that are found, down to a depth less than this.
abbrev pub IsNested : ℕ → Packages → ParsedStruct → Type 0
IsNested zero pkgs x = ⊥
IsNested (suc depth) pkgs x = AllInline pkgs (IsNested depth pkgs) x.fields

-- Two ways to inline a type have the same result, which is one.
Agree : Option (List Field) → Option (List Field) → Type 0
Agree a b = (a ≡ b) × (is_some a ≡ true)

appended-is_some :
    (a b : Option (List Field))
    → is_some a ≡ true
    → is_some b ≡ true
    → is_some (appended a b) ≡ true
appended-is_some none b h k = h
appended-is_some (some as') none h k = k
appended-is_some (some as') (some bs) h k = refl

appended-Agree :
    (a b c d : Option (List Field)) → Agree a b → Agree c d → Agree (appended a c) (appended b d)
unfolding Agree
appended-Agree a b c d p q = (cc (p.0, q.0), appended-is_some a c (p.1) (q.1))

module _ (is_url : Text → Bool) (pkgs : Packages) where
  added-Agree {ℓ} :
      (P : ParsedStruct → Type ℓ) (g h : GoType → Option (List Field)) (x : ParsedStruct)
      (f : StructField)
      → ((t : GoType) (y : ParsedStruct) → find_struct pkgs t ≡ some y → P y → Agree (g t) (h t))
      → (is_inline f ≡ true → (y : ParsedStruct) × (find_struct pkgs f.field_type ≡ some y) × P y)
      → Agree (added g is_url x f) (added h is_url x f)
  unfolding added Agree is_inline
  added-Agree P g h x f k i = elim (Bool-cases f.exported) [
    | inl e ↦ elim (Bool-cases (contains (parse f.json) inline)) [
      | inl c ↦ let (y, found, py) = i (rw (e, c) refl) in rw (e, c) (k f.field_type y found py)
      | inr c ↦ rw (e, c) (refl, refl)
    ]
    | inr e ↦ rw e (refl, refl)
  ]

  fields_in-Agree {ℓ} :
      (P : ParsedStruct → Type ℓ) (g h : GoType → Option (List Field)) (x : ParsedStruct)
      (fields : List StructField)
      → ((t : GoType) (y : ParsedStruct) → find_struct pkgs t ≡ some y → P y → Agree (g t) (h t))
      → AllInline pkgs P fields
      → Agree (fields_in g is_url x fields) (fields_in h is_url x fields)
  unfolding fields_in
  fields_in-Agree P g h x [] k i = unfold Agree in (refl, refl)
  fields_in-Agree P g h x (f ∷ fields) k i =
      appended-Agree (added g is_url x f) (added h is_url x f) (fields_in g is_url x fields)
        (fields_in h is_url x fields) (added-Agree P g h x f k (i.0))
        (fields_in-Agree P g h x fields k (i.1))

  struct_fields-Agree :
      (depth fuel : ℕ) (x : ParsedStruct)
      → IsNested depth pkgs x
      → depth ≤ fuel
      → Agree (struct_fields fuel is_url pkgs x) (struct_fields depth is_url pkgs x)
  unfolding struct_fields
  struct_fields-Agree zero fuel x n le = absurd n
  struct_fields-Agree (suc depth) zero x n le = let no : ⊥ = omega arith in absurd no
  struct_fields-Agree (suc depth) (suc fuel) x n le =
      fields_in-Agree (IsNested depth pkgs) _ _ x x.fields
        (λ t y e p. rw e (struct_fields-Agree depth fuel y p (omega arith))) n

  -- Where the structs that are inlined in one another are found, at a depth that the fuel reaches,
  -- structFields has a result, and more fuel does not change it.
  pub struct_fields-fuel :
      (depth fuel : ℕ) (x : ParsedStruct)
      → IsNested depth pkgs x
      → depth ≤ fuel
      → (struct_fields fuel is_url pkgs x ≡ struct_fields depth is_url pkgs x)
        × (is_some (struct_fields fuel is_url pkgs x) ≡ true)
  unfolding Agree
  struct_fields-fuel = struct_fields-Agree
