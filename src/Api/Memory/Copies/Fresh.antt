-- ===== src/Api/Memory/Copies/Fresh.antt =====
-- What a deep copy promises: it reads as the original, and all its memory is new.
use mathlib.Core.Path.{subst}
use configmapsecrets.Prelude.{
  Text, Bool-cases, inl, inr, ap, text_eq, text_eq_iff, text_equality, Map, lookup, insert,
  lookup-insert, Option, none, some, List, [], ◌∷◌, ℕ, suc, ◌≤◌, ◌≡◌, refl, sym, ◌∙◌, arith,
}
use configmapsecrets.Api.Memory.{Ref, Alloc}
use configmapsecrets.Api.Memory.Copies.{
  ◌>>=◌, pure, allocate, unless_nil, copy_elements, copy_entries, copy_slice, copy_table,
}

-- From an address that is at least `low`, the action goes on to one, and its value has `P`.
pub record Yields {A : Type 0} (low : ℕ) (P : A → Type 0) (action : Alloc A) : Type 0 where
  pub at : (next : ℕ) → low ≤ next → (low ≤ (action next).1) × P (action next).0

pub pure-Yields : {A : Type 0} {P : A → Type 0} (low : ℕ) (a : A) → P a → Yields low P (pure a)
pure-Yields low a p = record { at = λ next h. (h, p) }

pub bind-Yields :
    {A B : Type 0} {P : A → Type 0} {Q : B → Type 0} (low : ℕ) (action : Alloc A)
    (then' : A → Alloc B)
    → Yields low P action
    → ((a : A) → P a → Yields low Q (then' a))
    → Yields low Q (action >>= then')
unfolding ◌>>=◌
bind-Yields low action then' y f = record {
  at = λ next h. let (h', p) = y.at next h in (f (action next).0 p).at (action next).1 h';
}

-- What lies at the address of the copy is at new memory; nil stays nil.
abbrev pub IsFresh : {A : Type 0} → ℕ → (A → A → Type 0) → Option (Ref A) → Option (Ref A) → Type 0
IsFresh low R none none = Unit
IsFresh low R (some a) (some b) = (low ≤ b.address) × R a.held b.held
IsFresh low R _ _ = ⊥

-- The slices have the same length, and their elements are copies.
abbrev pub All2 : {A : Type 0} → (A → A → Type 0) → List A → List A → Type 0
All2 R [] [] = Unit
All2 R (a ∷ as') (b ∷ bs) = R a b × All2 R as' bs
All2 R _ _ = ⊥

-- The maps have the same keys, and their values are copies.
abbrev pub SameAt : {A : Type 0} → (A → A → Type 0) → Option A → Option A → Type 0
SameAt R none none = Unit
SameAt R (some a) (some b) = R a b
SameAt R _ _ = ⊥

abbrev pub SameMap : {A : Type 0} → (A → A → Type 0) → Map Text A → Map Text A → Type 0
SameMap R m m' = (key : Text) → SameAt R (lookup key m) (lookup key m')

-- The copy of each value that is `IsValid` yields one that `R` relates to it.
abbrev pub Copies : {A : Type 0} → ℕ → (A → Type 0) → (A → A → Type 0) → (A → Alloc A) → Type 0
Copies {A} low IsValid R copy = (a : A) → IsValid a → Yields low (R a) (copy a)

-- What is at the address, if there is one, is valid.
abbrev pub Held : {A : Type 0} → (A → Type 0) → Option (Ref A) → Type 0
Held IsValid none = Unit
Held IsValid (some a) = IsValid a.held

abbrev pub Each : {A : Type 0} → (A → Type 0) → List A → Type 0
Each IsValid [] = Unit
Each IsValid (a ∷ as') = IsValid a × Each IsValid as'

module _ {A : Type 0} (low : ℕ) (IsValid : A → Type 0) (R : A → A → Type 0) (copy : A → Alloc A)
    (c : Copies low IsValid R copy) where
  allocate-Yields :
      (a : A) → IsValid a → Yields low (λ b. (low ≤ b.address) × R a b.held) (allocate (copy a))
  unfolding allocate
  allocate-Yields a v = record {
    at = λ next h. let (h', r) = (c a v).at (suc next) (ground arith) in (h', (h, r));
  }

  pub unless_nil-Copies : Copies low (Held IsValid) (IsFresh low R) (unless_nil copy)
  unfolding unless_nil
  unless_nil-Copies none v = pure-Yields low none tt
  unless_nil-Copies (some a) v =
      bind-Yields low _ _ (allocate-Yields a.held v) (λ b p. pure-Yields low (some b) p)

  copy_elements-Copies : Copies low (Each IsValid) (All2 R) (copy_elements copy)
  unfolding copy_elements
  copy_elements-Copies [] v = pure-Yields low [] tt
  copy_elements-Copies (a ∷ as') (v, vs) = bind-Yields low _ _ (c a v) (λ b p.
      bind-Yields low _ _ (copy_elements-Copies as' vs) (λ bs ps. pure-Yields low (b ∷ bs) (p, ps)))

module _ {A : Type 0} (R : A → A → Type 0) where
  -- The value of a key after a copy onto a map that had `before` for it
  abbrev IsAt : Option A → Option A → Option A → Type 0
  IsAt none before after = after ≡ before
  IsAt (some a) before after = SameAt R (some a) after

  abbrev IsCopiedOver : Map Text A → Map Text A → Map Text A → Type 0
  IsCopiedOver m before after =
      (key : Text) → IsAt (lookup key m) (lookup key before) (lookup key after)

  insert-IsCopiedOver :
      (key : Text) (a b : A) (m before after : Map Text A)
      → lookup key m ≡ none
      → R a b
      → IsCopiedOver m (insert key b before) after
      → IsCopiedOver ((key, a) ∷ m) before after
  unfolding lookup
  insert-IsCopiedOver key a b m before after e r h k = elim (Bool-cases (text_eq key k)) [
    | inl t ↦
        let none' : lookup k m ≡ none = ap (λ j. lookup j m) (sym ((text_eq_iff key k).0 t)) ∙ e in
        let put : lookup k (insert key b before) ≡ some b =
          lookup-insert key k b before ∙ ground (arith, t) in
        let after' : lookup k after ≡ some b =
          subst (λ o. IsAt o (lookup k (insert key b before)) (lookup k after)) none' (h k) ∙ put in
        rw (t, after') r
    | inr f ↦
        let kept : lookup k (insert key b before) ≡ lookup k before =
          lookup-insert key k b before ∙ ground (arith, f) in
        rw f (subst (λ o. IsAt (lookup k m) o (lookup k after)) kept (h k))
  ]

-- No key is twice in the map, and its values are valid.
abbrev pub IsTable : {A : Type 0} → (A → Type 0) → Map Text A → Type 0
IsTable IsValid [] = Unit
IsTable IsValid ((key, a) ∷ m) = (lookup key m ≡ none) × IsValid a × IsTable IsValid m

module _ {A : Type 0} (low : ℕ) (IsValid : A → Type 0) (R : A → A → Type 0) (copy : A → Alloc A)
    (c : Copies low IsValid R copy) where
  copy_entries-Yields :
      (m before : Map Text A)
      → IsTable IsValid m
      → Yields low (IsCopiedOver R m before) (copy_entries copy m before)
  unfolding copy_entries lookup
  copy_entries-Yields [] before v = pure-Yields low before (λ key. refl)
  copy_entries-Yields ((key, a) ∷ m) before (e, v, vs) = bind-Yields low _ _ (c a v) (λ b r.
      record {
        at = λ next h.
            let (h', p) = (copy_entries-Yields m (insert key b before) vs).at next h in
            (h', insert-IsCopiedOver R key a b m before _ e r p);
      })

  pub copy_slice-Copies : Copies low (Held (Each IsValid)) (IsFresh low (All2 R)) (copy_slice copy)
  copy_slice-Copies =
      unless_nil-Copies low (Each IsValid) (All2 R) (copy_elements copy)
        (copy_elements-Copies low IsValid R copy c)

  copy_entries-Copies : Copies low (IsTable IsValid) (SameMap R) (λ m. copy_entries copy m [])
  unfolding lookup
  copy_entries-Copies m v = record {
    at = λ next h.
        let (h', p) = (copy_entries-Yields m [] v).at next h in
        (h', λ key. from_none (lookup key m) _ (p key));
  }
    where
      from_none : (o o' : Option A) → IsAt R o none o' → SameAt R o o'
      from_none none o' e = subst (SameAt R none) (sym e) tt
      from_none (some a) o' r = r

  pub copy_table-Copies :
      Copies low (Held (IsTable IsValid)) (IsFresh low (SameMap R)) (copy_table copy)
  copy_table-Copies =
      unless_nil-Copies low (IsTable IsValid) (SameMap R) (λ m. copy_entries copy m [])
        copy_entries-Copies
