-- ===== src/Genapi/Docs/Dashes.antt =====
-- What fmtRawDoc leaves out.
use configmapsecrets.Prelude.{ℕ, Text, Bool, [], ◌∷◌, ◌++◌, ◌≡◌, refl}
use configmapsecrets.Genapi.Docs.{has_prefix, dashes, before_dashes, fmt_raw_doc}

-- Three dashes are found or not before anything that follows them.
prefix-dashes :
    (c : ℕ) (s t u : Text)
    → has_prefix dashes (c ∷ (s ++ (dashes ++ t))) ≡ has_prefix dashes (c ∷ (s ++ (dashes ++ u)))
unfolding has_prefix
prefix-dashes c [] t u = refl
prefix-dashes c (a ∷ []) t u = refl
prefix-dashes c (a ∷ b ∷ s) t u = refl

before_dashes-append :
    (s t u : Text) → before_dashes (s ++ (dashes ++ t)) ≡ before_dashes (s ++ (dashes ++ u))
unfolding before_dashes has_prefix
before_dashes-append [] t u = refl
before_dashes-append (c ∷ s) t u = rw (prefix-dashes c s t u, before_dashes-append s t u) refl

-- Whatever follows three dashes in a doc, the result of fmtRawDoc is the same.
pub fmt_raw_doc-dashes :
    (is_url : Text → Bool) (s t u : Text)
    → fmt_raw_doc is_url (s ++ (dashes ++ t)) ≡ fmt_raw_doc is_url (s ++ (dashes ++ u))
unfolding fmt_raw_doc
fmt_raw_doc-dashes is_url s t u = rw (before_dashes-append s t u) refl
