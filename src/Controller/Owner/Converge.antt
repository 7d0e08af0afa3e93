-- ===== src/Controller/Owner/Converge.antt =====
-- When shouldUpdate asks for a write.
use configmapsecrets.Prelude.{
  Text, text_eq, text_eq_iff, text_equality, Map, lookup, true, false, ◌≡◌, refl, ℕ, nat_eq, Option,
  none, some, [], ◌∷◌, arith,
}
use configmapsecrets.Prelude.Maps.{IsMap}
use configmapsecrets.Api.{ConfigMapSecret, Secret}
use configmapsecrets.Runtime.{Library}
use configmapsecrets.Controller.Owner.{size, all_in, same_map, should_update}
use configmapsecrets.Controller.Render.{expand_all, secret_of}
use configmapsecrets.Controller.Sync.{updated}

text_eq_self : (s : Text) → text_eq s s ≡ true
text_eq_self s = (text_eq_iff s s).1 refl

all_in-cons :
    (a b : Map Text Text) (k v : Text)
    → lookup k a ≡ none
    → all_in a b ≡ true
    → all_in a ((k, v) ∷ b) ≡ true
unfolding all_in lookup
all_in-cons [] b k v n h = refl
all_in-cons ((j, w) ∷ a) b k v n h =
    ground (arith, all_in-cons a b k v, text_eq_iff j k, text_eq_iff k j)

all_in_refl : (a : Map Text Text) → IsMap a → all_in a a ≡ true
unfolding all_in lookup
all_in_refl [] h = refl
all_in_refl ((k, v) ∷ a) h =
    ground (arith, all_in-cons a a k v h.0 (all_in_refl a h.1), text_eq_self k, text_eq_self v)

-- A map that may be nil, with no key twice
abbrev pub IsMap? : Option (Map Text Text) → Type 0
IsMap? none = Unit
IsMap? (some m) = IsMap m

nat_eq_self : (n : ℕ) → nat_eq n n ≡ true
nat_eq_self n = ground arith

same_map_refl : (m : Option (Map Text Text)) → IsMap? m → same_map m m ≡ true
unfolding same_map
same_map_refl none h = refl
same_map_refl (some m) h = rw (nat_eq_self (size m), all_in_refl m h)

-- Once the fields are copied there is nothing left to update: shouldUpdate is false of the updated
-- Secret and the rendered one, whose maps hold no key twice.
pub should_update-updated :
    (found secret : Secret)
    → IsMap? secret.labels
    → IsMap? secret.annotations
    → IsMap? secret.secret_data
    → should_update (updated found secret) secret ≡ false
unfolding should_update updated
should_update-updated found secret l a d = ground (
  arith,
  text_eq_self secret.secret_type,
  same_map_refl secret.labels l,
  same_map_refl secret.annotations a,
  same_map_refl secret.secret_data d,
)

-- A template with no data renders to a map that is empty and not nil, so a found Secret whose data
-- is nil is written again, whatever its other fields are.
pub should_update-no_data :
    (lib : Library) (cms : ConfigMapSecret) (vars : Map Text Text) (found : Secret)
    → cms.spec.template.text_data ≡ []
    → cms.spec.template.binary_data ≡ []
    → found.secret_data ≡ none
    → should_update found (secret_of lib cms vars) ≡ true
unfolding should_update secret_of same_map expand_all
should_update-no_data lib cms vars found t b f = ground arith
