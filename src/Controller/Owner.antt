-- ===== src/Controller/Owner.antt =====
-- pkg/controllers/configmapsecret_controller.go: setOwner and shouldUpdate.
-- setOwner changes the Secret or the ConfigMapSecret that it is given, so it returns both.
pub mod Laws
pub mod Converge
pub mod Settles
use configmapsecrets.Prelude.{
  Text, text_eq, text_equality, Map, lookup, Bool, true, false, not, ◌&&◌, ◌||◌, Option, none, some,
  List, [], ◌∷◌, ◌++◌, if◌then◌else◌, ℕ, zero, suc, nat_eq,
}
use configmapsecrets.Api.{ConfigMapSecret, Secret, OwnerReference}
use configmapsecrets.Runtime.{
  Result, ok, err, ForeignError, foreign, Error, already_owned, Library, GroupVersionKind,
}
use configmapsecrets.Controller.Variables.{is_set}

-- reflect.DeepEqual on pointers to bool and on owner references
unfoldable pub same_flag : Option Bool → Option Bool → Bool
same_flag none none = true
same_flag (some true) (some true) = true
same_flag (some false) (some false) = true
same_flag _ _ = false

unfoldable pub same_owner : OwnerReference → OwnerReference → Bool
unfolding same_flag
same_owner a b =
    text_eq a.api_version b.api_version
    && (text_eq a.kind b.kind
        && (text_eq a.name b.name
            && (text_eq a.uid b.uid
                && (same_flag a.controller b.controller
                    && same_flag a.block_owner_deletion b.block_owner_deletion))))

-- What the loop of setOwner comes to: no reference is that of a controller, or the first such one
-- belongs to another object, is out of date (here with the list in which it is replaced), or is
-- the one wanted.
pub data Scan : Type 0 where
  no_controller : Scan
  other : OwnerReference → Scan
  outdated : List OwnerReference → Scan
  current : Scan

abbrev pub behind : OwnerReference → Scan → Scan
behind ref (outdated refs) = outdated (ref ∷ refs)
behind ref no_controller = no_controller
behind ref (other found) = other found
behind ref current = current

unfoldable pub scan_owners : Text → OwnerReference → List OwnerReference → Scan
scan_owners uid owner [] = no_controller
scan_owners uid owner (ref ∷ refs) =
    if not (is_set ref.controller)
    then behind ref (scan_owners uid owner refs)
    else if not (text_eq ref.uid uid)
    then other ref
    else if not (same_owner ref owner)
    then outdated (owner ∷ refs)
    else current

-- What setOwner returns: whether the ownership changed, the Secret and the ConfigMapSecret.
pub record Ownership : Type 0 where
  pub changed : Bool
  pub secret : Secret
  pub cms : ConfigMapSecret

unfoldable pub own : OwnerReference → ConfigMapSecret → Secret → Scan → Result Error Ownership
own owner cms secret (other ref) = err (already_owned secret ref)
own owner cms secret (outdated refs) =
    ok (record { changed = true; secret = record secret { owner_references = refs }; cms = cms })
own owner cms secret current = ok (record { changed = false; secret = secret; cms = cms })
-- cms.OwnerReferences = append(secret.OwnerReferences, *owner)
own owner cms secret no_controller = ok (record {
  changed = true;
  secret = secret;
  cms = record cms { owner_references = secret.owner_references ++ owner ∷ [] };
})

abbrev pub own_as :
    Library
    → ConfigMapSecret
    → Secret
    → Result ForeignError GroupVersionKind
    → Result Error Ownership
own_as lib cms secret (err e) = err (foreign e)
own_as lib cms secret (ok gvk) =
    let owner = lib.new_controller_ref cms gvk in
    own owner cms secret (scan_owners cms.uid owner secret.owner_references)

-- setOwner
unfoldable pub set_owner : Library → ConfigMapSecret → Secret → Result Error Ownership
unfolding own scan_owners
set_owner lib cms secret = own_as lib cms secret (lib.gvk_for_object cms)

-- reflect.DeepEqual on maps: both nil, or both not, with as many keys and the same values
unfoldable pub size : Map Text Text → ℕ
size [] = zero
size (_ ∷ m) = suc (size m)

abbrev pub same_text : Option Text → Text → Bool
same_text none v = false
same_text (some w) v = text_eq w v

unfoldable pub all_in : Map Text Text → Map Text Text → Bool
all_in [] b = true
all_in ((k, v) ∷ a) b = same_text (lookup k b) v && all_in a b

unfoldable pub same_map : Option (Map Text Text) → Option (Map Text Text) → Bool
unfolding size all_in
same_map none none = true
same_map (some a) (some b) = nat_eq (size a) (size b) && all_in a b
same_map _ _ = false

-- shouldUpdate
unfoldable pub should_update : Secret → Secret → Bool
should_update a b =
    not (text_eq a.secret_type b.secret_type)
    || (not (same_map a.annotations b.annotations)
        || (not (same_map a.labels b.labels) || not (same_map a.secret_data b.secret_data)))
