-- ===== src/Controller/Owner/Laws.antt =====
-- What setOwner makes of the owner references of a Secret, told by its first controller reference.
use configmapsecrets.Prelude.{
  Text, text_eq, Bool, true, false, not, ◌≡◌, refl, ◌∙◌, Option, none, some, List, [], ◌∷◌, ◌++◌,
  arith, if◌then◌else◌,
}
use configmapsecrets.Api.{ConfigMapSecret, Secret, OwnerReference}
use configmapsecrets.Runtime.{ok, Library, GroupVersionKind}
use configmapsecrets.Controller.Variables.{is_set}
use configmapsecrets.Controller.Owner.{
  same_owner, Scan, no_controller, other, outdated, current, behind, scan_owners, Ownership, own,
  set_owner,
}

-- The first reference that is marked as the controller's
unfoldable pub first_controller : List OwnerReference → Option OwnerReference
first_controller [] = none
first_controller (ref ∷ refs) = if is_set ref.controller then some ref else first_controller refs

-- The references that are not the first controller's, in their order
unfoldable pub other_references : List OwnerReference → List OwnerReference
other_references [] = []
other_references (ref ∷ refs) = if is_set ref.controller then refs else ref ∷ other_references refs

scan-unowned :
    (uid : Text) (owner : OwnerReference) (refs : List OwnerReference)
    → first_controller refs ≡ none
    → scan_owners uid owner refs ≡ no_controller
unfolding first_controller scan_owners
scan-unowned uid owner [] h = refl
scan-unowned uid owner (ref ∷ refs) h = ground (arith, scan-unowned uid owner refs)

-- The references after a scan
abbrev after_scan : List OwnerReference → Scan → List OwnerReference
after_scan refs (outdated refs') = refs'
after_scan refs _ = refs

-- Whether the scan changes a reference
abbrev changes : Scan → Bool
changes (outdated _) = true
changes _ = false

abbrev is_mine : Scan → Bool
is_mine (outdated _) = true
is_mine current = true
is_mine _ = false

after_scan-behind :
    (ref : OwnerReference) (refs : List OwnerReference) (s : Scan)
    → (after_scan (ref ∷ refs) (behind ref s) ≡ ref ∷ after_scan refs s)
      × (changes (behind ref s) ≡ changes s)
      × (is_mine (behind ref s) ≡ is_mine s)
after_scan-behind ref refs no_controller = (refl, refl, refl)
after_scan-behind ref refs (other r) = (refl, refl, refl)
after_scan-behind ref refs (outdated rs) = (refl, refl, refl)
after_scan-behind ref refs current = (refl, refl, refl)

module _ (uid : Text) (owner : OwnerReference) (ref : OwnerReference) where
  scan-mine :
      (refs : List OwnerReference)
      → is_set owner.controller ≡ true
      → first_controller refs ≡ some ref
      → text_eq ref.uid uid ≡ true
      → (is_mine (scan_owners uid owner refs) ≡ true)
        × (changes (scan_owners uid owner refs) ≡ not (same_owner ref owner))
        × (first_controller (after_scan refs (scan_owners uid owner refs))
            ≡ some (if same_owner ref owner then ref else owner))
        × (other_references (after_scan refs (scan_owners uid owner refs)) ≡ other_references refs)
  unfolding first_controller scan_owners other_references
  scan-mine [] o h g = cc
  scan-mine (r ∷ refs) o h g =
      ground (arith, scan-mine refs, after_scan-behind r refs (scan_owners uid owner refs))

module _ (lib : Library) (cms : ConfigMapSecret) (secret : Secret) (gvk : GroupVersionKind)
    (known : lib.gvk_for_object cms ≡ ok gvk) where
  set_owner-scan :
      set_owner lib cms secret
      ≡ own
          (lib.new_controller_ref cms gvk)
          cms
          secret
          (scan_owners cms.uid (lib.new_controller_ref cms gvk) secret.owner_references)
  unfolding set_owner
  set_owner-scan = rw known

  -- A Secret without a controller reference is reported as changed, but it is left without one: the
  -- new reference goes to the ConfigMapSecret instead, behind those of the Secret.
  pub set_owner-unowned :
      first_controller secret.owner_references ≡ none
      → (o : Ownership) × (set_owner lib cms secret ≡ ok o)
        × (o.changed ≡ true)
        × (o.secret ≡ secret)
        × (first_controller o.secret.owner_references ≡ none)
        × (o.cms.owner_references ≡ secret.owner_references ++ lib.new_controller_ref cms gvk ∷ [])
  set_owner-unowned h = (
    record {
      changed = true;
      secret = secret;
      cms = record cms {
        owner_references = secret.owner_references ++ lib.new_controller_ref cms gvk ∷ [];
      };
    },
    rw (set_owner-scan, scan-unowned _ _ _ h) (unfold own in refl),
    refl,
    refl,
    h,
    refl,
  )

  own-mine :
      (owner ref : OwnerReference) (s : Scan)
      → (is_mine s ≡ true)
      → (o : Ownership) × (own owner cms secret s ≡ ok o)
        × (o.changed ≡ changes s)
        × (o.cms ≡ cms)
        × (o.secret.owner_references ≡ after_scan secret.owner_references s)
  unfolding own
  own-mine owner ref no_controller h = cc
  own-mine owner ref (other r) h = cc
  own-mine owner ref (outdated rs) h = (
    record { changed = true; secret = record secret { owner_references = rs }; cms = cms },
    refl,
    refl,
    refl,
    refl,
  )
  own-mine owner ref current h =
      (record { changed = false; secret = secret; cms = cms }, refl, refl, refl, refl)

  -- Where the first controller reference has the UID of the ConfigMapSecret, it is the wanted
  -- reference afterwards: it stays if it was equal to that, which is reported as unchanged, and is
  -- replaced by it otherwise, which is reported as changed. The other references keep their order,
  -- and the ConfigMapSecret is not changed.
  pub set_owner-mine :
      (ref : OwnerReference)
      → is_set (lib.new_controller_ref cms gvk).controller ≡ true
      → first_controller secret.owner_references ≡ some ref
      → text_eq ref.uid cms.uid ≡ true
      → (o : Ownership) × (set_owner lib cms secret ≡ ok o)
        × (o.changed ≡ not (same_owner ref (lib.new_controller_ref cms gvk)))
        × (o.cms ≡ cms)
        × (first_controller o.secret.owner_references
            ≡ some (
                if same_owner ref (lib.new_controller_ref cms gvk)
                then ref
                else lib.new_controller_ref cms gvk))
        × (other_references o.secret.owner_references ≡ other_references secret.owner_references)
  set_owner-mine ref c h g =
      let owner = lib.new_controller_ref cms gvk in
      let scan = scan_owners cms.uid owner secret.owner_references in
      let m = scan-mine cms.uid owner ref secret.owner_references c h g in
      let r = own-mine owner ref scan m.0 in
      (r.0, set_owner-scan ∙ r.1, r.2 ∙ m.1, r.3, rw r.4 m.2, rw r.4 m.3)
