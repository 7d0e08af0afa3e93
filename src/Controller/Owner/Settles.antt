-- ===== src/Controller/Owner/Settles.antt =====
-- A second setOwner and a second shouldUpdate, on what sync sends in an update.
use configmapsecrets.Prelude.{
  Text, text_eq, text_eq_iff, Bool, Bool-cases, if_keeps, not, inl, inr, true, false, ◌≡◌, ◌≢◌,
  refl, Option, none, some, List, [], ◌∷◌, arith,
}
use mathlib.Core.Path.{subst}
use configmapsecrets.Api.{ConfigMapSecret, Secret, OwnerReference}
use configmapsecrets.Runtime.{Result, ok, err, Error, Library, GroupVersionKind}
use configmapsecrets.Controller.Owner.{Ownership, own, set_owner, should_update}
use configmapsecrets.Controller.Owner.Converge.{IsMap?, should_update-updated}
use configmapsecrets.Controller.Sync.{updated}
use configmapsecrets.Controller.Variables.{is_set}
use configmapsecrets.Controller.Owner.Laws.{first_controller}
use configmapsecrets.Controller.Owner.{
  same_flag, same_owner, Scan, no_controller, other, outdated, current, behind, scan_owners,
}

same_flag_refl : (o : Option Bool) → same_flag o o ≡ true
unfolding same_flag
same_flag_refl none = refl
same_flag_refl (some true) = refl
same_flag_refl (some false) = refl

same_owner_refl : (o : OwnerReference) → same_owner o o ≡ true
unfolding same_owner
same_owner_refl o = ground (
  arith,
  text_eq_iff o.api_version o.api_version,
  text_eq_iff o.kind o.kind,
  text_eq_iff o.name o.name,
  text_eq_iff o.uid o.uid,
  same_flag_refl o.controller,
  same_flag_refl o.block_owner_deletion,
)

module _ (owner : OwnerReference) (c : is_set owner.controller ≡ true) where
  scan-owner : (refs : List OwnerReference) → scan_owners owner.uid owner (owner ∷ refs) ≡ current
  unfolding scan_owners
  scan-owner refs = ground (arith, c, text_eq_iff owner.uid owner.uid, same_owner_refl owner)

  -- If the scan replaces a reference, a scan of the new list finds nothing to do.
  abbrev IsReplaced : Scan → Type 0
  IsReplaced (outdated refs) = scan_owners owner.uid owner refs ≡ current
  IsReplaced _ = Unit

  behind-IsReplaced :
      (ref : OwnerReference) (s : Scan)
      → is_set ref.controller ≡ false
      → IsReplaced s
      → IsReplaced (behind ref s)
  unfolding scan_owners
  behind-IsReplaced ref (outdated refs) e h = ground (arith, e, h)
  behind-IsReplaced ref no_controller e h = tt
  behind-IsReplaced ref (other r) e h = tt
  behind-IsReplaced ref current e h = tt

  scan-IsReplaced : (refs : List OwnerReference) → IsReplaced (scan_owners owner.uid owner refs)
  unfolding scan_owners
  scan-IsReplaced [] = tt
  scan-IsReplaced (ref ∷ refs) = elim (Bool-cases (is_set ref.controller)) [
    | inl e ↦ rw e (
        if_keeps IsReplaced (not (text_eq ref.uid owner.uid)) (other ref) _ tt (
          if_keeps IsReplaced (not (same_owner ref owner)) (outdated (owner ∷ refs)) current
            (scan-owner refs) tt))
    | inr e ↦
        rw e (behind-IsReplaced ref (scan_owners owner.uid owner refs) e (scan-IsReplaced refs))
  ]

-- If the scan comes upon no controller, there is none.
abbrev IsUnowned : List OwnerReference → Scan → Type 0
IsUnowned refs no_controller = first_controller refs ≡ none
IsUnowned refs _ = Unit

behind-IsUnowned :
    (ref : OwnerReference) (refs : List OwnerReference) (s : Scan)
    → is_set ref.controller ≡ false
    → IsUnowned refs s
    → IsUnowned (ref ∷ refs) (behind ref s)
unfolding first_controller
behind-IsUnowned ref refs no_controller e h = ground (arith, e, h)
behind-IsUnowned ref refs (outdated rs) e h = tt
behind-IsUnowned ref refs (other r) e h = tt
behind-IsUnowned ref refs current e h = tt

scan-IsUnowned :
    (uid : Text) (owner : OwnerReference) (refs : List OwnerReference)
    → IsUnowned refs (scan_owners uid owner refs)
unfolding scan_owners first_controller
scan-IsUnowned uid owner [] = refl
scan-IsUnowned uid owner (ref ∷ refs) = elim (Bool-cases (is_set ref.controller)) [
  | inl e ↦ rw e (
      if_keeps (IsUnowned (ref ∷ refs)) (not (text_eq ref.uid uid)) (other ref) _ tt (
        if_keeps (IsUnowned (ref ∷ refs)) (not (same_owner ref owner)) (outdated (owner ∷ refs))
          current tt tt))
  | inr e ↦
      rw e
        (behind-IsUnowned ref refs (scan_owners uid owner refs) e (scan-IsUnowned uid owner refs))
]

-- setOwner finds nothing to do on the Secret that sync sends after it.
abbrev IsDone : Library → Secret → Result Error Ownership → Type 0
IsDone lib secret (err e) = Unit
IsDone lib secret (ok o) =
    set_owner lib o.cms (updated o.secret secret)
    ≡ ok (record { changed = false; secret = updated o.secret secret; cms = o.cms })

module _ (lib : Library) (cms : ConfigMapSecret) (secret : Secret) (gvk : GroupVersionKind)
    (kind : lib.gvk_for_object cms ≡ ok gvk) (uid : (lib.new_controller_ref cms gvk).uid ≡ cms.uid)
    (controller : is_set (lib.new_controller_ref cms gvk).controller ≡ true) where
  abbrev owner : OwnerReference
  owner = lib.new_controller_ref cms gvk

  set_owner-current :
      (x : Secret)
      → scan_owners owner.uid owner x.owner_references ≡ current
      → set_owner lib cms x ≡ ok (record { changed = false; secret = x; cms = cms })
  unfolding set_owner own
  set_owner-current x h =
      let h' =
        subst (λ u. scan_owners u (lib.new_controller_ref cms gvk) x.owner_references ≡ current) uid
          h in
      rw (kind, h') refl

  own-IsDone :
      (found : Secret) (scan : Scan)
      → scan_owners owner.uid owner found.owner_references ≡ scan
      → first_controller found.owner_references ≢ none
      → IsReplaced owner controller scan
      → IsUnowned found.owner_references scan
      → IsDone lib secret (own owner cms found scan)
  unfolding own updated
  own-IsDone found (other ref) e f i j = tt
  own-IsDone found no_controller e f i j = elim (f j) [ ]
  own-IsDone found (outdated refs) e f i j =
      set_owner-current (updated (record found { owner_references = refs }) secret) i
  own-IsDone found current e f i j = set_owner-current (updated found secret) e

  set_owner-IsDone :
      (found : Secret)
      → first_controller found.owner_references ≢ none
      → IsDone lib secret (set_owner lib cms found)
  unfolding set_owner own
  set_owner-IsDone found f =
      let refs = found.owner_references in
      let done =
        own-IsDone found (scan_owners owner.uid owner refs) refl f
          (scan-IsReplaced owner controller refs) (scan-IsUnowned owner.uid owner refs) in
      rw kind
        (subst (λ u. IsDone lib secret (own owner cms found (scan_owners u owner refs))) uid done)

  -- Where the wanted reference is a controller's with the UID of the ConfigMapSecret, the Secret that
  -- was found has a controller reference, and no map of the rendered one holds a key twice: if
  -- setOwner accepts the Secret that was found, then of the Secret that sync sends in its update
  -- setOwner reports no change and shouldUpdate is false, so that neither asks for a second update.
  pub set_owner-updated :
      (found : Secret) (o : Ownership)
      → IsMap? secret.labels
      → IsMap? secret.annotations
      → IsMap? secret.secret_data
      → first_controller found.owner_references ≢ none
      → set_owner lib cms found ≡ ok o
      → (set_owner lib o.cms (updated o.secret secret)
          ≡ ok (record { changed = false; secret = updated o.secret secret; cms = o.cms }))
        × (should_update (updated o.secret secret) secret ≡ false)
  set_owner-updated found o l a d f e = (
    subst (IsDone lib secret) e (set_owner-IsDone found f),
    should_update-updated o.secret secret l a d,
  )
