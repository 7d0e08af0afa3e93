-- ===== src/Tests/Objects.antt =====
-- The owner references, the rendered data and the references of a spec.
use configmapsecrets.Prelude.{
  codes, text_eq, text_equality, lookup, true, false, none, some, [], ◌∷◌, ◌≡◌, refl,
}
use configmapsecrets.Api.{Secret, OwnerReference}
use configmapsecrets.RefMap.Assign.{mentions}
use configmapsecrets.Runtime.{ok}
use configmapsecrets.Controller.Variables.{items}
use configmapsecrets.Controller.Owner.{
  Ownership, set_owner, own, scan_owners, same_owner, same_flag, should_update,
}
use configmapsecrets.Controller.Owner.Settles.{set_owner-updated}
use configmapsecrets.Controller.Sync.{updated}
use configmapsecrets.Controller.Owner.Laws.{
  first_controller, other_references, set_owner-unowned, set_owner-mine,
}
use configmapsecrets.Controller.Owner.Converge.{should_update-no_data}
use configmapsecrets.Controller.Render.{secret_of}
use configmapsecrets.Controller.Render.Data.{lookup-secret_of}
use configmapsecrets.Controller.Refs.{var_refs}
use configmapsecrets.Controller.Refs.Names.{any, mentions-var_refs}
use configmapsecrets.Tests.Sample.{library, app, bare, keys_secret, kind, owner_of}

-- The Secret "keys" has no controller: it is reported as taken, and is not.
set_owner-unowned_example :
    (o : Ownership) × (set_owner library app keys_secret ≡ ok o)
    × (o.changed ≡ true)
    × (o.secret ≡ keys_secret)
    × (first_controller o.secret.owner_references ≡ none)
    × (o.cms.owner_references ≡ owner_of app kind ∷ [])
unfolding first_controller
set_owner-unowned_example = set_owner-unowned library app keys_secret kind refl refl

abbrev stranger : OwnerReference
stranger = record (owner_of app kind) { name = codes "other"; uid = codes "u9" }

abbrev taken : Secret
taken = record keys_secret { owner_references = stranger ∷ [] }

-- A reference with an old API version, behind one that is not a controller's
abbrev old : OwnerReference
old = record (owner_of app kind) { api_version = codes "secrets.mz.com/v1alpha0" }

abbrev bystander : OwnerReference
bystander = record stranger { controller = none }

abbrev ours : Secret
ours = record keys_secret { owner_references = bystander ∷ old ∷ [] }

set_owner-mine_example :
    (o : Ownership) × (set_owner library app ours ≡ ok o)
    × (o.changed ≡ true)
    × (o.cms ≡ app)
    × (first_controller o.secret.owner_references ≡ some (owner_of app kind))
    × (other_references o.secret.owner_references ≡ bystander ∷ [])
unfolding first_controller other_references same_owner text_eq
set_owner-mine_example = set_owner-mine library app ours kind refl old refl refl refl

-- What is sent for this Secret, with the data of "keys" under a label
abbrev sent : Secret
sent = record keys_secret { labels = some ((codes "app", codes "x") ∷ []) }

abbrev accepted : Ownership
accepted = record {
  changed = true;
  secret = record ours { owner_references = bystander ∷ owner_of app kind ∷ [] };
  cms = app;
}

set_owner-updated_example :
    (set_owner library accepted.cms (updated accepted.secret sent)
      ≡ ok (record { changed = false; secret = updated accepted.secret sent; cms = accepted.cms }))
    × (should_update (updated accepted.secret sent) sent ≡ false)
unfolding first_controller set_owner own scan_owners same_owner same_flag text_eq lookup
set_owner-updated_example =
    set_owner-updated library app sent kind refl refl refl ours accepted (refl, tt) tt (refl, tt)
      (λ e. cc e) refl

abbrev without_data : Secret
without_data = record keys_secret { secret_data = none }

should_update-no_data_example : should_update without_data (secret_of library bare []) ≡ true
should_update-no_data_example = should_update-no_data library bare [] without_data refl refl refl

lookup-secret_of_example :
    lookup
      (codes "conf")
      (items (secret_of library app ((codes "PASS", codes "x") ∷ [])).secret_data)
    ≡ some (codes "x")
unfolding lookup text_eq
lookup-secret_of_example =
    lookup-secret_of library app ((codes "PASS", codes "x") ∷ []) (codes "conf") (refl, tt) tt

mentions-var_refs_example :
    (mentions (var_refs app.spec.vars_from app.spec.vars).secrets (codes "keys") ≡ true)
    × (mentions (var_refs app.spec.vars_from app.spec.vars).config_maps (codes "keys") ≡ false)
unfolding any text_eq
mentions-var_refs_example = mentions-var_refs app.spec.vars_from app.spec.vars (codes "keys")
