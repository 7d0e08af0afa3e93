-- ===== src/Controller/MakeVariables/Plain/Gets.antt =====
-- A Secret or a ConfigMap is the same from the cache as from the client.
use configmapsecrets.Prelude.{
  Text, text_equality, lookup, Bool, Option, Option-cases, none, some, ◌≡◌, refl, arith, inl, inr,
}
use configmapsecrets.Api.{Secret, ConfigMap, SecretVarsSource, ConfigMapVarsSource}
use configmapsecrets.RefMap.{named}
use configmapsecrets.Runtime.{Result, ok, err, ForeignError, Library, Client, State}
use configmapsecrets.Controller.Variables.{
  Locals, fetch_secret, secret, fetch_config_map, config_map, fetched_secret, fetched_config_map,
}
use configmapsecrets.Controller.MakeVariables.Plain.{
  read_secret, read_config_map, Reading, Made, read_as, lift,
}
use configmapsecrets.Controller.MakeVariables.Plain.Simulation.{
  insert-IsCached, Stands, Same, Simulates,
}

-- Every Get of the namespace answers as the reading, and changes nothing.
pub record Reads {W : Type 0} (client : Client W) (namespace : Text) (reading : Reading)
    : Type 0 where
  pub secret :
      (name : Text) (w : W) → client.get_secret (named namespace name) w ≡ (reading.secrets name, w)
  pub config_map :
      (name : Text) (w : W)
      → client.get_config_map (named namespace name) w ≡ (reading.config_maps name, w)

module _ {W : Type 0} (client : Client W) (lib : Library) (reading : Reading) (s : State W)
    (namespace : Text) (reads : Reads client namespace reading) where
  fetched_secret-Same :
      (name : Text) (optional : Option Bool) (r : Result ForeignError Secret) (l : Locals W)
      (q : Made)
      → reading.secrets name ≡ r
      → Stands reading s l q
      → Same reading s (fetched_secret lib name optional r l) (lift (read_as lib optional r) q)
  unfolding fetched_secret
  fetched_secret-Same name optional (ok x) l q e t = record {
    result = refl;
    left = record {
      vars = t.vars;
      state = t.state;
      secrets = insert-IsCached reading.secrets name x l.secret_cache e (t.secrets);
      config_maps = t.config_maps;
    };
  }
  fetched_secret-Same name optional (err x) l q e t = record { result = refl; left = t }

  secret_hit :
      (ref : SecretVarsSource) (l : Locals W) (x : Secret)
      → lookup ref.name l.secret_cache ≡ some x
      → secret client lib namespace ref l ≡ (ok (some x), l)
  unfolding secret
  secret_hit ref l x e = ground arith

  secret_miss :
      (ref : SecretVarsSource) (l : Locals W)
      → lookup ref.name l.secret_cache ≡ none
      → secret client lib namespace ref l
        ≡ fetched_secret lib ref.name ref.optional (reading.secrets ref.name) l
  unfolding secret fetch_secret
  secret_miss ref l e = ground (arith, reads.secret ref.name l.state.world)

  pub secret-Simulates :
      (ref : SecretVarsSource)
      → Simulates reading s
          (secret client lib namespace ref)
          (read_secret lib reading namespace ref)
  unfolding Simulates read_secret
  secret-Simulates ref l q t = elim (Option-cases (lookup ref.name l.secret_cache)) [
    | inl miss ↦
        rw (secret_miss ref l miss)
          (fetched_secret-Same ref.name ref.optional (reading.secrets ref.name) l q refl t)
    | inr hit ↦
        rw (secret_hit ref l hit.0 hit.1, t.secrets ref.name hit.0 hit.1)
          (record { result = refl; left = t })
  ]

  fetched_config_map-Same :
      (name : Text) (optional : Option Bool) (r : Result ForeignError ConfigMap) (l : Locals W)
      (q : Made)
      → reading.config_maps name ≡ r
      → Stands reading s l q
      → Same reading s (fetched_config_map lib name optional r l) (lift (read_as lib optional r) q)
  unfolding fetched_config_map
  fetched_config_map-Same name optional (ok x) l q e t = record {
    result = refl;
    left = record {
      vars = t.vars;
      state = t.state;
      secrets = t.secrets;
      config_maps = insert-IsCached reading.config_maps name x l.config_map_cache e (t.config_maps);
    };
  }
  fetched_config_map-Same name optional (err x) l q e t = record { result = refl; left = t }

  config_map_hit :
      (ref : ConfigMapVarsSource) (l : Locals W) (x : ConfigMap)
      → lookup ref.name l.config_map_cache ≡ some x
      → config_map client lib namespace ref l ≡ (ok (some x), l)
  unfolding config_map
  config_map_hit ref l x e = ground arith

  config_map_miss :
      (ref : ConfigMapVarsSource) (l : Locals W)
      → lookup ref.name l.config_map_cache ≡ none
      → config_map client lib namespace ref l
        ≡ fetched_config_map lib ref.name ref.optional (reading.config_maps ref.name) l
  unfolding config_map fetch_config_map
  config_map_miss ref l e = ground (arith, reads.config_map ref.name l.state.world)

  pub config_map-Simulates :
      (ref : ConfigMapVarsSource)
      → Simulates reading s
          (config_map client lib namespace ref)
          (read_config_map lib reading namespace ref)
  unfolding Simulates read_config_map
  config_map-Simulates ref l q t = elim (Option-cases (lookup ref.name l.config_map_cache)) [
    | inl miss ↦
        rw (config_map_miss ref l miss)
          (fetched_config_map-Same ref.name ref.optional (reading.config_maps ref.name) l q refl t)
    | inr hit ↦
        rw (config_map_hit ref l hit.0 hit.1, t.config_maps ref.name hit.0 hit.1)
          (record { result = refl; left = t })
  ]
