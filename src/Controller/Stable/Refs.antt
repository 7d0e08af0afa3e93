-- ===== src/Controller/Stable/Refs.antt =====
-- The reference maps after Reconcile: only its own call of setRefs changes them.
use configmapsecrets.Prelude.{◌≡◌, refl, List, [], ◌∷◌}
use configmapsecrets.Api.{ConfigMapSecret}
use configmapsecrets.Runtime.{Library, Client, State}
use configmapsecrets.Controller.Refs.{set_refs, var_refs}
use configmapsecrets.Controller.Sync.{sync}
use configmapsecrets.Controller.Reconcile.{cleanup, reconcile_found}
use configmapsecrets.Controller.Keeps.{StableReads}
use configmapsecrets.Controller.Stable.{Mine, Mine-trans, KeepsObject, Stable, Covers, sync-keeps}
use configmapsecrets.Controller.Stable.Reconciling.{All, cleanup-keeps}

-- The two states have the same reference maps.
pub record SameMaps {W V : Type 0} (s : State W) (t : State V) : Type 0 where
  pub secrets : t.secrets ≡ s.secrets
  pub config_maps : t.config_maps ≡ s.config_maps
  pub owned : t.owned ≡ s.owned

pub All-any : {A : Type 0} (l : List A) → All (λ _. Unit) l
All-any [] = tt
All-any (a ∷ l) = (tt, All-any l)

module _ {W : Type 0} (client : Client W) (lib : Library) (s : State W) where
  reads-SameMaps : StableReads client (SameMaps s)
  reads-SameMaps = record {
    get_secret =
        λ n t h. record { secrets = h.secrets; config_maps = h.config_maps; owned = h.owned };
    get_config_map =
        λ n t h. record { secrets = h.secrets; config_maps = h.config_maps; owned = h.owned };
    event = λ es t h. record { secrets = h.secrets; config_maps = h.config_maps; owned = h.owned };
  }

  stable-SameMaps : Stable client (SameMaps s) (λ _. Unit) (λ _. Unit) (λ _. Unit)
  stable-SameMaps = record {
    reads = reads-SameMaps;
    now = λ t h. record { secrets = h.secrets; config_maps = h.config_maps; owned = h.owned };
    missing = λ m t h. record { secrets = h.secrets; config_maps = h.config_maps; owned = h.owned };
    create =
        λ x t _ h. record { secrets = h.secrets; config_maps = h.config_maps; owned = h.owned };
    update =
        λ x t _ h. record { secrets = h.secrets; config_maps = h.config_maps; owned = h.owned };
    status =
        λ c t _ h. record { secrets = h.secrets; config_maps = h.config_maps; owned = h.owned };
    answer = λ c a w _ e. tt;
  }

  covers-any : (cms : ConfigMapSecret) → Covers client lib cms (λ _. Unit) (λ _. Unit) (λ _. Unit)
  covers-any cms = record {
    by_name = λ a b p q m. tt;
    render = λ vars x e. tt;
    got = λ x found w m e. tt;
    mine = λ c m. tt;
    own = λ c m. tt;
  }

  cleanup-SameMaps :
      (cms : ConfigMapSecret) (t : State W) → SameMaps s t → SameMaps s (cleanup client lib cms t).1
  cleanup-SameMaps cms t h =
      cleanup-keeps client lib (SameMaps s) cms (λ _. Unit) t
        (record {
          get = reads-SameMaps.get_secret;
          delete = λ name x w u _ _ _ k. record {
            secrets = k.secrets;
            config_maps = k.config_maps;
            owned = k.owned;
          };
        })
        (All-any _) h

  start-SameMaps : SameMaps s s
  start-SameMaps = record { secrets = refl; config_maps = refl; owned = refl }

  pub sync-SameMaps : (cms : ConfigMapSecret) → SameMaps s (sync client lib cms s).1
  sync-SameMaps cms =
      (sync-keeps client lib (SameMaps s) cms (λ _. Unit) (λ _. Unit) (λ _. Unit) stable-SameMaps
        (covers-any cms) s start-SameMaps).0

  -- Where the server keeps the object at an update of its status, sync returns it with its names and
  -- its spec.
  pub sync-Mine :
      (cms : ConfigMapSecret) → KeepsObject client → Mine cms (sync client lib cms s).0.cms
  sync-Mine cms keeps =
      (sync-keeps client lib (λ _. Unit) cms (λ _. Unit) (Mine cms) (Mine cms)
        (record {
          reads = record {
            get_secret = λ n t h. tt;
            get_config_map = λ n t h. tt;
            event = λ es t h. tt;
          };
          now = λ t h. tt;
          missing = λ m t h. tt;
          create = λ x t m h. tt;
          update = λ x t m h. tt;
          status = λ c t m h. tt;
          answer = λ c a w m e. Mine-trans m (keeps c a w e);
        })
        (record {
          by_name = λ a b p q m. tt;
          render = λ vars x e. tt;
          got = λ x found w m e. tt;
          mine = λ c m. m;
          own = λ c m. m;
        })
        s tt).1

module _ {W : Type 0} (client : Client W) (lib : Library) where
  pub reconcile_found-SameMaps :
      (cms : ConfigMapSecret) (s : State W)
      → SameMaps
          (set_refs cms.namespace cms.name (var_refs cms.spec.vars_from cms.spec.vars) s)
          (reconcile_found client lib cms s).1
  unfolding reconcile_found
  reconcile_found-SameMaps cms s =
      let t = set_refs cms.namespace cms.name (var_refs cms.spec.vars_from cms.spec.vars) s in
      let r = sync client lib cms t in
      cleanup-SameMaps client lib t r.0.cms r.1 (sync-SameMaps client lib t cms)
