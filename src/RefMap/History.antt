-- ===== src/RefMap/History.antt =====
-- What a refMap promises its clients: after any sequence of `set` calls it answers as the relation
-- in which each source has the destinations of its last call.
use configmapsecrets.Prelude.{lookup, Text, Bool, false, ◌≡◌, List, [], ◌∷◌, arith, if◌then◌else◌}
use configmapsecrets.RefMap.{StringSet, RefMap, empty, has, set, srcs, dsts, inner, test}
use configmapsecrets.RefMap.Assign.{mentions, same_src, has-set}
use configmapsecrets.RefMap.Consistent.{
  IsConsistent, set-IsConsistent, empty-IsConsistent, srcs-set,
}

-- A call of `set`, the latest first.
pub record Call : Type 0 where
  pub namespace : Text
  pub src : Text
  pub new : StringSet

unfoldable pub run : List Call → RefMap
run [] = empty
run (c ∷ before) = set (run before) c.namespace c.src c.new

-- Does the last call for this source name the destination?
unfoldable pub latest : List Call → Text → Text → Text → Bool
latest [] n s d = false
latest (c ∷ before) n s d =
    if same_src c.namespace c.src n s then mentions c.new d else latest before n s d

pub run-IsConsistent : (calls : List Call) → IsConsistent (run calls)
unfolding run
run-IsConsistent [] = empty-IsConsistent
run-IsConsistent (c ∷ before) =
    set-IsConsistent (run before) c.namespace c.src c.new (run-IsConsistent before)

run_nil :
    (n s d : Text)
    → (has (run []) n s d ≡ latest [] n s d) × (mentions (srcs (run []) n d) s ≡ latest [] n s d)
unfolding run latest has srcs dsts inner mentions test lookup
run_nil n s d = ground arith

-- After any calls of `set`, read from either end, a refMap shows the destinations that the last
-- call for each source gave: `has` from the source's end, the keys of `srcs` from the other.
pub run-latest :
    (calls : List Call) (n s d : Text)
    → (has (run calls) n s d ≡ latest calls n s d)
      × (mentions (srcs (run calls) n d) s ≡ latest calls n s d)
unfolding run latest
run-latest [] n s d = run_nil n s d
run-latest (c ∷ before) n s d = ground (
  arith,
  has-set (run before) c.namespace c.src c.new n s d,
  srcs-set (run before) c.namespace c.src c.new n s d (run-IsConsistent before),
  run-latest before n s d,
)
