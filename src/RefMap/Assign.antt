-- ===== src/RefMap/Assign.antt =====
-- `set` of refmap.go as an assignment: what every entry is afterwards.
use configmapsecrets.Prelude.{
  Text, lookup, Bool, true, false, not, ◌&&◌, ◌≡◌, [], ◌∷◌, arith, if◌then◌else◌, text_eq,
  text_eq_iff, text_equality, is_some,
}
use configmapsecrets.RefMap.{
  named, same_name, StringSet, test, RefMap, dsts, srcs, has, add, rem, drop_stale, add_missing,
  set,
}
use configmapsecrets.RefMap.Edges.{test-link, test-unlink}

-- The keys of a set, whatever they are mapped to.
unfoldable pub mentions : StringSet → Text → Bool
mentions s k = is_some (lookup k s)

-- Is this the source that is set?
unfoldable pub same_src : Text → Text → Text → Text → Bool
unfolding same_name
same_src n s n' s' = text_eq n n' && text_eq s s'

module _ (m : RefMap) (n s d n' s' d' : Text) where
  pub has-add :
      has (add m n s d) n' s' d'
      ≡ (if same_src n s n' s' && text_eq d d' then true else has m n' s' d')
  unfolding has dsts add same_src same_name
  has-add = test-link (named n s) (named n' s') d d' m.src_dsts

  pub has-rem :
      has (rem m n s d) n' s' d'
      ≡ (if same_src n s n' s' && text_eq d d' then false else has m n' s' d')
  unfolding has dsts rem same_src same_name
  has-rem = test-unlink (named n s) (named n' s') d d' m.src_dsts

  pub srcs-add :
      test (srcs (add m n s d) n' d') s'
      ≡ (if same_src n d n' d' && text_eq s s' then true else test (srcs m n' d') s')
  unfolding srcs add same_src same_name
  srcs-add = test-link (named n d) (named n' d') s s' m.dst_srcs

  pub srcs-rem :
      test (srcs (rem m n s d) n' d') s'
      ≡ (if same_src n d n' d' && text_eq s s' then false else test (srcs m n' d') s')
  unfolding srcs rem same_src same_name
  srcs-rem = test-unlink (named n d) (named n' d') s s' m.dst_srcs

module _ (n s n' s' d' : Text) where
  has-drop_stale :
      (keep old : StringSet) (m : RefMap)
      → has (drop_stale n s keep old m) n' s' d' ≡ (
          if same_src n s n' s' && mentions old d' && not (test keep d')
          then false
          else has m n' s' d')
  unfolding drop_stale mentions lookup
  has-drop_stale keep [] m = ground arith
  has-drop_stale keep ((d, b) ∷ old) m = ground (
    arith,
    has-drop_stale keep old (if test keep d then m else rem m n s d),
    has-rem m n s d n' s' d',
    text_eq_iff d d',
  )

  has-add_missing :
      (new : StringSet) (m : RefMap)
      → has (add_missing n s new m) n' s' d'
        ≡ (if same_src n s n' s' && mentions new d' then true else has m n' s' d')
  unfolding add_missing mentions lookup same_src
  has-add_missing [] m = ground arith
  has-add_missing ((d, b) ∷ new) m = ground (
    arith,
    has-add_missing new (if has m n s d then m else add m n s d),
    has-add m n s d n' s' d',
    text_eq_iff d d',
    text_eq_iff n n',
    text_eq_iff s s',
  )

test→mentions : (s : StringSet) (k : Text) → test s k ≡ true → mentions s k ≡ true
unfolding test mentions
test→mentions s k h = ground arith

has→mentions : (m : RefMap) (n s d : Text) → has m n s d ≡ true → mentions (dsts m n s) d ≡ true
unfolding has
has→mentions m n s d h = test→mentions (dsts m n s) d h

-- After `set` the source has exactly the keys of `new` as its destinations, and every other entry
-- is what it was.
pub has-set :
    (m : RefMap) (n s : Text) (new : StringSet) (n' s' d : Text)
    → has (set m n s new) n' s' d ≡ (if same_src n s n' s' then mentions new d else has m n' s' d)
unfolding set same_src
has-set m n s new n' s' d = ground (
  arith,
  has-add_missing n s n' s' d new (drop_stale n s new (dsts m n s) m),
  has-drop_stale n s n' s' d new (dsts m n s) m,
  test→mentions new d,
  has→mentions m n s d,
  text_eq_iff n n',
  text_eq_iff s s',
)
