-- ===== src/RefMap/Consistent.antt =====
-- The two maps of a refMap are inverse to one another, and neither keeps an entry that is not
-- needed: the representation invariant of refmap.go.
use configmapsecrets.Prelude.{
  Text, Map, lookup, insert, delete, lookup-insert, lookup-delete, true, false, ◌≡◌, ◌≢◌, [], ◌∷◌,
  arith, if◌then◌else◌, refl, text_eq, text_equality, some, if_keeps,
}
use configmapsecrets.RefMap.{
  NamespacedName, named, named_equality, StringSet, test, RefMap, empty, inner, link, dsts, srcs,
  has, unlink, drop_stale, add_missing, set, add, rem,
}
use configmapsecrets.RefMap.Edges.{inner-link, inner-unlink, test-insert, test-delete}
use configmapsecrets.RefMap.Assign.{
  mentions, has-add, has-rem, srcs-add, srcs-rem, same_src, has-set,
}

pub record IsTidy (m : Map NamespacedName StringSet) : Type 0 where
  pub non_empty : (k : NamespacedName) → lookup k m ≢ some []
  pub only_true : (k : NamespacedName) (v : Text) → mentions (inner k m) v ≡ test (inner k m) v

pub record IsConsistent (m : RefMap) : Type 0 where
  pub inverse : (n s d : Text) → has m n s d ≡ test (srcs m n d) s
  pub src_tidy : IsTidy m.src_dsts
  pub dst_tidy : IsTidy m.dst_srcs

pub mentions-insert :
    (v w : Text) (s : StringSet)
    → mentions (insert v true s) w ≡ (if text_eq v w then true else mentions s w)
unfolding mentions
mentions-insert v w s = rw lookup-insert (ground arith)

pub mentions-delete :
    (v w : Text) (s : StringSet)
    → mentions (delete v s) w ≡ (if text_eq v w then false else mentions s w)
unfolding mentions
mentions-delete v w s = rw lookup-delete (ground arith)

insert-ne-nil : (v : Text) (s : StringSet) → insert v true s ≢ []
unfolding insert
insert-ne-nil v [] e = cc
insert-ne-nil v ((w, b) ∷ s) e = ground arith

module _ (k : NamespacedName) (v : Text) (m : Map NamespacedName StringSet) (t : IsTidy m) where
  link-IsTidy : IsTidy (link k v m)
  link-IsTidy = record {
    non_empty = λ j e.
        (unfold link in
          ground (
            arith,
            lookup-insert k j (insert v true (inner k m)) m,
            t.non_empty j,
            insert-ne-nil v (inner k m),
          ));
    only_true = λ j w. rw inner-link (
        ground (
          arith,
          t.only_true j w,
          t.only_true k w,
          mentions-insert v w (inner k m),
          test-insert v w (inner k m),
        ));
  }

  unlink-IsTidy : IsTidy (unlink k v m)
  unlink-IsTidy = record {
    non_empty = λ j e.
        (unfold unlink in
          ground (
            arith,
            lookup-insert k j (delete v (inner k m)) m,
            lookup-delete k j m,
            t.non_empty j,
          ));
    only_true = λ j w. rw inner-unlink (
        ground (
          arith,
          t.only_true j w,
          t.only_true k w,
          mentions-delete v w (inner k m),
          test-delete v w (inner k m),
        ));
  }

module _ (m : RefMap) (n s d : Text) (c : IsConsistent m) where
  add-IsConsistent : IsConsistent (add m n s d)
  add-IsConsistent = record {
    inverse =
        λ n' s' d'. rw (has-add, srcs-add) (unfold same_src in ground (arith, c.inverse n' s' d'));
    src_tidy = unfold add in link-IsTidy (named n s) d m.src_dsts c.src_tidy;
    dst_tidy = unfold add in link-IsTidy (named n d) s m.dst_srcs c.dst_tidy;
  }

  rem-IsConsistent : IsConsistent (rem m n s d)
  rem-IsConsistent = record {
    inverse =
        λ n' s' d'. rw (has-rem, srcs-rem) (unfold same_src in ground (arith, c.inverse n' s' d'));
    src_tidy = unfold rem in unlink-IsTidy (named n s) d m.src_dsts c.src_tidy;
    dst_tidy = unfold rem in unlink-IsTidy (named n d) s m.dst_srcs c.dst_tidy;
  }

drop_stale-IsConsistent :
    (n s : Text) (keep old : StringSet) (m : RefMap)
    → IsConsistent m
    → IsConsistent (drop_stale n s keep old m)
unfolding drop_stale
drop_stale-IsConsistent n s keep [] m c = c
drop_stale-IsConsistent n s keep ((d, _) ∷ old) m c =
    drop_stale-IsConsistent n s keep old (if test keep d then m else rem m n s d)
      (if_keeps IsConsistent (test keep d) _ _ c (rem-IsConsistent m n s d c))

add_missing-IsConsistent :
    (n s : Text) (new : StringSet) (m : RefMap)
    → IsConsistent m
    → IsConsistent (add_missing n s new m)
unfolding add_missing
add_missing-IsConsistent n s [] m c = c
add_missing-IsConsistent n s ((d, _) ∷ new) m c =
    add_missing-IsConsistent n s new (if has m n s d then m else add m n s d)
      (if_keeps IsConsistent (has m n s d) _ _ c (add-IsConsistent m n s d c))

-- `set` keeps the invariant.
pub set-IsConsistent :
    (m : RefMap) (n s : Text) (new : StringSet) → IsConsistent m → IsConsistent (set m n s new)
unfolding set
set-IsConsistent m n s new c =
    add_missing-IsConsistent n s new (drop_stale n s new (dsts m n s) m)
      (drop_stale-IsConsistent n s new (dsts m n s) m c)

pub empty-IsConsistent : IsConsistent empty
unfolding has dsts srcs inner lookup test mentions
empty-IsConsistent = record {
  inverse = λ n s d. refl;
  src_tidy = record { non_empty = λ k e. cc; only_true = λ k v. refl };
  dst_tidy = record { non_empty = λ k e. cc; only_true = λ k v. refl };
}

-- In a consistent map the sources of a destination are, after `set`, those that now name it: for
-- the source that was set the keys of `new` decide, for any other nothing has changed.
pub srcs-set :
    (m : RefMap) (n s : Text) (new : StringSet) (n' s' d : Text)
    → IsConsistent m
    → mentions (srcs (set m n s new) n' d) s'
      ≡ (if same_src n s n' s' then mentions new d else mentions (srcs m n' d) s')
unfolding srcs
srcs-set m n s new n' s' d c =
    let c' = set-IsConsistent m n s new c in
    simp (
      c'.dst_tidy.only_true (named n' d) s',
      c.dst_tidy.only_true (named n' d) s',
      ← c'.inverse n' s' d,
      ← c.inverse n' s' d,
      has-set,
    )
