-- ===== src/RefMap/Edges.antt =====
-- What `link`, `unlink`, `add` and `rem` of refmap.go do to one entry.
use configmapsecrets.Prelude.{
  Text, Map, insert, delete, lookup-insert, lookup-delete, true, false, ◌&&◌, ◌≡◌, arith,
  if◌then◌else◌, text_eq, text_equality,
}
use configmapsecrets.RefMap.{
  NamespacedName, same_name, same_name_iff, named_equality, StringSet, test, inner, link, unlink,
}

pub test-insert :
    (v w : Text) (s : StringSet)
    → test (insert v true s) w ≡ (if text_eq v w then true else test s w)
unfolding test
test-insert v w s = rw lookup-insert (ground arith)

pub test-delete :
    (v w : Text) (s : StringSet) → test (delete v s) w ≡ (if text_eq v w then false else test s w)
unfolding test
test-delete v w s = rw lookup-delete (ground arith)

-- Whether the inner map is dropped or kept, its entries read the same.
pub inner-unlink :
    (k j : NamespacedName) (v : Text) (m : Map NamespacedName StringSet)
    → inner j (unlink k v m) ≡ (if same_name k j then delete v (inner k m) else inner j m)
unfolding inner unlink
inner-unlink k j v m =
    ground (arith, lookup-insert k j (delete v (inner k m)) m, lookup-delete k j m)

module _ (k j : NamespacedName) (v w : Text) (m : Map NamespacedName StringSet) where
  pub inner-link :
      inner j (link k v m) ≡ (if same_name k j then insert v true (inner k m) else inner j m)
  unfolding inner link
  inner-link = rw lookup-insert (ground arith)

  pub test-link :
      test (inner j (link k v m)) w
      ≡ (if same_name k j && text_eq v w then true else test (inner j m) w)
  test-link = rw inner-link (ground (arith, same_name_iff k j, test-insert v w (inner k m)))

  pub test-unlink :
      test (inner j (unlink k v m)) w
      ≡ (if same_name k j && text_eq v w then false else test (inner j m) w)
  test-unlink = rw inner-unlink (ground (arith, same_name_iff k j, test-delete v w (inner k m)))
