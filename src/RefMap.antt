-- ===== src/RefMap.antt =====
-- pkg/controllers/refmap.go: which sources refer to which destinations, kept in both directions.
-- The inner maps are shared by reference in Go; here an update of an inner map is an update of the
-- outer one. A nil map is the empty one: reads of it give nothing, and the code makes it before it
-- writes.
pub mod Edges
pub mod Assign
pub mod Consistent
pub mod History
use configmapsecrets.Prelude.{
  Text, Equality, ◌==◌, Map, lookup, insert, delete, Bool, true, false, ◌&&◌, ◌≡◌, ◌↔◌, Option,
  none, some, [], ◌∷◌, arith, text_equality, if◌then◌else◌, text_eq, text_eq_iff,
}

-- types.NamespacedName
pub record NamespacedName : Type 0 where
  pub namespace : Text
  pub name : Text

abbrev pub named : Text → Text → NamespacedName
named namespace name = record { namespace = namespace; name = name }

unfoldable pub same_name : NamespacedName → NamespacedName → Bool
same_name a b = (a.namespace == b.namespace) && (a.name == b.name)

pub same_name_iff : (a b : NamespacedName) → (same_name a b ≡ true) ↔ (a ≡ b)
unfolding same_name
same_name_iff a b = ground (arith, text_eq_iff a.namespace b.namespace, text_eq_iff a.name b.name)

instance abbrev pub named_equality : Equality NamespacedName
named_equality = record { test = same_name; decides = same_name_iff }

-- map[string]bool
abbrev pub StringSet : Type 0
StringSet = Map Text Bool

-- s[k], which is false on a missing key
abbrev pub is_true : Option Bool → Bool
is_true none = false
is_true (some b) = b

unfoldable pub test : StringSet → Text → Bool
test s k = is_true (lookup k s)

pub record RefMap : Type 0 where
  pub src_dsts : Map NamespacedName StringSet
  pub dst_srcs : Map NamespacedName StringSet

abbrev pub empty : RefMap
empty = record { src_dsts = []; dst_srcs = [] }

abbrev pub entries : Option StringSet → StringSet
entries none = []
entries (some s) = s

-- m[k], which is nil on a missing key
unfoldable pub inner : NamespacedName → Map NamespacedName StringSet → StringSet
inner k m = entries (lookup k m)

unfoldable pub dsts : RefMap → Text → Text → StringSet
dsts m namespace src = inner (named namespace src) m.src_dsts

unfoldable pub srcs : RefMap → Text → Text → StringSet
srcs m namespace dst = inner (named namespace dst) m.dst_srcs

unfoldable pub has : RefMap → Text → Text → Text → Bool
has m namespace src dst = test (dsts m namespace src) dst

-- One half of `add`: make the inner map if it is missing, and set the entry.
unfoldable pub link :
    NamespacedName → Text → Map NamespacedName StringSet → Map NamespacedName StringSet
link k v m = insert k (insert v true (inner k m)) m

abbrev pub is_empty : StringSet → Bool
is_empty [] = true
is_empty (_ ∷ _) = false

-- One half of `rem`: delete the entry, and the inner map if it is empty then.
unfoldable pub unlink :
    NamespacedName → Text → Map NamespacedName StringSet → Map NamespacedName StringSet
unlink k v m =
    let rest = delete v (inner k m) in if is_empty rest then delete k m else insert k rest m

unfoldable pub add : RefMap → Text → Text → Text → RefMap
add m namespace src dst = record {
  src_dsts = link (named namespace src) dst m.src_dsts;
  dst_srcs = link (named namespace dst) src m.dst_srcs;
}

unfoldable pub rem : RefMap → Text → Text → Text → RefMap
rem m namespace src dst = record {
  src_dsts = unlink (named namespace src) dst m.src_dsts;
  dst_srcs = unlink (named namespace dst) src m.dst_srcs;
}

-- The first loop of `set`: the range over the destinations that the source has at its start.
unfoldable pub drop_stale : Text → Text → StringSet → StringSet → RefMap → RefMap
drop_stale namespace src keep [] m = m
drop_stale namespace src keep ((dst, _) ∷ old) m =
    drop_stale namespace src keep old (if test keep dst then m else rem m namespace src dst)

-- The second loop of `set`.
unfoldable pub add_missing : Text → Text → StringSet → RefMap → RefMap
add_missing namespace src [] m = m
add_missing namespace src ((dst, _) ∷ new) m =
    add_missing namespace src new (if has m namespace src dst then m else add m namespace src dst)

unfoldable pub set : RefMap → Text → Text → StringSet → RefMap
set m namespace src new =
    add_missing namespace src new (drop_stale namespace src new (dsts m namespace src) m)
