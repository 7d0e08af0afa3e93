-- ===== src/Mage/Users/Ranges.antt =====
-- What the ranges of --uidmap and --gidmap promise.
use configmapsecrets.Prelude.{
  ℕ, ◌+◌, ◌-◌, ◌≤◌, ◌<◌, ltb, nat_eq, not, ◌&&◌, Option, none, some, List, [], ◌∷◌, ◌≡◌, arith,
  if◌then◌else◌,
}
use configmapsecrets.Mage.Users.{positive, negative, minus, IdRange, max_ids, id_ranges}

-- The number that a range has for one of the container, or for one of the host.
unfoldable pub to_host : IdRange → ℕ → Option ℕ
to_host r i = elim r.size [
  | positive n ↦
      if not (ltb i r.container) && ltb i (r.container + n)
      then some (r.host + (i - r.container))
      else none
  | negative n ↦ none
]

unfoldable pub to_container : IdRange → ℕ → Option ℕ
to_container r h = elim r.size [
  | positive n ↦
      if not (ltb h r.host) && ltb h (r.host + n) then some (r.container + (h - r.host)) else none
  | negative n ↦ none
]

abbrev pub first_of : Option ℕ → Option ℕ → Option ℕ
first_of none o = o
first_of (some n) o = some n

unfoldable pub host_id : List IdRange → ℕ → Option ℕ
unfolding to_host
host_id [] i = none
host_id (r ∷ rs) i = first_of (to_host r i) (host_id rs i)

unfoldable pub container_id : List IdRange → ℕ → Option ℕ
unfolding to_container
container_id [] h = none
container_id (r ∷ rs) h = first_of (to_container r h) (container_id rs h)

-- The number on the host, and in the container, as the ranges mean it.
unfoldable on_host : ℕ → ℕ → ℕ
on_host id i = if nat_eq i id then 0 else if ltb i id then i + 1 else i

unfoldable in_container : ℕ → ℕ → ℕ
in_container id h = if nat_eq h 0 then id else if ltb id h then h else h - 1

host_id-ranges :
    (id i : ℕ)
    → id ≤ max_ids
    → host_id (id_ranges id) i ≡ (if ltb max_ids i then none else some (on_host id i))
unfolding id_ranges host_id minus to_host on_host
host_id-ranges id i le = ground arith

container_id-ranges :
    (id h : ℕ)
    → id ≤ max_ids
    → container_id (id_ranges id) h ≡ (if ltb max_ids h then none else some (in_container id h))
unfolding id_ranges container_id minus to_container in_container
container_id-ranges id h le = ground arith

-- For a number of at most 65536 the ranges map the numbers up to 65536 in the container one to one
-- to those on the host and back, its own to 0, and none above.
pub id_ranges-bijective :
    (id i j : ℕ)
    → id ≤ max_ids
    → i ≤ max_ids
    → max_ids < j
    → ((h : ℕ) × (h ≤ max_ids)
        × (host_id (id_ranges id) i ≡ some h)
        × (container_id (id_ranges id) h ≡ some i))
      × ((c : ℕ) × (c ≤ max_ids)
          × (container_id (id_ranges id) i ≡ some c)
          × (host_id (id_ranges id) c ≡ some i))
      × (host_id (id_ranges id) id ≡ some 0)
      × (host_id (id_ranges id) j ≡ none)
      × (container_id (id_ranges id) j ≡ none)
unfolding on_host in_container
id_ranges-bijective id i j le li lj = (
  (
    on_host id i,
    ground arith,
    ground (arith, host_id-ranges id i),
    ground (arith, container_id-ranges id (on_host id i)),
  ),
  (
    in_container id i,
    ground arith,
    ground (arith, container_id-ranges id i),
    ground (arith, host_id-ranges id (in_container id i)),
  ),
  ground (arith, host_id-ranges id id),
  ground (arith, host_id-ranges id j),
  ground (arith, container_id-ranges id j),
)
