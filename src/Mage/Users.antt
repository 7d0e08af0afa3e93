-- ===== src/Mage/Users.antt =====
-- magefile.go: withUserArgs and isPodman. The numbers of users and groups are those of the operating
-- system, decimal and not negative; another text is an error here.
pub mod Ranges
use configmapsecrets.Prelude.{
  ℕ, zero, suc, ◌+◌, ◌-◌, Text, codes, ltb, nat_eq, Bool, true, false, not, ◌&&◌, Option, none,
  some, List, [], ◌∷◌, ◌++◌, if◌then◌else◌,
}
use configmapsecrets.Runtime.{
  Result, ok, err, Error, ForeignError, foreign, Exec, ◌>>=◌, ◌>>◌, pure, resume,
}
use Prim.Native.Nat.{◌*◌}
use configmapsecrets.Genapi.Texts.{null}
use configmapsecrets.Genapi.Docs.{has_prefix}
use configmapsecrets.Genapi.Idents.{all_digits}
use configmapsecrets.Genapi.Types.{decimal}
use configmapsecrets.Mage.System.{System, Build, User, call}

-- strings.Contains
unfoldable pub contains_text : Text → Text → Bool
unfolding has_prefix
contains_text [] sub = null sub
contains_text (c ∷ s) sub =
    let rest = contains_text s sub in if has_prefix sub (c ∷ s) then true else rest

-- The value of decimal digits behind a number
unfoldable pub number_from : ℕ → Text → ℕ
number_from n [] = n
number_from n (c ∷ s) = number_from (10 * n + (c - 48)) s

-- strconv.Atoi
unfoldable pub atoi : {W : Type 0} → System W → Text → Result Error ℕ
unfolding all_digits number_from
atoi sys s =
    if not (null s) && all_digits s
    then ok (number_from 0 s)
    else err (foreign (sys.not_a_number s))

-- What a subtraction of numbers gives
pub data Size : Type 0 where
  positive : ℕ → Size
  negative : ℕ → Size

unfoldable pub minus : ℕ → ℕ → Size
minus a b = if ltb a b then negative (b - a) else positive (a - b)

-- A value of --uidmap or --gidmap: so many numbers from `container` on are those from `host` on.
pub record IdRange : Type 0 where
  pub container : ℕ
  pub host : ℕ
  pub size : Size

abbrev pub max_ids : ℕ
max_ids = 65536

-- The three ranges for a user or a group
unfoldable pub id_ranges : ℕ → List IdRange
unfolding minus
id_ranges id =
    record { container = id; host = 0; size = positive 1 }
    ∷ record { container = 0; host = 1; size = positive id }
    ∷ record { container = id + 1; host = id + 1; size = minus max_ids id }
    ∷ []

-- %d
abbrev size_text : Size → Text
size_text (positive n) = decimal n
size_text (negative n) = codes "-" ++ decimal n

-- "%d:%d:%d"
unfoldable pub range_text : IdRange → Text
unfolding decimal
range_text r =
    decimal r.container ++ (codes ":" ++ (decimal r.host ++ (codes ":" ++ size_text r.size)))

unfoldable pub range_args : Text → List IdRange → List Text
unfolding range_text
range_args flag [] = []
range_args flag (r ∷ rs) = flag ∷ range_text r ∷ range_args flag rs

-- The arguments that withUserArgs adds for podman
unfoldable pub podman_args : ℕ → ℕ → List Text
unfolding decimal range_args id_ranges
podman_args uid gid =
    codes "-u"
    ∷ (decimal uid ++ (codes ":" ++ decimal gid))
    ∷ (range_args (codes "--uidmap") (id_ranges uid)
        ++ range_args (codes "--gidmap") (id_ranges gid))

module _ {W : Type 0} (sys : System W) where
  -- What isPodman finds in the output of docker; an error counts as no.
  abbrev pub says_podman : Result ForeignError Text → Bool
  says_podman (ok out) = contains_text out (codes "podman")
  says_podman (err e) = false

  abbrev pub known_or : Option Bool → Exec (Build W) Bool → Exec (Build W) Bool
  known_or (some v) ask_it s = (ok v, s)
  known_or none ask_it s = ask_it s

  -- isPodman, which asks once
  unfoldable pub is_podman : Exec (Build W) Bool
  unfolding contains_text
  is_podman s =
      known_or s.podman
        (λ t.
          let (r, w) = sys.output [] (codes "docker" ∷ codes "--help" ∷ []) t.world in
          let v = says_podman r in (ok v, record t { world = w; podman = some v }))
        s

  -- withUserArgs, once it knows the user and whether docker is podman
  unfoldable pub user_args : List Text → User → Bool → Exec (Build W) (List Text)
  unfolding atoi podman_args
  user_args args u false = pure (args ++ codes "-u" ∷ (u.uid ++ (codes ":" ++ u.gid)) ∷ [])
  user_args args u true = do
    uid ← λ s. (atoi sys u.uid, s)
    gid ← λ s. (atoi sys u.gid, s)
    pure (args ++ podman_args uid gid)

  -- withUserArgs
  unfoldable pub with_user_args : List Text → Exec (Build W) (List Text)
  unfolding is_podman user_args
  with_user_args args = do u ← call sys.current_user; podman ← is_podman; user_args args u podman
