-- ===== src/Mage/Dates.antt =====
-- magefile.go: earliestMod and shouldDo.
pub mod Least
use configmapsecrets.Prelude.{
  ℕ, Text, codes, nat_eq, ltb, Bool, true, false, ◌||◌, List, [], ◌∷◌, ◌++◌, if◌then◌else◌,
}
use configmapsecrets.Runtime.{
  Result, ok, err, Error, ForeignError, foreign, Exec, ◌>>=◌, ◌>>◌, pure, as_error, resume,
}
use configmapsecrets.Mage.System.{System, Build, call}

-- A name and its time
pub record Dated : Type 0 where
  pub name : Text
  pub time : ℕ

-- mod.IsZero() || t.Before(mod)
unfoldable pub earlier : Text → ℕ → Dated → Dated
earlier file t so_far =
    if nat_eq so_far.time 0 || ltb t so_far.time then record { name = file; time = t } else so_far

-- The loop of earliestMod after os.Stat: it goes on with the time, or returns.
abbrev pub after_stat :
    {W : Type 0}
    → System W
    → Text
    → Result ForeignError ℕ
    → (ℕ → Result Error Dated × Build W)
    → Exec (Build W) Dated
after_stat sys file (ok t) go_on s = go_on t
after_stat sys file (err e) go_on s =
    ((if sys.is_not_exist e then ok (record { name = file; time = 0 }) else err (foreign e)), s)

module _ {W : Type 0} (sys : System W) where
  -- The loop of earliestMod
  unfoldable pub earliest_from : Dated → List Text → Exec (Build W) Dated
  unfolding earlier
  earliest_from so_far [] s = (ok so_far, s)
  earliest_from so_far (file ∷ files) s =
      let (r, w) = sys.stat file s.world in
      let s' = record s { world = w } in
      after_stat sys file r (λ t. earliest_from (earlier file t so_far) files s') s'

  -- earliestMod
  unfoldable pub earliest_mod : List Text → Exec (Build W) Dated
  unfolding earliest_from
  earliest_mod = earliest_from (record { name = []; time = 0 })

  -- The loop of shouldDo
  unfoldable pub glob_all : List Text → Exec (Build W) (List Text)
  glob_all [] = pure []
  glob_all (pattern' ∷ patterns) = do
    matches ← call (sys.glob pattern')
    rest ← glob_all patterns
    pure (matches ++ rest)

  abbrev pub source_globs : List Text
  source_globs =
      codes "*.go"
      ∷ codes "go.mod"
      ∷ codes "go.sum"
      ∷ codes "cmd"
      ∷ codes "pkg"
      ∷ codes "third_party"
      ∷ []

  -- shouldDo
  unfoldable pub should_do : List Text → Exec (Build W) Bool
  unfolding earliest_mod glob_all
  should_do dsts = do
    dst ← earliest_mod dsts
    srcs ← glob_all source_globs
    call (sys.newer_sources dst.name srcs)
