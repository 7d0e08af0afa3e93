-- ===== src/Mage/Bins.antt =====
-- magefile.go: buildinfoLDFlags and Bins.
use configmapsecrets.Prelude.{
  ℕ, Text, codes, nat_eq, Bool, true, false, ◌||◌, List, [], ◌∷◌, ◌++◌, join, if◌then◌else◌,
}
use configmapsecrets.Runtime.{Result, ok, err, Error, formatted, Exec, ◌>>=◌, ◌>>◌, pure}
use configmapsecrets.Genapi.Types.{decimal}
use configmapsecrets.Mage.System.{System, Build, mk_build_dirs, pull_build_image, call, ask, need}
use configmapsecrets.Mage.Files.{mk_dir}
use configmapsecrets.Mage.Names.{
  arches, name_text, repo_text, build_image, version, revision, branch, bin_dir, bin_path,
}
use configmapsecrets.Mage.Images.{should_do_bins}
use configmapsecrets.Mage.Containers.{container_args}

-- %q of a text of printable characters: in quotes, with a backslash before quotes and backslashes
unfoldable pub quoted_chars : Text → Text
quoted_chars [] = codes "\""
quoted_chars (c ∷ s) =
    let rest = quoted_chars s in
    if nat_eq c b'"' || nat_eq c b'\\' then b'\\' ∷ c ∷ rest else c ∷ rest

unfoldable pub quote : Text → Text
unfolding quoted_chars
quote s = b'"' ∷ quoted_chars s

-- fmt.Sprintf("-X %s/pkg/buildinfo.%s=%v", trg.Repo(), key, val)
abbrev pub ld_flag : Text → Text → Text
ld_flag key val =
    codes "-X " ++ (repo_text ++ (codes "/pkg/buildinfo." ++ (key ++ (codes "=" ++ val))))

-- The loop of buildinfoLDFlags, which panics where a name has no value
unfoldable pub ld_flags : List Text → Result Error (List Text)
ld_flags [] = ok []
ld_flags (key ∷ []) = err (formatted (codes "index out of range"))
ld_flags (key ∷ val ∷ rest) = elim (ld_flags rest) [
  | ok flags ↦ ok (ld_flag key val ∷ flags)
  | err e ↦ err e
]

abbrev joined_flags : Result Error (List Text) → Result Error Text
joined_flags (ok flags) = ok (join flags (codes " "))
joined_flags (err e) = err e

-- buildinfoLDFlags
unfoldable pub buildinfo_ld_flags : List Text → Result Error Text
unfolding ld_flags
buildinfo_ld_flags names_and_values = joined_flags (ld_flags names_and_values)

-- The three commands that build the binary for an architecture
abbrev build_commands : Text → List Text
build_commands arch =
    (codes "echo \"building binary for linux/" ++ (arch ++ codes "\""))
    ∷ (codes "export GOARCH=" ++ arch)
    ∷ (codes "go build -mod vendor -ldflags \"$${LDFLAGS}\" -o "
        ++ (quote (codes "/go/bin/linux_$${GOARCH}/" ++ name_text)
            ++ (codes " " ++ quote (codes "/src/cmd/" ++ name_text))))
    ∷ []

module _ {W : Type 0} (sys : System W) where
  -- The loop of Bins before the build: the commands after those so far
  unfoldable pub commands : List Text → List Text → Exec (Build W) (List Text)
  unfolding bin_dir mk_dir quote
  commands cmds [] = pure cmds
  commands cmds (arch ∷ rest) = do
    d ← bin_dir sys arch
    mk_dir sys d
    commands (cmds ++ build_commands arch) rest

  -- The loop of Bins after the build
  unfoldable pub set_times : ℕ → List Text → Exec (Build W) (Unit {0})
  unfolding bin_path
  set_times now [] = pure tt
  set_times now (arch ∷ rest) = do
    path ← bin_path sys arch
    call (sys.change_times path now)
    set_times now rest

  -- The export of LDFLAGS
  unfoldable pub export_flags : ℕ → Exec (Build W) Text
  unfolding version revision branch buildinfo_ld_flags quote decimal
  export_flags now = do
    v ← version sys
    b ← branch sys
    r ← revision sys
    flags ← λ s. (
      buildinfo_ld_flags (
          codes "binary"
          ∷ name_text
          ∷ codes "version"
          ∷ v
          ∷ codes "repo"
          ∷ repo_text
          ∷ codes "branch"
          ∷ b
          ∷ codes "revision"
          ∷ r
          ∷ codes "buildUnix"
          ∷ decimal (sys.unix now)
          ∷ []),
      s,
    )
    pure (codes "export LDFLAGS=" ++ quote flags)

  unfoldable pub build_bins : Bool → Exec (Build W) (Unit {0})
  unfolding export_flags commands container_args set_times
  build_bins false = pure tt
  build_bins true = do
    need sys (pull_build_image ∷ mk_build_dirs ∷ [])
    now ← ask sys.now
    export ← export_flags now
    cmds ← commands (export ∷ []) arches
    args ←
        container_args sys (codes "run" ∷ codes "-i" ∷ codes "--rm" ∷ [])
          (codes "--env" ∷ codes "GOOS=linux" ∷ []) build_image
          (codes "/bin/sh" ∷ codes "-c" ∷ join cmds (codes " && ") ∷ [])
    call (sys.run ((codes "$", codes "$") ∷ []) (codes "docker" ∷ args))
    set_times now arches

  -- Bins
  unfoldable pub build_the_bins : Exec (Build W) (Unit {0})
  unfolding should_do_bins build_bins
  build_the_bins = do due ← should_do_bins sys; build_bins due
