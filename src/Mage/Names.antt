-- ===== src/Mage/Names.antt =====
-- magefile.go: the names and paths of images and binaries, and the methods of target. trg.name and
-- trg.repo never change.
use configmapsecrets.Prelude.{
  ℕ, Text, codes, nat_eq, ◌||◌, List, [], ◌∷◌, ◌++◌, join, if◌then◌else◌,
}
use configmapsecrets.Runtime.{Result, ok, err, ForeignError, Exec, ◌>>=◌, ◌>>◌, pure}
use configmapsecrets.Genapi.Texts.{null}
use configmapsecrets.Genapi.Idents.{clean}
use configmapsecrets.Mage.System.{System, Build, init_repo_data, call, ask, need}

abbrev pub name_text : Text
name_text = codes "configmapsecret-controller"

abbrev pub repo_text : Text
repo_text = codes "github.com/machinezone/configmapsecrets"

abbrev pub arches : List Text
arches = codes "amd64" ∷ codes "arm" ∷ codes "arm64" ∷ []

abbrev pub build_image : Text
build_image = codes "golang:1.18-alpine"

abbrev pub test_image : Text
test_image = codes "kubebuilder-tools-1.24.2-go1.18-alpine"

abbrev pub base_image : Text
base_image = codes "gcr.io/distroless/static:latest"

-- The Replacer of imagePath
abbrev pub file_char : ℕ → ℕ
file_char c = if nat_eq c b'/' then b'_' else if nat_eq c b':' || nat_eq c b'@' then b'-' else c

unfoldable pub image_file : Text → Text
image_file [] = []
image_file (c ∷ s) = file_char c ∷ image_file s

-- The end of the name of an image for an architecture
abbrev pub linux_suffix : Text → Text
linux_suffix arch = codes "__linux_" ++ arch

-- filepath.Join and path.Join of two names, of which the second is not empty
unfoldable pub join_path : Text → Text → Text
unfolding clean
join_path d name = if null d then clean name else clean (d ++ (codes "/" ++ name))

-- filepath.Abs of filepath.Join: the results of os.Getwd and a relative path that is not empty
abbrev pub absolute : Result ForeignError Text → Text → Text
absolute (ok wd) path = clean (wd ++ (codes "/" ++ clean path))
absolute (err e) path = []

module _ {W : Type 0} (sys : System W) where
  -- target.Version, target.Revision and target.Branch
  unfoldable pub version : Exec (Build W) Text
  version = do need sys (init_repo_data ∷ []); λ s. (ok s.version, s)

  unfoldable pub revision : Exec (Build W) Text
  revision = do need sys (init_repo_data ∷ []); λ s. (ok s.revision, s)

  unfoldable pub branch : Exec (Build W) Text
  branch = do need sys (init_repo_data ∷ []); λ s. (ok s.branch, s)

  -- target.initRepoData; a failed call leaves its variable as it was, where the code sets what there
  -- is of the output: mg.Deps then ends the script, so that nothing reads it.
  unfoldable pub set_repo_data : Exec (Build W) (Unit {0})
  set_repo_data = do
    version' ← call (
        sys.output [] (
          codes "git"
          ∷ codes "describe"
          ∷ codes "--tags"
          ∷ codes "--always"
          ∷ codes "--dirty"
          ∷ codes "--abbrev=12"
          ∷ []))
    λ s. (ok tt, record s { version = version' })
    revision' ←
        call
          (sys.output [] (codes "git" ∷ codes "rev-parse" ∷ codes "--verify" ∷ codes "HEAD" ∷ []))
    λ s. (ok tt, record s { revision = revision' })
    branch' ←
        call (
          sys.output []
            (codes "git" ∷ codes "rev-parse" ∷ codes "--abbrev-ref" ∷ codes "HEAD" ∷ []))
    λ s. (ok tt, record s { branch = branch' })

  -- target.Registry
  unfoldable pub registry : Exec (Build W) Text
  registry = do
    s ← ask (sys.get_env (codes "REGISTRY"))
    pure (if null s then codes "registry.hub.docker.com/mzinc" else s)

  -- manifest
  unfoldable pub manifest : Exec (Build W) Text
  unfolding registry version
  manifest = do
    r ← registry
    v ← version
    pure (r ++ (codes "/" ++ (name_text ++ (codes ":" ++ v))))

  -- archTag
  unfoldable pub arch_tag : Text → Exec (Build W) Text
  unfolding registry
  arch_tag arch = do
    r ← registry
    pure (r ++ (codes "/" ++ (name_text ++ (codes ":__unstable__linux_" ++ arch))))

  -- image
  unfoldable pub image : Text → Exec (Build W) Text
  unfolding manifest
  image arch = do m ← manifest; pure (m ++ linux_suffix arch)

  -- cachePath: mg.Fatal only makes an error, which is dropped, and the path is then the empty one
  -- that filepath.Abs returns with its error.
  unfoldable pub cache_path : List Text → Exec (Build W) Text
  unfolding clean
  cache_path parts s =
      let (r, w) = sys.working_dir s.world in
      (ok (absolute r (join (codes ".mage" ∷ parts) (codes "/"))), record s { world = w })

  -- binDir and binPath
  unfoldable pub bin_dir : Text → Exec (Build W) Text
  unfolding cache_path
  bin_dir arch = cache_path (codes "bin" ∷ (codes "linux_" ++ arch) ∷ [])

  unfoldable pub bin_path : Text → Exec (Build W) Text
  unfolding bin_dir join_path
  bin_path arch = do d ← bin_dir arch; pure (join_path d name_text)

  -- imagePath, and the three functions that call it
  unfoldable pub image_path : Text → Text → Exec (Build W) Text
  unfolding cache_path image_file
  image_path action image' = cache_path (codes "img" ∷ action ∷ image_file image' ∷ [])

  unfoldable pub image_pull_path : Text → Exec (Build W) Text
  unfolding image_path
  image_pull_path = image_path (codes "pull")

  unfoldable pub image_build_path : Text → Exec (Build W) Text
  unfolding image_path
  image_build_path = image_path (codes "build")

  unfoldable pub image_push_path : Text → Exec (Build W) Text
  unfolding image_path
  image_push_path = image_path (codes "push")
