-- ===== src/Mage/Publish.antt =====
-- magefile.go: Imgs, buildImg and Push.
pub mod Binds
pub mod Indices
use configmapsecrets.Prelude.{
  ℕ, zero, suc, Text, codes, join, Bool, true, false, Option, none, some, List, [], ◌∷◌, ◌++◌,
  if◌then◌else◌,
}
use configmapsecrets.Runtime.{
  Result, ok, err, Error, ForeignError, foreign, formatted, Exec, ◌>>=◌, ◌>>◌, pure, raise,
}
use configmapsecrets.Genapi.Idents.{clean}
use configmapsecrets.Mage.System.{System, Build, bins, imgs, pull_base_image, call, need, finally}
use configmapsecrets.Mage.Files.{write_file, append_file}
use configmapsecrets.Mage.Names.{
  join_path, arches, name_text, repo_text, version, revision, branch, manifest, arch_tag, image,
  bin_dir, image_build_path, image_push_path,
}
use configmapsecrets.Mage.Images.{arch_base_image, should_do_imgs, should_do_push}
use configmapsecrets.Mage.Bins.{quote}

-- The Dockerfile that buildImg writes
unfoldable pub docker_file : Text → Text → Text → Text → Text → Text
unfolding quote
docker_file base arch version' revision' branch' =
    join
      (codes "FROM "
        ∷ base
        ∷ codes "\nADD LICENSE /LICENSE\nLABEL os=linux arch="
        ∷ arch
        ∷ codes " binary="
        ∷ name_text
        ∷ codes " repository="
        ∷ repo_text
        ∷ codes " version="
        ∷ version'
        ∷ codes " revision="
        ∷ revision'
        ∷ codes " branch="
        ∷ branch'
        ∷ codes "\nADD "
        ∷ name_text
        ∷ codes " /"
        ∷ name_text
        ∷ codes "\nUSER 65535:65535\nENTRYPOINT ["
        ∷ quote (codes "/" ++ name_text)
        ∷ codes "]\n"
        ∷ [])
      []

-- tags[i], which panics out of range
unfoldable pub get_elem? : List Text → ℕ → Option Text
get_elem? [] i = none
get_elem? (tag ∷ tags) zero = some tag
get_elem? (tag ∷ tags) (suc i) = get_elem? tags i

-- docker with its command line for manifests
abbrev experimental : List (Text × Text)
experimental = (codes "DOCKER_CLI_EXPERIMENTAL", codes "enabled") ∷ []

-- The error of os.Link, unless there is the file already
abbrev pub unless_there :
    {W : Type 0} → System W → Result ForeignError (Unit {0}) → Result Error (Unit {0})
unless_there sys (ok u) = ok u
unless_there sys (err e) = if sys.is_exist e then ok tt else err (foreign e)

module _ {W : Type 0} (sys : System W) where
  -- buildImg once the temporary file is there
  unfoldable pub build_img_from : Text → Text → Text → ℕ → Exec (Build W) (Unit {0})
  unfolding version revision branch docker_file bin_dir image image_build_path append_file join_path
  build_img_from arch base tmp file = do
    v ← version sys
    r ← revision sys
    b ← branch sys
    call (sys.write file (docker_file base arch v r b))
    ctx_dir ← bin_dir sys arch
    cur_dir ← call sys.working_dir
    λ s.
        (let (r, w) =
            sys.link_file (join_path cur_dir (codes "LICENSE"))
              (join_path ctx_dir (codes "LICENSE")) s.world in
          (unless_there sys r, record s { world = w }))
    tag ← image sys arch
    call (
        sys.run [] (
          codes "docker"
          ∷ codes "build"
          ∷ codes "--platform"
          ∷ (codes "linux/" ++ arch)
          ∷ codes "-t"
          ∷ tag
          ∷ codes "-f"
          ∷ tmp
          ∷ ctx_dir
          ∷ []))
    id ← call (sys.output [] (codes "docker" ∷ codes "images" ∷ codes "-q" ∷ tag ∷ []))
    path ← image_build_path sys tag
    append_file sys path id

  -- buildImg; os.Remove is deferred, and the file stays open
  unfoldable pub build_img : Text → Exec (Build W) (Unit {0})
  unfolding arch_base_image build_img_from
  build_img arch = do
    base ← arch_base_image sys arch
    (tmp, file) ← call (sys.temp_file arch)
    finally (build_img_from arch base tmp file) (call (sys.remove_file tmp))

  -- The loop of Imgs
  unfoldable pub build_imgs : List Text → Exec (Build W) (Unit {0})
  unfolding build_img
  build_imgs [] = pure tt
  build_imgs (arch ∷ rest) = do build_img arch; build_imgs rest

  unfoldable pub build_due_imgs : Bool → Exec (Build W) (Unit {0})
  unfolding manifest build_imgs
  build_due_imgs false = pure tt
  build_due_imgs true = do need sys (bins ∷ pull_base_image ∷ []); build_imgs arches

  -- Imgs
  unfoldable pub build_the_imgs : Exec (Build W) (Unit {0})
  unfolding should_do_imgs build_due_imgs
  build_the_imgs = do due ← should_do_imgs sys; build_due_imgs due

  -- The loop of Push over the images; `tags` holds the digests so far.
  unfoldable pub push_images : List Text → List Text → Exec (Build W) (List Text)
  unfolding image arch_tag
  push_images tags [] = pure tags
  push_images tags (arch ∷ rest) = do
    src ← image sys arch
    tag ← arch_tag sys arch
    call (sys.run [] (codes "docker" ∷ codes "tag" ∷ src ∷ tag ∷ []))
    call (sys.run [] (codes "docker" ∷ codes "push" ∷ tag ∷ []))
    digest ← call (
        sys.output []
          (codes "docker" ∷ codes "inspect" ∷ codes "--format={{index .RepoDigests 0}}" ∷ tag ∷ []))
    push_images (tags ++ digest ∷ []) rest

  abbrev pub tag_at : Option Text → Exec (Build W) Text
  tag_at none = raise (formatted (codes "index out of range"))
  tag_at (some tag) = pure tag

  abbrev pub annotate_one : Text → Text → Text → Exec (Build W) (Unit {0})
  annotate_one base arch tag = call (
      sys.run experimental (
        codes "docker"
        ∷ codes "manifest"
        ∷ codes "annotate"
        ∷ base
        ∷ tag
        ∷ codes "--os"
        ∷ codes "linux"
        ∷ codes "--arch"
        ∷ arch
        ∷ []))

  -- The loop of Push over the manifest, from the index i
  unfoldable pub annotate : Text → List Text → ℕ → List Text → Exec (Build W) (Unit {0})
  unfolding get_elem?
  annotate base tags i [] = pure tt
  annotate base tags i (arch ∷ rest) = do
    tag ← tag_at (get_elem? tags i)
    annotate_one base arch tag
    annotate base tags (suc i) rest

  unfoldable pub push_due : Bool → Exec (Build W) (Unit {0})
  unfolding manifest push_images annotate image_push_path write_file
  push_due false = pure tt
  push_due true = do
    need sys (imgs ∷ [])
    base ← manifest sys
    tags ← push_images [] arches
    call (
        sys.output experimental
          (codes "docker" ∷ codes "manifest" ∷ codes "create" ∷ codes "--amend" ∷ base ∷ tags))
    annotate base tags 0 arches
    call (
        sys.run experimental
          (codes "docker" ∷ codes "manifest" ∷ codes "push" ∷ codes "--purge" ∷ base ∷ []))
    out ←
        call (
          sys.output experimental (codes "docker" ∷ codes "manifest" ∷ codes "inspect" ∷ base ∷ []))
    path ← image_push_path sys base
    write_file sys path out

  -- Push
  unfoldable pub push : Exec (Build W) (Unit {0})
  unfolding should_do_push push_due
  push = do due ← should_do_push sys; push_due due
