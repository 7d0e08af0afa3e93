-- ===== src/Mage/Images.antt =====
-- magefile.go: what the build script knows of images, and how it pulls them.
pub mod Ids
use configmapsecrets.Prelude.{
  Text, codes, text_eq, text_equality, Map, lookup, insert, Bool, true, false, not, Option, none,
  some, List, [], ◌∷◌, ◌++◌, if◌then◌else◌,
}
use configmapsecrets.Runtime.{
  Result, ok, err, Error, ForeignError, foreign, formatted, Exec, ◌>>=◌, ◌>>◌, pure,
}
use configmapsecrets.RefMap.{StringSet}
use configmapsecrets.Controller.Refs.{keys}
use configmapsecrets.Genapi.Texts.{null, split}
use configmapsecrets.Genapi.Markdown.{trim_space}
use configmapsecrets.Mage.System.{System, Build, Entry, Platform, call}
use configmapsecrets.Mage.Files.{file_exists, touch_file, rm_dir}
use configmapsecrets.Mage.Dates.{should_do}
use configmapsecrets.Mage.Names.{
  join_path, arches, base_image, build_image, image_pull_path, image_build_path, image_push_path,
  manifest, bin_path, cache_path,
}

-- strings.Split(baseImage, ":")[0]
abbrev pub base_name : Text
base_name = codes "gcr.io/distroless/static"

-- The loop of initBaseImages
unfoldable pub linux_images : List Platform → Map Text Text → Map Text Text
linux_images [] images = images
linux_images (m ∷ ms) images = linux_images ms (
    if not (text_eq m.os (codes "linux"))
    then images
    else insert m.arch (base_name ++ (codes "@" ++ m.digest)) images)

-- The loop of imageIDs over the lines of a file
unfoldable pub add_ids : List Text → StringSet → StringSet
unfolding trim_space
add_ids [] set = set
add_ids (line ∷ lines) set =
    add_ids lines (if null (trim_space line) then set else insert (trim_space line) true set)

-- The branches of an error of ioutil.ReadDir in imageIDs
abbrev pub entries_or_none :
    {W : Type 0} → System W → Result ForeignError (List Entry) → Result Error (Option (List Entry))
entries_or_none sys (ok infos) = ok (some infos)
entries_or_none sys (err e) = if sys.is_not_exist e then ok none else err (foreign e)

module _ {W : Type 0} (sys : System W) where
  -- initBaseImages once docker has answered
  abbrev pub store_images : Result ForeignError (List Platform) → Exec (Build W) (Unit {0})
  store_images (ok ms) s = (ok tt, record s { base_images = some (linux_images ms []) })
  store_images (err e) s = (err (foreign e), s)

  unfoldable pub fetch_images : Exec (Build W) (Unit {0})
  unfolding linux_images
  fetch_images = do
    out ←
        call (sys.output [] (codes "docker" ∷ codes "manifest" ∷ codes "inspect" ∷ base_image ∷ []))
    store_images (sys.parse_manifests out)

  abbrev pub unless_known :
      Option (Map Text Text) → Exec (Build W) (Unit {0}) → Exec (Build W) (Unit {0})
  unless_known none fetch s = fetch s
  unless_known (some images) fetch s = (ok tt, s)

  -- initBaseImages
  unfoldable pub init_base_images : Exec (Build W) (Unit {0})
  unfolding fetch_images
  init_base_images s = unless_known s.base_images fetch_images s

  abbrev pub image_for : Text → Option Text → Result Error Text
  image_for arch (some img) = ok img
  image_for arch none =
      err (formatted (codes "architecture " ++ (arch ++ codes " not found in base image")))

  abbrev pub images_of : Option (Map Text Text) → Map Text Text
  images_of none = []
  images_of (some images) = images

  -- archBaseImage
  unfoldable pub arch_base_image : Text → Exec (Build W) Text
  unfolding init_base_images
  arch_base_image arch = do
    init_base_images
    λ s. (image_for arch (lookup arch (images_of s.base_images)), s)

  unfoldable pub pull_missing : Text → Text → Bool → Exec (Build W) (Unit {0})
  unfolding touch_file
  pull_missing image path true = pure tt
  pull_missing image path false = do
    call (sys.run [] (codes "docker" ∷ codes "pull" ∷ image ∷ []))
    touch_file sys path

  -- pullImage
  unfoldable pub pull_image : Text → Exec (Build W) (Unit {0})
  unfolding image_pull_path file_exists pull_missing
  pull_image image = do
    path ← image_pull_path sys image
    there ← file_exists sys path
    pull_missing image path there

  -- pullBuildImage
  unfoldable pub pull_the_build_image : Exec (Build W) (Unit {0})
  unfolding pull_image
  pull_the_build_image = pull_image build_image

  -- pullBaseImage, by the architectures
  unfoldable pub pull_base_images : List Text → Exec (Build W) (Unit {0})
  unfolding arch_base_image pull_image
  pull_base_images [] = pure tt
  pull_base_images (arch ∷ rest) = do
    base ← arch_base_image arch
    pull_image base
    pull_base_images rest

  unfoldable pub pull_the_base_image : Exec (Build W) (Unit {0})
  unfolding pull_base_images
  pull_the_base_image = pull_base_images arches

  -- The loop of imageIDs over the files
  unfoldable pub ids_of_files : Text → List Entry → StringSet → Exec (Build W) StringSet
  unfolding add_ids split join_path
  ids_of_files d [] set = pure set
  ids_of_files d (info ∷ infos) set = elim info.is_dir [
    | true ↦ ids_of_files d infos set
    | false ↦ do
      buf ← call (sys.read_file (join_path d info.name))
      ids_of_files d infos (add_ids (split 10 buf) set)
  ]

  unfoldable pub ids_of_dir : Text → Option (List Entry) → Exec (Build W) (List Text)
  unfolding ids_of_files
  ids_of_dir d none = pure []
  ids_of_dir d (some infos) = do set ← ids_of_files d infos []; pure (keys set)

  -- imageIDs
  unfoldable pub image_ids : Exec (Build W) (List Text)
  unfolding image_build_path ids_of_dir
  image_ids = do
    d ← image_build_path sys []
    infos ← λ s.
        (let (r, w) = sys.read_dir d s.world in (entries_or_none sys r, record s { world = w }))
    ids_of_dir d infos

  unfoldable pub remove_images : List Text → Exec (Build W) (Unit {0})
  remove_images [] = pure tt
  remove_images (id ∷ ids) =
      call (sys.run [] (codes "docker" ∷ codes "rmi" ∷ codes "-f" ∷ id ∷ ids))

  -- Clean
  unfoldable pub clean_all_files : Exec (Build W) (Unit {0})
  unfolding image_ids remove_images cache_path rm_dir
  clean_all_files = do ids ← image_ids; remove_images ids; path ← cache_path sys []; rm_dir sys path

  -- The loops of shouldDoBins and shouldDoImgs
  unfoldable pub bin_paths : List Text → Exec (Build W) (List Text)
  unfolding bin_path
  bin_paths [] = pure []
  bin_paths (arch ∷ rest) = do path ← bin_path sys arch; paths ← bin_paths rest; pure (path ∷ paths)

  unfoldable pub build_paths : List Text → Exec (Build W) (List Text)
  unfolding image_build_path
  build_paths [] = pure []
  build_paths (arch ∷ rest) = do
    path ← image_build_path sys arch
    paths ← build_paths rest
    pure (path ∷ paths)

  unfoldable pub should_do_bins : Exec (Build W) Bool
  unfolding bin_paths should_do
  should_do_bins = do dsts ← bin_paths arches; should_do sys dsts

  unfoldable pub should_do_imgs : Exec (Build W) Bool
  unfolding build_paths should_do
  should_do_imgs = do dsts ← build_paths arches; should_do sys dsts

  unfoldable pub should_do_push : Exec (Build W) Bool
  unfolding manifest image_push_path should_do
  should_do_push = do
    base ← manifest sys
    path ← image_push_path sys base
    should_do sys (path ∷ [])
