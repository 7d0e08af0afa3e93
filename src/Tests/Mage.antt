-- ===== src/Tests/Mage.antt =====
-- The build script on a small system that keeps the times of files and the commands that it ran.
use configmapsecrets.Prelude.{
  ℕ, ◌≤◌, Text, codes, Map, lookup, text_eq, text_equality, Option, none, some, List, [], ◌∷◌, ◌++◌,
  true, false, ◌≡◌, refl, arith,
}
use configmapsecrets.Runtime.{Result, ok, err, ForeignError, ◌>>=◌}
use configmapsecrets.Genapi.Texts.{member}
use configmapsecrets.Mage.System.{System, Build}
use configmapsecrets.Mage.Dates.{Dated, earliest_mod}
use configmapsecrets.Mage.Dates.Least.{IsLeast, earliest_mod-IsLeast}
use configmapsecrets.Mage.Users.{max_ids, id_ranges, podman_args}
use configmapsecrets.Mage.Users.Ranges.{host_id, container_id, id_ranges-bijective}
use configmapsecrets.Mage.Names.{arches, image_file, arch_tag, image, manifest, registry, version}
use configmapsecrets.Mage.Generate.{main_file}
use configmapsecrets.Mage.Publish.{push_due, push_images, annotate, get_elem?}
use configmapsecrets.Mage.Publish.Indices.{push_all, push_due-push_all}

record Disk : Type 0 where
  files : Map Text ℕ
  commands : List (List Text)

abbrev no_file : ForeignError
no_file = record { reason = codes "NotExist"; message = codes "no such file" }

abbrev as_result : Option ℕ → Result ForeignError ℕ
as_result none = err no_file
as_result (some time) = ok time

abbrev time_on : Map Text ℕ → Text → Result ForeignError ℕ
time_on files path = as_result (lookup path files)

-- The second to last word of a command, to tell the digests of two images
abbrev last_word : List Text → Text
last_word [] = []
last_word (w ∷ []) = w
last_word (_ ∷ w ∷ ws) = last_word (w ∷ ws)

abbrev ran : List Text → Disk → Disk
ran command w = record w { commands = w.commands ++ command ∷ [] }

abbrev host : Map Text ℕ → System Disk
host times = record {
  stat = λ path w. (time_on times path, w);
  read_dir = λ path w. (ok [], w);
  read_file = λ path w. (err no_file, w);
  glob = λ pattern w. (ok (pattern ∷ []), w);
  make_dirs = λ path w. (ok tt, w);
  remove_file = λ path w. (ok tt, w);
  remove_all = λ path w. (ok tt, w);
  change_times = λ path time w. (ok tt, w);
  link_file = λ a b w. (ok tt, w);
  temp_dir = λ p w. (ok (codes "/tmp/" ++ p), w);
  temp_file = λ p w. (ok (codes "/tmp/" ++ p, 3), w);
  open_file = λ mode path w. (ok 4, ran (codes "open" ∷ path ∷ []) w);
  write = λ file text w. (ok tt, ran (codes "write" ∷ text ∷ []) w);
  close = λ file w. (ok tt, w);
  working_dir = λ w. (ok (codes "/src"), w);
  get_env = λ name w. (codes "r", w);
  now = λ w. (7, w);
  unix = λ t. t;
  current_user = λ w. (ok (record { uid = codes "1000"; gid = codes "100" }), w);
  run = λ env command w. (ok tt, ran command w);
  output = λ env command w. (ok (codes "#" ++ last_word command), ran command w);
  run_shell = λ command w. (ok tt, ran command w);
  go_cmd = λ w. (codes "go", w);
  newer_sources = λ dst srcs w. (ok true, w);
  deps = λ targets s. (ok tt, s);
  is_not_exist = λ e. true;
  is_exist = λ e. false;
  parse_manifests = λ out. ok [];
  not_a_number = λ s. no_file;
}

abbrev times : Map Text ℕ
times = (codes "a", 9) ∷ (codes "b", 4) ∷ (codes "c", 6) ∷ []

abbrev fresh : Build Disk
fresh = record {
  world = record { files = times; commands = [] };
  version = codes "v1";
  revision = codes "f00";
  branch = codes "main";
  base_images = none;
  podman = none;
}

abbrev outputs : List Text
outputs = codes "b" ∷ codes "c" ∷ []

earliest_mod-IsLeast_example :
    (d : Dated) × (earliest_mod (host times) (codes "a" ∷ outputs) fresh ≡ (ok d, fresh))
    × IsLeast (time_on times) (λ f. member f (codes "a" ∷ outputs)) d
unfolding lookup text_eq
earliest_mod-IsLeast_example =
    earliest_mod-IsLeast (time_on times) (host times) (λ f w. refl) (codes "a") outputs fresh
      ((9, refl, ground arith), ((4, refl, ground arith), ((6, refl, ground arith), tt)))

earliest_run :
    earliest_mod (host times) (codes "a" ∷ outputs) fresh
    ≡ (ok (record { name = codes "b"; time = 4 }), fresh)
unfolding earliest_mod lookup text_eq
earliest_run = refl

id_ranges-bijective_example :
    ((h : ℕ) × (h ≤ max_ids)
      × (host_id (id_ranges 1000) 7 ≡ some h)
      × (container_id (id_ranges 1000) h ≡ some 7))
    × ((c : ℕ) × (c ≤ max_ids)
        × (container_id (id_ranges 1000) 7 ≡ some c)
        × (host_id (id_ranges 1000) c ≡ some 7))
    × (host_id (id_ranges 1000) 1000 ≡ some 0)
    × (host_id (id_ranges 1000) 70000 ≡ none)
    × (container_id (id_ranges 1000) 70000 ≡ none)
id_ranges-bijective_example =
    id_ranges-bijective 1000 7 70000 (ground arith) (ground arith) (ground arith)

podman_run :
    podman_args 1000 100
    ≡ codes "-u"
      ∷ codes "1000:100"
      ∷ codes "--uidmap"
      ∷ codes "1000:0:1"
      ∷ codes "--uidmap"
      ∷ codes "0:1:1000"
      ∷ codes "--uidmap"
      ∷ codes "1001:1001:64536"
      ∷ codes "--gidmap"
      ∷ codes "100:0:1"
      ∷ codes "--gidmap"
      ∷ codes "0:1:100"
      ∷ codes "--gidmap"
      ∷ codes "101:101:65436"
      ∷ []
unfolding podman_args
podman_run = refl

image_file_run : image_file (codes "r/n:v1") ≡ codes "r_n-v1"
unfolding image_file
image_file_run = refl

main_file_run : main_file (codes "a") ≡ codes "main_AF63DC4C8601EC8C.go"
unfolding main_file
main_file_run = refl

push_due-push_all_example : push_due (host times) true fresh ≡ push_all (host times) fresh
push_due-push_all_example = push_due-push_all (host times) fresh

abbrev annotation : Text → Text → List Text
annotation tag arch =
    codes "docker"
    ∷ codes "manifest"
    ∷ codes "annotate"
    ∷ codes "r/n:v1"
    ∷ tag
    ∷ codes "--os"
    ∷ codes "linux"
    ∷ codes "--arch"
    ∷ arch
    ∷ []

abbrev digests : List Text
digests = codes "x" ∷ codes "y" ∷ codes "z" ∷ []

annotate_run :
    (annotate (host times) (codes "r/n:v1") digests 0 arches fresh).1.world.commands
    ≡ annotation (codes "x") (codes "amd64")
      ∷ annotation (codes "y") (codes "arm")
      ∷ annotation (codes "z") (codes "arm64")
      ∷ []
unfolding annotate get_elem? ◌>>=◌
annotate_run = refl

push_images_run :
    (push_images (host times) [] (codes "arm" ∷ []) fresh).1.world.commands
    ≡ (codes "docker"
        ∷ codes "tag"
        ∷ codes "r/configmapsecret-controller:v1__linux_arm"
        ∷ codes "r/configmapsecret-controller:__unstable__linux_arm"
        ∷ [])
      ∷ (codes "docker"
          ∷ codes "push"
          ∷ codes "r/configmapsecret-controller:__unstable__linux_arm"
          ∷ [])
      ∷ (codes "docker"
          ∷ codes "inspect"
          ∷ codes "--format={{index .RepoDigests 0}}"
          ∷ codes "r/configmapsecret-controller:__unstable__linux_arm"
          ∷ [])
      ∷ []
unfolding push_images arch_tag image manifest registry version ◌>>=◌
push_images_run = refl
