-- ===== src/Mage/System.antt =====
-- magefile.go: what the build script runs on. `System` is the operating system, docker and git with
-- the packages sh, mg and target of github.com/magefile/mage; each call may read and change the
-- outside, of type W, and may fail. Nothing is assumed of it here.
use configmapsecrets.Prelude.{ℕ, Text, Map, Bool, Option, List}
use configmapsecrets.Runtime.{Result, ok, ForeignError, Exec, as_error}

-- The functions that the script hands to mg.Deps
pub data Target : Type 0 where
  init_repo_data : Target
  build_test_img : Target
  mk_build_dirs : Target
  pull_build_image : Target
  pull_base_image : Target
  bins : Target
  imgs : Target
  generate_code : Target
  generate_crds : Target
  generate_rbac : Target
  generate_docs : Target

-- How os.OpenFile and os.Create open a file
pub data Mode : Type 0 where
  truncate : Mode
  append : Mode

-- os.FileInfo of an entry of a directory
pub record Entry : Type 0 where
  pub name : Text
  pub is_dir : Bool

-- user.User
pub record User : Type 0 where
  pub uid : Text
  pub gid : Text

-- An entry of the manifest list that docker prints
pub record Platform : Type 0 where
  pub digest : Text
  pub arch : Text
  pub os : Text

-- The script's variables that change: the fields of trg that initRepoData sets, baseImages and
-- podman.v once they are set, and the outside.
pub record Build (W : Type 0) : Type 0 where
  pub world : W
  pub version : Text
  pub revision : Text
  pub branch : Text
  pub base_images : Option (Map Text Text)
  pub podman : Option Bool

-- A time is a number; zero is the zero Time.
pub record System (W : Type 0) : Type 0 where
  pub stat : Text → W → Result ForeignError ℕ × W
  pub read_dir : Text → W → Result ForeignError (List Entry) × W
  pub read_file : Text → W → Result ForeignError Text × W
  pub glob : Text → W → Result ForeignError (List Text) × W
  pub make_dirs : Text → W → Result ForeignError (Unit {0}) × W
  pub remove_file : Text → W → Result ForeignError (Unit {0}) × W
  pub remove_all : Text → W → Result ForeignError (Unit {0}) × W
  pub change_times : Text → ℕ → W → Result ForeignError (Unit {0}) × W
  pub link_file : Text → Text → W → Result ForeignError (Unit {0}) × W
  pub temp_dir : Text → W → Result ForeignError Text × W
  -- The name and the handle
  pub temp_file : Text → W → Result ForeignError (Text × ℕ) × W
  pub open_file : Mode → Text → W → Result ForeignError ℕ × W
  pub write : ℕ → Text → W → Result ForeignError (Unit {0}) × W
  pub close : ℕ → W → Result ForeignError (Unit {0}) × W
  pub working_dir : W → Result ForeignError Text × W
  pub get_env : Text → W → Text × W
  pub now : W → ℕ × W
  -- time.Time.Unix
  pub unix : ℕ → ℕ
  pub current_user : W → Result ForeignError User × W
  -- sh.RunWith (and sh.Exec) and sh.OutputWith, with the variables that they add to the environment
  pub run : Map Text Text → List Text → W → Result ForeignError (Unit {0}) × W
  pub output : Map Text Text → List Text → W → Result ForeignError Text × W
  -- exec.Command with the script's own input and output, and its Run
  pub run_shell : List Text → W → Result ForeignError (Unit {0}) × W
  -- mg.GoCmd
  pub go_cmd : W → Text × W
  -- target.Dir
  pub newer_sources : Text → List Text → W → Result ForeignError Bool × W
  -- mg.Deps, which runs functions of the script that have not run yet, and exits if one fails
  pub deps : List Target → Build W → Result ForeignError (Unit {0}) × Build W
  -- os.IsNotExist and os.IsExist
  pub is_not_exist : ForeignError → Bool
  pub is_exist : ForeignError → Bool
  -- json.Unmarshal of a manifest list, and the error of strconv.Atoi
  pub parse_manifests : Text → Result ForeignError (List Platform)
  pub not_a_number : Text → ForeignError

module _ {W A : Type 0} where
  -- A call of the outside, its error passed on
  abbrev pub call : (W → Result ForeignError A × W) → Exec (Build W) A
  call f s = let (r, w) = f s.world in (as_error r, record s { world = w })

  -- A value that a call of the outside gives without fail
  abbrev pub ask : (W → A × W) → Exec (Build W) A
  ask f s = let (a, w) = f s.world in (ok a, record s { world = w })

-- mg.Deps
abbrev pub need : {W : Type 0} → System W → List Target → Exec (Build W) (Unit {0})
need sys targets s = let (r, s') = sys.deps targets s in (as_error r, s')

-- An action, and then what was deferred, whose own result is dropped
abbrev pub finally : {S A B : Type 0} → Exec S A → Exec S B → Exec S A
finally action deferred s = let (r, s') = action s in let (_, s'') = deferred s' in (r, s'')
