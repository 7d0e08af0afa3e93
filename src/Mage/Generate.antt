-- ===== src/Mage/Generate.antt =====
-- magefile.go: the functions of Generate, and the program that generateDocs runs.
pub mod Digits
use configmapsecrets.Prelude.{
  ℕ, zero, suc, ◌+◌, ◌-◌, Text, codes, ltb, Bool, true, false, [], ◌∷◌, ◌++◌, if◌then◌else◌,
}
use Prim.Native.Nat.{◌*◌, ◌/◌, ◌%◌, bit_xor}
use configmapsecrets.Runtime.{Exec, ◌>>=◌, ◌>>◌, pure}
use configmapsecrets.Mage.System.{
  System, Build, generate_code, generate_crds, generate_rbac, generate_docs, call, ask, need,
}
use configmapsecrets.Mage.Files.{write_file}
use configmapsecrets.Mage.Dates.{should_do}
use configmapsecrets.Mage.Names.{cache_path}

-- hash/fnv's New64a on bytes from a hash: the byte changes the low eight bits, and the product
-- wraps around at 64 bits.
unfoldable pub fnv : ℕ → Text → ℕ
fnv hash [] = hash
fnv hash (byte ∷ bytes) =
    fnv ((hash / 256 * 256 + bit_xor (hash % 256) byte) * 1099511628211 % 18446744073709551616)
      bytes

-- %0X: the digits of a number in base 16, before those that follow; 16 digits are enough
unfoldable pub hex_before : ℕ → ℕ → Text → Text
hex_before zero n after = after
hex_before (suc fuel) n after =
    let digit = if ltb (n % 16) 10 then b'0' + n % 16 else b'A' + (n % 16 - 10) in
    let more = hex_before fuel (n / 16) (digit ∷ after) in if ltb n 16 then digit ∷ after else more

-- The name of the program's file for a package
unfoldable pub main_file : Text → Text
unfolding fnv hex_before
main_file pkg = codes "main_" ++ (hex_before 16 (fnv 14695981039346656037 pkg) [] ++ codes ".go")

-- genapiTmpl
unfoldable pub program : Text → Text
program pkg =
    codes
      "\npackage main\n\nimport (\n\t\"bytes\"\n\t\"fmt\"\n\t\"io\"\n\t\"os\"\n\n\t\"github.com/machinezone/configmapsecrets/pkg/genapi\"\n\t\"k8s.io/apimachinery/pkg/runtime\"\n\n\tapi \""
    ++ (pkg
        ++ (codes "\"\n)\n\nfunc main() {\n\tpkg, err := genapi.ParsePackage(\""
            ++ (pkg
                ++ codes
                    "\")\n\tcheck(err)\n\n\tscheme := runtime.NewScheme()\n\tcheck(api.AddToScheme(scheme))\n\n\tbuf := bytes.NewBuffer(nil)\n\tcheck(genapi.WriteMarkdown(buf, pkg, genapi.WithScheme(scheme)))\n\n\t_, err = io.Copy(os.Stdout, buf)\n\tcheck(err)\n}\n\nfunc check(err error) {\n\tif err != nil {\n\t\tfmt.Fprint(os.Stderr, err)\n\t\tos.Exit(1)\n\t}\n}\n")))

module _ {W : Type 0} (sys : System W) where
  -- Generate
  unfoldable pub generate : Exec (Build W) (Unit {0})
  generate = need sys (generate_code ∷ generate_crds ∷ generate_rbac ∷ generate_docs ∷ [])

  -- generateCode
  unfoldable pub generate_the_code : Exec (Build W) (Unit {0})
  generate_the_code = call (
      sys.run [] (
        codes "controller-gen"
        ∷ codes "object:headerFile=./hack/boilerplate.go.txt"
        ∷ codes "paths=./pkg/api/..."
        ∷ []))

  -- generateCDRs
  unfoldable pub generate_the_crds : Exec (Build W) (Unit {0})
  unfolding write_file
  generate_the_crds = do
    out ← call (
        sys.output [] (
          codes "controller-gen"
          ∷ codes "crd:crdVersions=v1"
          ∷ codes "paths=./pkg/..."
          ∷ codes "output:stdout"
          ∷ []))
    write_file sys (codes "manifest/customresourcedefinition.yaml") out

  -- generateRBAC
  unfoldable pub generate_the_rbac : Exec (Build W) (Unit {0})
  unfolding write_file
  generate_the_rbac = do
    out ← call (
        sys.output [] (
          codes "controller-gen"
          ∷ codes "rbac:roleName=configmapsecret-controller"
          ∷ codes "paths=./cmd/...;./pkg/..."
          ∷ codes "output:stdout"
          ∷ []))
    write_file sys (codes "manifest/roles.yaml") out

  unfoldable pub write_program : Text → Text → Bool → Exec (Build W) (Unit {0})
  unfolding write_file program
  write_program pkg path false = pure tt
  write_program pkg path true = write_file sys path (program pkg)

  -- genapiCode
  unfoldable pub docs_program : Text → Exec (Build W) Text
  unfolding cache_path should_do write_program main_file
  docs_program pkg = do
    path ← cache_path sys (codes "docs" ∷ main_file pkg ∷ [])
    due ← should_do sys (path ∷ [])
    write_program pkg path due
    pure path

  -- generateDocs
  unfoldable pub generate_the_docs : Exec (Build W) (Unit {0})
  unfolding docs_program write_file
  generate_the_docs = do
    path ← docs_program (codes "github.com/machinezone/configmapsecrets/pkg/api/v1alpha1")
    need sys (generate_code ∷ [])
    go ← ask sys.go_cmd
    out ← call (sys.output [] (go ∷ codes "run" ∷ path ∷ []))
    write_file sys (codes "docs/api.md") out
