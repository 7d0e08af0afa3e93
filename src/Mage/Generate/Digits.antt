-- ===== src/Mage/Generate/Digits.antt =====
-- Sixteen digits are enough for the hash in the name of a file.
use configmapsecrets.Prelude.{
  ℕ, zero, suc, ◌+◌, ◌-◌, ◌<◌, Text, codes, ltb, [], ◌∷◌, ◌++◌, ◌≡◌, refl, ap, sym, ◌∙◌, arith,
  if◌then◌else◌,
}
use Prim.Native.Nat.{◌*◌, ◌/◌, ◌%◌}
use configmapsecrets.Mage.Generate.{fnv, hex_before, main_file}

-- 16 to the power of one more than this
abbrev bound : ℕ → ℕ
bound zero = 16
bound (suc digits) = 16 * bound digits

abbrev digit : ℕ → ℕ
digit n = if ltb (n % 16) 10 then 48 + n % 16 else 65 + (n % 16 - 10)

-- With one digit there is no more to do for a number below 16.
hex_before-suc :
    (fuel n : ℕ) (after : Text)
    → hex_before (suc fuel) n after
      ≡ (if ltb n 16 then digit n ∷ after else hex_before fuel (n / 16) (digit n ∷ after))
unfolding hex_before
hex_before-suc fuel n after = refl

hex_before-enough :
    (digits more n : ℕ) (after : Text)
    → n < bound digits
    → hex_before (suc (more + digits)) n after ≡ hex_before (suc digits) n after
hex_before-enough zero more n after h =
    ground (arith, hex_before-suc (more + 0) n after, hex_before-suc 0 n after)
hex_before-enough (suc digits) more n after h =
    let next = hex_before-enough digits more (n / 16) (digit n ∷ after) in
    ground
      (arith, hex_before-suc (more + suc digits) n after, hex_before-suc (suc digits) n after, next)

fnv-bound : (s : Text) (hash : ℕ) → hash < bound 15 → fnv hash s < bound 15
unfolding fnv
fnv-bound [] hash h = h
fnv-bound (byte ∷ s) hash h = fnv-bound s _ (ground arith)

sixteen : (more : ℕ) → more + 16 ≡ suc (more + 15)
sixteen more = ground arith

-- With any more fuel the file of a package has the same name.
pub main_file-enough :
    (more : ℕ) (pkg : Text)
    → main_file pkg
      ≡ codes "main_" ++ (hex_before (more + 16) (fnv 14695981039346656037 pkg) [] ++ codes ".go")
unfolding main_file
main_file-enough more pkg =
    ap (λ t. codes "main_" ++ (t ++ codes ".go"))
      (sym (
        ap (λ fuel. hex_before fuel (fnv 14695981039346656037 pkg) []) (sixteen more)
        ∙ hex_before-enough 15 more (fnv 14695981039346656037 pkg) []
            (fnv-bound pkg 14695981039346656037 (ground arith))))
