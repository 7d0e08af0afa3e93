-- ===== src/Buildinfo/Time.antt =====
-- The time that Bins gives to the linker is the one that init finds.
use configmapsecrets.Prelude.{
  ℕ, zero, suc, ◌+◌, ◌<◌, Text, true, false, some, [], ◌∷◌, ◌≡◌, refl, arith,
}
use Prim.Native.Nat.{◌/◌, ◌%◌}
use configmapsecrets.Genapi.Texts.{null}
use configmapsecrets.Genapi.Idents.{all_digits}
use configmapsecrets.Genapi.Types.{digits_before, decimal}
use configmapsecrets.Mage.Users.{number_from}
use configmapsecrets.Buildinfo.{positive, Info, digits_below, parse_int, init}

number_from-digits_before :
    (fuel n : ℕ) (after : Text)
    → n < fuel
    → number_from 0 (digits_before fuel n after) ≡ number_from n after
unfolding number_from digits_before
number_from-digits_before zero n after h = ground arith
number_from-digits_before (suc fuel) n after h =
    ground (arith, number_from-digits_before fuel (n / 10) ((48 + n % 10) ∷ after))

all_digits-digits_before :
    (fuel n : ℕ) (after : Text)
    → all_digits after ≡ true
    → all_digits (digits_before fuel n after) ≡ true
unfolding all_digits digits_before
all_digits-digits_before zero n after h = h
all_digits-digits_before (suc fuel) n after h =
    ground (arith, all_digits-digits_before fuel (n / 10) ((48 + n % 10) ∷ after))

-- The first digit is not a sign.
starts_with_digit :
    (n : ℕ) (s : Text)
    → null s ≡ false
    → all_digits s ≡ true
    → number_from 0 s ≡ n
    → n < 9223372036854775808
    → parse_int s ≡ some (positive n)
unfolding parse_int digits_below all_digits
starts_with_digit n [] e d v h = ground arith
starts_with_digit n (c ∷ s) e d v h = ground arith

null-digits_before :
    (fuel n : ℕ) (after : Text) → n < fuel → null (digits_before fuel n after) ≡ false
unfolding digits_before
null-digits_before zero n after h = ground arith
null-digits_before (suc fuel) n after h =
    ground (arith, null-digits_before fuel (n / 10) ((48 + n % 10) ∷ after))

-- For a number of less than 64 bits without the sign, init finds as the build time the number of
-- which Bins gives the linker the decimal digits.
pub init-decimal :
    (info : Info) (n : ℕ)
    → n < 9223372036854775808
    → (init (record info { build_unix = decimal n })).build_time ≡ some (positive n)
unfolding init decimal
init-decimal info n h =
    rw
      (starts_with_digit n (decimal n) (null-digits_before (suc n) n [] (ground arith))
        (all_digits-digits_before (suc n) n [] (unfold all_digits in refl))
        (number_from-digits_before (suc n) n [] (ground arith)) h)
      refl
