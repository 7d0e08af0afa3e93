-- ===== src/Buildinfo.antt =====
-- pkg/buildinfo/info.go: the variables that the linker sets, init, the metrics of Collector, and
-- Print. Prometheus and the logger are not modelled; a metric is what is given to them.
pub mod Time
use configmapsecrets.Prelude.{
  ℕ, suc, ◌+◌, Text, codes, nat_eq, ltb, Bool, true, false, not, ◌&&◌, ◌||◌, Option, none, some,
  List, [], ◌∷◌, ◌++◌, join, if◌then◌else◌,
}
use configmapsecrets.Genapi.Texts.{null}
use configmapsecrets.Genapi.Markdown.{trim_space}
use configmapsecrets.Genapi.Idents.{all_digits}
use configmapsecrets.Mage.Users.{number_from}

-- A number of 64 bits with a sign
pub data Int64 : Type 0 where
  positive : ℕ → Int64
  negative : ℕ → Int64

-- The variables; the time is in seconds since 1970, and none is the zero Time.
pub record Info : Type 0 where
  pub binary : Text
  pub version : Text
  pub repo : Text
  pub revision : Text
  pub branch : Text
  pub build_time : Option Int64
  pub build_unix : Text

abbrev unknown : Text
unknown = codes "unknown"

-- The variables as they are declared
abbrev pub declared : Info
declared = record {
  binary = unknown;
  version = unknown;
  repo = unknown;
  revision = unknown;
  branch = unknown;
  build_time = none;
  build_unix = [];
}

-- The digits of strconv.ParseInt behind a sign: none where there is no number, or one out of range
unfoldable pub digits_below : ℕ → Text → Option ℕ
unfolding all_digits number_from
digits_below bound s =
    if not (null s) && all_digits s && ltb (number_from 0 s) bound
    then some (number_from 0 s)
    else none

abbrev pub signed : (ℕ → Int64) → Option ℕ → Option Int64
signed sign none = none
signed sign (some n) = some (sign n)

-- strconv.ParseInt(s, 10, 64)
unfoldable pub parse_int : Text → Option Int64
unfolding digits_below
parse_int [] = none
parse_int (c ∷ s) =
    if nat_eq c b'-'
    then signed negative (digits_below 9223372036854775809 s)
    else if nat_eq c b'+'
    then signed positive (digits_below 9223372036854775808 s)
    else signed positive (digits_below 9223372036854775808 (c ∷ s))

abbrev time_or : Option Int64 → Option Int64 → Option Int64
time_or none time = time
time_or (some t) time = some t

-- init
unfoldable pub init : Info → Info
unfolding parse_int
init info = record info { build_time = time_or (parse_int info.build_unix) info.build_time }

-- Time.IsZero, which is true of one number of seconds too
unfoldable pub is_zero : Option Int64 → Bool
is_zero none = true
is_zero (some (positive n)) = false
is_zero (some (negative n)) = nat_eq n 62135596800

-- What is given to prometheus for a gauge
pub record Gauge : Type 0 where
  pub name : Text
  pub labels : List (Text × Text)
  pub value : Int64

abbrev seconds : Option Int64 → Int64
seconds none = negative 62135596800
seconds (some t) = t

-- Collector
unfoldable pub collector : Info → List Gauge
unfolding is_zero
collector info =
    record {
      name = codes "build_info";
      labels =
          (codes "binary", info.binary)
          ∷ (codes "version", info.version)
          ∷ (codes "repo", info.repo)
          ∷ (codes "revision", info.revision)
          ∷ (codes "branch", info.branch)
          ∷ [];
      value = positive 1;
    }
    ∷ (if is_zero info.build_time
        then []
        else record { name = codes "build_time"; labels = []; value = seconds info.build_time }
          ∷ [])

-- html/template in the text of a page: how it writes a character of a value
unfoldable pub html_char : ℕ → Text
html_char c =
    if nat_eq c 0
    then 65533 ∷ []
    else if nat_eq c b'"'
    then codes "&#34;"
    else if nat_eq c b'&'
    then codes "&amp;"
    else if nat_eq c b'\''
    then codes "&#39;"
    else if nat_eq c b'+'
    then codes "&#43;"
    else if nat_eq c b'<'
    then codes "&lt;"
    else if nat_eq c b'>'
    then codes "&gt;"
    else c ∷ []

unfoldable pub html_escape : Text → Text
unfolding html_char
html_escape [] = []
html_escape (c ∷ s) = html_char c ++ html_escape s

-- A line of the template
abbrev line : Text → Text → Text
line label value = codes "  " ++ (label ++ (html_escape value ++ codes "\n"))

-- Print; time.Time.Format and runtime.Version are arguments.
unfoldable pub print : (Option Int64 → Text) → Text → Info → Text
unfolding html_escape trim_space
print format go_version info = trim_space (
    html_escape info.binary
    ++ (codes "\n"
        ++ join
            (line (codes "version:    ") info.version
              ∷ line (codes "repo:       ") info.repo
              ∷ line (codes "revision:   ") info.revision
              ∷ line (codes "branch:     ") info.branch
              ∷ line (codes "build time: ") (format info.build_time)
              ∷ line (codes "go version: ") go_version
              ∷ [])
            []))
