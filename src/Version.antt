-- ===== src/Version.antt =====
-- ModelManager::GetHighestVersion (src/core/model_manager/model_manager.cc) and std::stoll, by which it
-- reads the name of a version's directory.
pub mod Highest
use Prim.Native.String as Text
use model_inference_server.Common.{
  ℕ, suc, ◌+◌, ◌-◌, ◌*◌, ◌^◌, String, code, Bool, true, false, ◌&&◌, ◌||◌, List, [], ◌∷◌, ltb, leb,
  nat_eq, if◌then◌else◌, ℤ, pos, negsuc, ltb_ℤ,
}
use model_inference_server.Outcome.{Outcome, returns, throws, invalid_argument, out_of_range}

-- The bytes of an ASCII text.
abbrev pub codes : String → List ℕ
codes Text.[] = []
codes (Text.◌∷◌ c s) = code c ∷ codes s

-- isspace
abbrev is_space : ℕ → Bool
is_space c = nat_eq c 32 || (leb 9 c && leb c 13)

abbrev is_digit : ℕ → Bool
is_digit c = leb b'0' c && leb c b'9'

abbrev pub skip_spaces : List ℕ → List ℕ
skip_spaces [] = []
skip_spaces (c ∷ cs) = let rest = skip_spaces cs in if is_space c then rest else c ∷ cs

-- The value of the leading digits, after `seen` digits of value `n`.
abbrev digits_value : ℕ → ℕ → List ℕ → ℕ × ℕ
digits_value seen n [] = (seen, n)
digits_value seen n (c ∷ cs) =
    let rest = digits_value (suc seen) (n * 10 + (c - b'0')) cs in
    if is_digit c then rest else (seen, n)

-- -n
abbrev negated : ℕ → ℤ
negated n = if nat_eq n 0 then pos 0 else negsuc (n - 1)

-- No digit is an invalid argument; a value outside of 64 bits is out of range.
pub in_range : Bool → ℕ × ℕ → Outcome ℤ
in_range negative (seen, n) =
    if nat_eq seen 0
    then throws invalid_argument
    else if negative
    then (if leb n (2 ^ 63) then returns (negated n) else throws out_of_range)
    else if ltb n (2 ^ 63)
    then returns (pos n)
    else throws out_of_range

pub signed : List ℕ → Outcome ℤ
unfolding in_range
signed [] = throws invalid_argument
signed (c ∷ cs) =
    if nat_eq c b'-'
    then in_range true (digits_value 0 0 cs)
    else if nat_eq c b'+'
    then in_range false (digits_value 0 0 cs)
    else in_range false (digits_value 0 0 (c ∷ cs))

-- std::stoll(dir), in base ten: what follows the digits is ignored.
unfoldable pub stoll : String → Outcome ℤ
unfolding signed
stoll dir = signed (skip_spaces (codes dir))

-- One pass of the loop; the two exceptions are logged, and the directory is skipped.
abbrev pub consider : ℤ → Outcome ℤ → Outcome ℤ
consider highest (returns version) = returns (if ltb_ℤ highest version then version else highest)
consider highest (throws invalid_argument) = returns highest
consider highest (throws out_of_range) = returns highest
consider highest (throws e) = throws e

abbrev pub then_rest : (ℤ → Outcome ℤ) → Outcome ℤ → Outcome ℤ
then_rest rest (returns highest) = rest highest
then_rest rest (throws e) = throws e

unfoldable pub highest_of : List String → ℤ → Outcome ℤ
highest_of [] highest = returns highest
highest_of (dir ∷ dirs) highest = then_rest (highest_of dirs) (consider highest (stoll dir))
