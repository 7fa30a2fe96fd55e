-- ===== src/Common/Number.antt =====
-- What the sources use of package strconv: FormatInt and ParseInt in base 10, with 64 bits.
use Prim.Native.Nat.{ℕ, zero, suc, ◌+◌, ◌-◌, ◌*◌, ◌/◌, ◌%◌, ◌^◌, ◌<◌}
use mathlib.Core.Path.{◌≡◌, refl, ap, ◌∙◌, sym}
use mathlib.Core.Logic.{inl, inr}
use mathlib.Core.Bool.{Bool, true, false, ◌&&◌}
use mathlib.Core.Option.{Option, none, some}
use mathlib.Core.List.{[], ◌∷◌}
use native.Mathlib.Omega.{arith}
use http_governance_client.Common.Tests.{leb, ltb, ◌==◌, if◌then◌else◌, Bool-cases}
use http_governance_client.Common.Int.{ℤ, pos, negsuc}
use http_governance_client.Common.Lists.{is_empty}
use http_governance_client.Common.Word.{IsInt64}
use http_governance_client.Common.Text.{Text, trim_space, trim_right}

-- The decimal digits of n in front of `rest`; n < fuel is enough fuel.
unfoldable pub digits : ℕ → ℕ → Text → Text
digits zero n rest = rest
digits (suc f) n rest =
    let more = digits f (n / 10) ((b'0' + n % 10) ∷ rest) in
    if ltb n 10 then (b'0' + n) ∷ rest else more

abbrev pub is_digit : ℕ → Bool
is_digit c = leb b'0' c && leb c b'9'

-- The digits read so far stand for the accumulator.
unfoldable pub parse_digits : ℕ → Text → Option ℕ
parse_digits acc [] = some acc
parse_digits acc (c ∷ s) =
    let rest = parse_digits (acc * 10 + (c - b'0')) s in if is_digit c then rest else none

-- An unsigned number has at least one digit.
unfoldable pub parse_ℕ : Text → Option ℕ
unfolding parse_digits
parse_ℕ [] = none
parse_ℕ (c ∷ s) = parse_digits 0 (c ∷ s)

-- Values outside of int64 are errors.
abbrev in_range : Bool → ℕ → Option ℤ
in_range false n = if ltb n (2 ^ 63) then some (pos n) else none
in_range true zero = some (pos 0)
in_range true (suc n) = if ltb n (2 ^ 63) then some (negsuc n) else none

abbrev signed : Bool → Option ℕ → Option ℤ
signed minus none = none
signed minus (some n) = in_range minus n

-- strconv.ParseInt(value, 10, 64); `none` is an error.
unfoldable pub parse_int : Text → Option ℤ
unfolding parse_ℕ
parse_int [] = none
parse_int (c ∷ s) =
    if c == b'-'
    then signed true (parse_ℕ s)
    else if c == b'+'
    then signed false (parse_ℕ s)
    else signed false (parse_ℕ (c ∷ s))

-- strconv.FormatInt(value, 10)
unfoldable pub format_int : ℤ → Text
unfolding digits
format_int (pos n) = digits (suc n) n []
format_int (negsuc n) = b'-' ∷ digits (suc (suc n)) (suc n) []

parse_digits-digits :
    (f n : ℕ) (rest : Text) → n < f → parse_digits 0 (digits f n rest) ≡ parse_digits n rest
unfolding parse_digits digits
parse_digits-digits zero n rest h = elim h [ ]
parse_digits-digits (suc f) n rest h = elim (Bool-cases (ltb n 10)) [
  | inl e ↦ ground arith
  | inr e ↦
      rw e (parse_digits-digits f (n / 10) ((b'0' + n % 10) ∷ rest) (ground arith) ∙ ground arith)
]

-- The text of a number starts with a digit.
digits-head :
    (f n : ℕ) (rest : Text)
    → n < f
    → (c : ℕ) × (s : Text) × (digits f n rest ≡ c ∷ s) × (is_digit c ≡ true)
unfolding digits
digits-head zero n rest h = elim h [ ]
digits-head (suc f) n rest h = elim (Bool-cases (ltb n 10)) [
  | inl e ↦ (b'0' + n, rest, ground arith, ground arith)
  | inr e ↦ rw e (digits-head f (n / 10) ((b'0' + n % 10) ∷ rest) (ground arith))
]

pub parse_ℕ-digits : (n : ℕ) → parse_ℕ (digits (suc n) n []) ≡ some n
unfolding parse_ℕ
parse_ℕ-digits n =
    let (c, s, e, _) = digits-head (suc n) n [] (omega arith) in
    rw e (sym (ap (parse_digits 0) e) ∙ parse_digits-digits (suc n) n [] (omega arith))

-- Reading back what FormatInt writes, for every value of int64.
pub parse_int-format_int : (z : ℤ) → IsInt64 z → parse_int (format_int z) ≡ some z
unfolding parse_int format_int
parse_int-format_int (pos n) h =
    let (c, s, e, d) = digits-head (suc n) n [] (omega arith) in
    rw e (ground (arith, ap parse_ℕ e, parse_ℕ-digits n))
parse_int-format_int (negsuc n) h = rw parse_ℕ-digits (ground arith)

-- The text of a number has no blanks round it.
digits-trim :
    (f n : ℕ)
    → n < f
    → (rest : Text) → trim_right rest ≡ rest
    → trim_right (digits f n rest) ≡ digits f n rest
unfolding digits trim_right
digits-trim zero n h rest t = elim h [ ]
digits-trim (suc f) n h rest t = elim (Bool-cases (ltb n 10)) [
  | inl e ↦ ground arith
  | inr e ↦ rw e (digits-trim f (n / 10) (ground arith) ((b'0' + n % 10) ∷ rest) (ground arith))
]

pub trim_space-format_int : (z : ℤ) → trim_space (format_int z) ≡ format_int z
unfolding trim_space format_int
trim_space-format_int (pos n) =
    let (c, s, e, d) = digits-head (suc n) n [] (omega arith) in
    let t = digits-trim (suc n) n (omega arith) [] refl in
    rw e (ground (arith, ap trim_right e, t, e))
trim_space-format_int (negsuc n) =
    ground (arith, digits-trim (suc (suc n)) (suc n) (omega arith) [] refl)

pub is_empty-format_int : (z : ℤ) → is_empty (format_int z) ≡ false
unfolding format_int
is_empty-format_int (pos n) = let (c, s, e, d) = digits-head (suc n) n [] (omega arith) in rw e
is_empty-format_int (negsuc n) = refl
