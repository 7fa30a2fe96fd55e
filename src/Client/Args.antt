-- ===== src/Client/Args.antt =====
-- http.go: the options in the arguments of the process.
use http_governance_client.Common.{
  ℕ, zero, suc, ◌+◌, ◌-◌, ◌*◌, ◌/◌, ◌%◌, ◌^◌, ◌≤◌, ◌<◌, ◌≡◌, ◌≢◌, ◌↔◌, refl, sym, ap, ◌∙◌, Bool,
  true, false, not, ◌&&◌, ◌||◌, Option, none, some, arith, ℤ, pos, negsuc, pos_part, neg_part, ◌<ℤ◌,
  ◌≤ℤ◌, ◌+ℤ◌, ◌-ℤ◌, ◌*ℤ◌, leb_ℤ, ltb_ℤ, eqb_ℤ, eqb_ℤ_iff, IsInt64, max_int64, min_int64, wrap64,
  wrap64_eq, add64, sub64, mul64, add64_eq, sub64_eq, mul64_eq, sub_saturated, +ℤ_parts, -ℤ_parts,
  eq_of_parts, if◌then◌else◌, ◌⊎◌, inl, inr, List, [], ◌∷◌, ◌++◌, map, any, All, length, is_empty,
  Bool-cases, Option-cases, ltb, leb, ◌==◌, Result, ok, err, ◌>>=◌, ◌>>◌, fail_if, dec_lt,
  Result-cases, value_or, IsOk, IsOk-first,
}
use http_governance_client.Common.Text.{
  Text, codes, text_eq, text_eq_iff, text_eq_refl, text_eq_sound, trim_space, trim_space_idem,
  to_lower, to_upper, to_upper_idem, to_lower_idem, equal_fold,
}
use http_governance_client.Common.Number.{
  parse_int, format_int, parse_int-format_int, trim_space-format_int, is_empty-format_int,
}
pub mod Laws
use http_governance_client.Common.Text.{has_prefix}

pub record SetupOptions : Type 0 where
  pub env : Text
  pub name : Text
  pub consul : Text

abbrev pub no_options : SetupOptions
no_options = record { env = []; name = []; consul = [] }

-- What one argument says, and whether its value is the next argument.
pub record SetupArg : Type 0 where
  pub key : Text
  pub value : Text
  pub consumed_next : Bool

abbrev pub no_arg : SetupArg
no_arg = record { key = []; value = []; consumed_next = false }

-- strings.HasPrefix, and strings.TrimPrefix where it holds
unfoldable pub after_prefix : Text → Text → Option Text
after_prefix s [] = some s
after_prefix [] (p ∷ ps) = none
after_prefix (c ∷ s) (p ∷ ps) = let rest = after_prefix s ps in if c == p then rest else none

abbrev pub or_else {ℓ} : {A : Type ℓ} → Option A → Option A → Option A
or_else (some a) b = some a
or_else none b = b

unfoldable pub after_dashes : Text → Option Text
unfolding after_prefix
after_dashes s = or_else (after_prefix s (codes "--")) (after_prefix s (codes "-"))

abbrev pub prepended : ℕ → Option (Text × Text) → Option (Text × Text)
prepended c none = none
prepended c (some (before, after)) = some (c ∷ before, after)

-- strings.Cut at "="
unfoldable pub cut_equals : Text → Option (Text × Text)
cut_equals [] = none
cut_equals (c ∷ s) = let rest = cut_equals s in if c == b'=' then some ([], s) else prepended c rest

-- A flag without "=": its value is the next argument, unless that is a flag.
abbrev pub flag_value : Text → List Text → SetupArg
flag_value flag [] = record { key = trim_space flag; value = []; consumed_next = false }
flag_value flag (next ∷ args) =
    if has_prefix (trim_space next) (codes "-")
    then record { key = trim_space flag; value = []; consumed_next = false }
    else record { key = trim_space flag; value = trim_space next; consumed_next = true }

abbrev pub cut_or_next : Text → Option (Text × Text) → List Text → SetupArg
cut_or_next flag (some (before, after)) args = record {
  key = trim_space before;
  value = trim_space after;
  consumed_next = false;
}
cut_or_next flag none args = flag_value flag args

abbrev pub flag_or_nothing : Option Text → List Text → SetupArg
flag_or_nothing none args = no_arg
flag_or_nothing (some flag) args =
    if is_empty flag then no_arg else cut_or_next flag (cut_equals flag) args

-- The arguments from the index on.
unfoldable pub parse_setup_arg : List Text → SetupArg
unfolding trim_space after_dashes cut_equals has_prefix
parse_setup_arg [] = no_arg
parse_setup_arg (current ∷ args) = flag_or_nothing (after_dashes (trim_space current)) args

-- `switch key`
unfoldable pub with_arg : SetupArg → SetupOptions → SetupOptions
unfolding text_eq
with_arg a o =
    if text_eq a.key (codes "env") || text_eq a.key (codes "e")
    then record { env = a.value; name = o.name; consul = o.consul }
    else if text_eq a.key (codes "name") || text_eq a.key (codes "n")
    then record { env = o.env; name = a.value; consul = o.consul }
    else if text_eq a.key (codes "consul") || text_eq a.key (codes "c")
    then record { env = o.env; name = o.name; consul = a.value }
    else o

-- The loop: an argument that was consumed is skipped.
unfoldable pub parse_from : SetupOptions → Bool → List Text → SetupOptions
unfolding parse_setup_arg with_arg
parse_from o skip [] = o
parse_from o skip (arg ∷ args) =
    let a = parse_setup_arg (arg ∷ args) in
    parse_from (if skip then o else with_arg a o) (not skip && a.consumed_next) args

unfoldable pub parse_setup_args : List Text → SetupOptions
unfolding parse_from
parse_setup_args args = parse_from no_options false args
