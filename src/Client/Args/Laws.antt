-- ===== src/Client/Args/Laws.antt =====
-- http.go: options that are printed are read back.
use http_governance_client.Common.{
  ◌≡◌, refl, sym, ap, ◌∙◌, Bool, true, false, not, ◌&&◌, some, if◌then◌else◌, inl, inr, List, [],
  ◌∷◌, ◌++◌, is_empty, Bool-cases, Option-cases,
}
use http_governance_client.Common.Text.{Text, codes, trim_space}
use http_governance_client.Common.Text.{has_prefix, trim_right, trim_left, trim_right_idem}
use http_governance_client.Client.Args.{
  SetupOptions, SetupArg, no_options, after_prefix, after_dashes, cut_equals, flag_value,
  cut_or_next, flag_or_nothing, parse_setup_arg, with_arg, parse_from, parse_setup_args,
}

-- A flag with a value, in one argument.
pub data SetupFlag : Type 0 where
  env_flag name_flag consul_flag : SetupFlag

abbrev pub key_of : SetupFlag → Text
key_of env_flag = codes "env"
key_of name_flag = codes "name"
key_of consul_flag = codes "consul"

abbrev pub set_option : SetupFlag → Text → SetupOptions → SetupOptions
set_option env_flag v o = record { env = v; name = o.name; consul = o.consul }
set_option name_flag v o = record { env = o.env; name = v; consul = o.consul }
set_option consul_flag v o = record { env = o.env; name = o.name; consul = v }

abbrev pub print_flag : SetupFlag → Text → Text
print_flag f v = codes "--" ++ key_of f ++ codes "=" ++ v

-- No outer spaces.
abbrev pub IsTrimmed : Text → Type 0
IsTrimmed v = trim_space v ≡ v

trim_right-IsTrimmed : (v : Text) → IsTrimmed v → trim_right v ≡ v
unfolding trim_space
trim_right-IsTrimmed v h = ap trim_right (sym h) ∙ trim_right_idem (trim_left v) ∙ h

trim_space-print_flag :
    (f : SetupFlag) (v : Text) → IsTrimmed v → trim_space (print_flag f v) ≡ print_flag f v
unfolding trim_space trim_left trim_right
trim_space-print_flag env_flag v h = rw (trim_right-IsTrimmed v h) refl
trim_space-print_flag name_flag v h = rw (trim_right-IsTrimmed v h) refl
trim_space-print_flag consul_flag v h = rw (trim_right-IsTrimmed v h) refl

after_dashes-print_flag :
    (f : SetupFlag) (v : Text) → after_dashes (print_flag f v) ≡ some (key_of f ++ codes "=" ++ v)
unfolding after_dashes after_prefix
after_dashes-print_flag env_flag v = refl
after_dashes-print_flag name_flag v = refl
after_dashes-print_flag consul_flag v = refl

cut_equals-key_of :
    (f : SetupFlag) (v : Text) → cut_equals (key_of f ++ codes "=" ++ v) ≡ some (key_of f, v)
unfolding cut_equals
cut_equals-key_of env_flag v = refl
cut_equals-key_of name_flag v = refl
cut_equals-key_of consul_flag v = refl

key_of-IsTrimmed : (f : SetupFlag) → IsTrimmed (key_of f)
unfolding trim_space trim_left trim_right
key_of-IsTrimmed env_flag = refl
key_of-IsTrimmed name_flag = refl
key_of-IsTrimmed consul_flag = refl

abbrev arg_of : SetupFlag → Text → SetupArg
arg_of f v = record { key = key_of f; value = v; consumed_next = false }

cut_or_next-key_of :
    (f : SetupFlag) (v flag : Text) (args : List Text)
    → IsTrimmed v
    → cut_or_next flag (some (key_of f, v)) args ≡ arg_of f v
cut_or_next-key_of f v flag args h = rw (key_of-IsTrimmed f, h) refl

flag_or_nothing-key_of :
    (f : SetupFlag) (v : Text) (args : List Text)
    → IsTrimmed v
    → flag_or_nothing (some (key_of f ++ codes "=" ++ v)) args ≡ arg_of f v
flag_or_nothing-key_of env_flag v args h =
    ap (λ c. cut_or_next (codes "env=" ++ v) c args) (cut_equals-key_of env_flag v)
    ∙ cut_or_next-key_of env_flag v (codes "env=" ++ v) args h
flag_or_nothing-key_of name_flag v args h =
    ap (λ c. cut_or_next (codes "name=" ++ v) c args) (cut_equals-key_of name_flag v)
    ∙ cut_or_next-key_of name_flag v (codes "name=" ++ v) args h
flag_or_nothing-key_of consul_flag v args h =
    ap (λ c. cut_or_next (codes "consul=" ++ v) c args) (cut_equals-key_of consul_flag v)
    ∙ cut_or_next-key_of consul_flag v (codes "consul=" ++ v) args h

parse_setup_arg-print_flag :
    (f : SetupFlag) (v : Text) (args : List Text)
    → IsTrimmed v
    → parse_setup_arg (print_flag f v ∷ args) ≡ arg_of f v
unfolding parse_setup_arg
parse_setup_arg-print_flag f v args h =
    ap (λ t. flag_or_nothing (after_dashes t) args) (trim_space-print_flag f v h)
    ∙ ap (λ flag. flag_or_nothing flag args) (after_dashes-print_flag f v)
    ∙ flag_or_nothing-key_of f v args h

with_arg-arg_of :
    (f : SetupFlag) (v : Text) (o : SetupOptions) → with_arg (arg_of f v) o ≡ set_option f v o
unfolding with_arg
with_arg-arg_of env_flag v o = refl
with_arg-arg_of name_flag v o = refl
with_arg-arg_of consul_flag v o = refl

has_prefix-print_flag : (f : SetupFlag) (v : Text) → has_prefix (print_flag f v) (codes "-") ≡ true
unfolding has_prefix
has_prefix-print_flag f v = refl

parse_from_step :
    (o : SetupOptions) (skip : Bool) (arg : Text) (args : List Text) (a : SetupArg)
    → parse_setup_arg (arg ∷ args) ≡ a
    → parse_from o skip (arg ∷ args)
      ≡ parse_from (if skip then o else with_arg a o) (not skip && a.consumed_next) args
unfolding parse_from
parse_from_step o skip arg args a e =
    ap (λ b. parse_from (if skip then o else with_arg b o) (not skip && b.consumed_next) args) e

-- A last argument that is a flag does not change what the ones before say.
module _ (last : Text) (dashed : has_prefix (trim_space last) (codes "-") ≡ true) where
  flag_value-last :
      (flag : Text) (args : List Text) → flag_value flag (args ++ last ∷ []) ≡ flag_value flag args
  flag_value-last flag [] = rw dashed refl
  flag_value-last flag (next ∷ args) = refl

  parse_setup_arg-last :
      (arg : Text) (args : List Text)
      → parse_setup_arg (arg ∷ args ++ last ∷ []) ≡ parse_setup_arg (arg ∷ args)
  unfolding parse_setup_arg
  parse_setup_arg-last arg args = elim (Option-cases (after_dashes (trim_space arg))) [
    | inl e ↦ rw e refl
    | inr (flag, e) ↦ elim (Bool-cases (is_empty flag)) [
      | inl blank ↦ rw (e, blank) refl
      | inr named ↦ elim (Option-cases (cut_equals flag)) [
        | inl none_ ↦ rw (e, named, none_) (flag_value-last flag args)
        | inr (cut, some_) ↦ rw (e, named, some_) refl
      ]
    ]
  ]

  -- The last argument is not skipped: nothing before takes it for its value.
  consumed_next-single : (arg : Text) → (parse_setup_arg (arg ∷ [])).consumed_next ≡ false
  unfolding parse_setup_arg
  consumed_next-single arg = elim (Option-cases (after_dashes (trim_space arg))) [
    | inl e ↦ rw e refl
    | inr (flag, e) ↦ elim (Bool-cases (is_empty flag)) [
      | inl blank ↦ rw (e, blank) refl
      | inr named ↦ elim (Option-cases (cut_equals flag)) [
        | inl none_ ↦ rw (e, named, none_) refl
        | inr (cut, some_) ↦ rw (e, named, some_) refl
      ]
    ]
  ]

  nothing_skipped :
      (arg : Text) (skip : Bool) (args : List Text)
      → (not skip && (parse_setup_arg (arg ∷ args)).consumed_next) && is_empty args ≡ false
  nothing_skipped arg true args = refl
  nothing_skipped arg false [] = rw (consumed_next-single arg) refl
  nothing_skipped arg false (b ∷ args) =
      elim (Bool-cases (parse_setup_arg (arg ∷ b ∷ args)).consumed_next) [
        | inl e ↦ rw e refl
        | inr e ↦ rw e refl
      ]

  parse_from-last :
      (o : SetupOptions) (skip : Bool) (args : List Text)
      → skip && is_empty args ≡ false
      → parse_from o skip (args ++ last ∷ [])
        ≡ with_arg (parse_setup_arg (last ∷ [])) (parse_from o skip args)
  unfolding parse_from
  parse_from-last o true [] h = absurd (cc)
  parse_from-last o false [] h = refl
  parse_from-last o skip (arg ∷ args) h =
      let a = parse_setup_arg (arg ∷ args) in
      parse_from_step o skip arg (args ++ last ∷ []) a (parse_setup_arg-last arg args)
      ∙ parse_from-last (if skip then o else with_arg a o) (not skip && a.consumed_next) args
          (nothing_skipped arg skip args)

pub parse_setup_args-last :
    (args : List Text) (f : SetupFlag) (v : Text)
    → IsTrimmed v
    → parse_setup_args (args ++ print_flag f v ∷ []) ≡ set_option f v (parse_setup_args args)
unfolding parse_setup_args
parse_setup_args-last args f v h =
    let dashed : has_prefix (trim_space (print_flag f v)) (codes "-") ≡ true =
      ap (λ t. has_prefix t (codes "-")) (trim_space-print_flag f v h)
      ∙ has_prefix-print_flag f v in
    parse_from-last (print_flag f v) dashed no_options false args refl
    ∙ ap (λ a. with_arg a (parse_from no_options false args)) (parse_setup_arg-print_flag f v [] h)
    ∙ with_arg-arg_of f v (parse_from no_options false args)

abbrev pub print_setup_options : SetupOptions → List Text
print_setup_options o =
    print_flag env_flag o.env ∷ print_flag name_flag o.name ∷ print_flag consul_flag o.consul ∷ []

-- Options without outer spaces are read back from their flags.
pub parse_setup_args-print_setup_options :
    (o : SetupOptions)
    → IsTrimmed o.env
    → IsTrimmed o.name
    → IsTrimmed o.consul
    → parse_setup_args (print_setup_options o) ≡ o
unfolding parse_setup_args parse_from
parse_setup_args-print_setup_options o h k l =
    let first = parse_setup_args-last [] env_flag o.env h in
    let second = parse_setup_args-last (print_flag env_flag o.env ∷ []) name_flag o.name k in
    let third =
      parse_setup_args-last (print_flag env_flag o.env ∷ print_flag name_flag o.name ∷ [])
        consul_flag o.consul l in
    third ∙ ap (set_option consul_flag o.consul) (second ∙ ap (set_option name_flag o.name) first)
