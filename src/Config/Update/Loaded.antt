-- ===== src/Config/Update/Loaded.antt =====
-- retry_config_file.go: what a provider keeps that was loaded from a file, whatever the file.
use http_governance_client.Common.{
  ℕ, suc, ◌<◌, ◌≡◌, refl, sym, ap, Bool, true, false, Option, none, some, arith, if◌then◌else◌, ◌⊎◌,
  inl, inr, List, [], ◌∷◌, All, Bool-cases, Result-cases, value_or, Result, ok, err,
}
use http_governance_client.Common.Text.{Text, text_eq, trim_space}
use http_governance_client.Types.Policy.{
  RetryPolicyPatch, RequestClass, internal_read, internal_write, external_read, external_write,
}
use http_governance_client.Policy.Patch.{IsPatch}
use http_governance_client.Budget.Config.{
  RetryBudgetFile, RetryBudgetConfig, to_config, validate_retry_budget_file_layer, IsValid,
  to_config-IsValid, disabled,
}
use http_governance_client.Config.Match.{PathMatch, specificity}
use http_governance_client.Config.Provider.{
  ManagedRetryConfigProvider, CompiledRetryConfigRule, ClassPatches,
}
use http_governance_client.Config.Patches.{ParseDuration, to_patch, to_patch-IsPatch}
use http_governance_client.Config.Order.{All-sort_stable}
use http_governance_client.Config.Compile.{
  validate_config_version, normalize_patterns, validate_glob_patterns, compile_downstreams,
  compile_operation_rules, rules_of, compile_rule, claim_if_named, with_rule,
  compile_retry_config_match,
}
use http_governance_client.Config.File.{
  RetryPolicyPatchFile, RetryConfigRuleFile, RetryConfigFile, internal_hosts, ConfigError,
}
use http_governance_client.Config.Provider.{new_managed_retry_config_provider}
use http_governance_client.Config.Update.{
  class_patches_of, add_class_patch, compile_retry_config_file, load, update_provider, sort_rules,
}

-- A rule of a loaded provider: its patch is one that the loader accepts, and it names something to
-- match.
abbrev pub IsRule : CompiledRetryConfigRule → Type 0
IsRule r = IsPatch r.patch × (r.specificity ≡ specificity r.match) × (0 < r.specificity)

abbrev pub IsClassPatch : Option RetryPolicyPatch → Type 0
IsClassPatch none = Unit
IsClassPatch (some p) = IsPatch p

abbrev pub IsBudget : RetryBudgetConfig → Type 0
IsBudget c = (c ≡ disabled) ⊎ IsValid c

pub record IsLoaded (p : ManagedRetryConfigProvider) : Type 0 where
  pub rule_by_rule : All IsRule p.rules
  pub class_by_class : (class : RequestClass) → IsClassPatch (p.class_patches class)
  pub budget : IsBudget p.retry_budget

compile_rule-IsRule :
    (parse : ParseDuration) (glob : PathMatch) (n : ℕ) (f : RetryConfigRuleFile)
    (r : CompiledRetryConfigRule)
    → compile_rule parse glob n f ≡ ok r
    → IsRule r
unfolding compile_rule
compile_rule-IsRule parse glob n f r e = elim (Result-cases (to_patch parse f.policy)) [
  | inr (x, bad) ↦ absurd (ground arith)
  | inl (patch, ep) ↦ elim (Result-cases (compile_retry_config_match glob f.match)) [
    | inr (x, bad) ↦ absurd (ground arith)
    | inl (compiled, ec) ↦
        let same : r.patch ≡ patch = ground arith in
        (rw same (to_patch-IsPatch parse f.policy patch ep).0, ground arith, ground arith)
  ]
]

with_rule-IsRule :
    (skip : Bool) (compiled : Result ConfigError CompiledRetryConfigRule)
    (later : Result ConfigError (List CompiledRetryConfigRule)) (rs : List CompiledRetryConfigRule)
    → with_rule skip compiled later ≡ ok rs
    → ((r : CompiledRetryConfigRule) → compiled ≡ ok r → IsRule r)
    → ((xs : List CompiledRetryConfigRule) → later ≡ ok xs → All IsRule xs)
    → All IsRule rs
with_rule-IsRule true compiled later rs e one all = all rs e
with_rule-IsRule false (ok r) (ok xs) rs e one all =
    let same : r ∷ xs ≡ rs = ground arith in rw (← same) (one r refl, all xs refl)
with_rule-IsRule false (err x) later rs e one all = cc
with_rule-IsRule false (ok r) (err x) rs e one all = cc

rules_of-IsRule :
    (parse : ParseDuration) (glob : PathMatch) (n : ℕ) (seen : List Text)
    (fs : List RetryConfigRuleFile) (rs : List CompiledRetryConfigRule)
    → rules_of parse glob n seen fs ≡ ok rs
    → All IsRule rs
unfolding rules_of
rules_of-IsRule parse glob n seen [] [] e = tt
rules_of-IsRule parse glob n seen [] (r ∷ rs) e = cc
rules_of-IsRule parse glob n seen (f ∷ fs) rs e =
    elim (Result-cases (claim_if_named seen (trim_space f.name))) [
      | inr (x, bad) ↦ absurd (ground arith)
      | inl (seen', es) ↦
          with_rule-IsRule f.disabled (compile_rule parse glob n f)
            (rules_of parse glob (suc n) seen' fs) rs (rw es at e)
            (compile_rule-IsRule parse glob n f) (rules_of-IsRule parse glob (suc n) seen' fs)
    ]

abbrev Classes : ClassPatches → Type 0
Classes ps = (class : RequestClass) → IsClassPatch (ps class)

add_class_patch-Classes :
    (parse : ParseDuration) (class : RequestClass) (f : Option RetryPolicyPatchFile)
    (ps qs : ClassPatches)
    → add_class_patch parse class f ps ≡ ok qs
    → Classes ps
    → Classes qs
unfolding add_class_patch
add_class_patch-Classes parse class none ps qs e h c =
    let same : ps ≡ qs = ground arith in rw (← same) (h c)
add_class_patch-Classes parse class (some f) ps qs e h c = elim (Result-cases (to_patch parse f)) [
  | inr (x, bad) ↦ absurd (ground arith)
  | inl (patch, good) ↦
      let same : (λ (d : RequestClass). if text_eq class d then some patch else ps d) ≡ qs =
        ap (value_or ps) (rw good at e) in
      rw (← same) (elim (Bool-cases (text_eq class c)) [
        | inl t ↦ rw t (to_patch-IsPatch parse f patch good).0
        | inr t ↦ rw t (h c)
      ])
]

class_patches_of-Classes :
    (parse : ParseDuration) (file : RetryConfigFile) (qs : ClassPatches)
    → class_patches_of parse file ≡ ok qs
    → Classes qs
unfolding class_patches_of
class_patches_of-Classes parse file qs e =
    elim (Result-cases
      (add_class_patch parse internal_read file.policies.internal_read_policy (λ _. none))) [
        | inr (x, bad) ↦ absurd (ground arith)
        | inl (a, ea) ↦
            elim (Result-cases
              (add_class_patch parse internal_write file.policies.internal_write_policy a)) [
                | inr (x, bad) ↦ absurd (ground arith)
                | inl (b, eb) ↦
                    elim (Result-cases
                      (add_class_patch parse external_read file.policies.external_read_policy b)) [
                        | inr (x, bad) ↦ absurd (ground arith)
                        | inl (c, ec) ↦
                            add_class_patch-Classes parse external_write
                              file.policies.external_write_policy c qs (ground arith)
                              (add_class_patch-Classes parse external_read
                                file.policies.external_read_policy b c ec
                                (add_class_patch-Classes parse internal_write
                                  file.policies.internal_write_policy a b eb
                                  (add_class_patch-Classes parse internal_read
                                    file.policies.internal_read_policy (λ _. none) a ea (λ _. tt))))
                      ]
              ]
      ]

-- What a compiled file has of the rules and the class patches, which are compiled apart.
pub compile-parts :
    (parse : ParseDuration) (glob : PathMatch) (b : RetryBudgetConfig) (file : RetryConfigFile)
    (p : ManagedRetryConfigProvider)
    → compile_retry_config_file parse glob b file ≡ ok p
    → ((rs : List CompiledRetryConfigRule) × (rules_of parse glob 0 [] file.rules ≡ ok rs)
        × (p.rules ≡ sort_rules rs))
      × (class_patches_of parse file ≡ ok p.class_patches)
      × (p.retry_budget ≡ b)
unfolding compile_retry_config_file
compile-parts parse glob b file p e = elim (Result-cases (validate_config_version file.version)) [
  | inr (x, bad) ↦ absurd (ground arith)
  | inl (u, eu) ↦
      elim (Result-cases
        (validate_glob_patterns glob internal_hosts (normalize_patterns file.internal_hosts))) [
          | inr (x, bad) ↦ absurd (ground arith)
          | inl (v, ev) ↦ elim (Result-cases (compile_downstreams glob 0 [] file.downstreams)) [
            | inr (x, bad) ↦ absurd (ground arith)
            | inl (ds, ed) ↦ elim (Result-cases (compile_operation_rules glob file.operations)) [
              | inr (x, bad) ↦ absurd (ground arith)
              | inl (os, eo) ↦ elim (Result-cases (class_patches_of parse file)) [
                | inr (x, bad) ↦ absurd (ground arith)
                | inl (ps, ep) ↦ elim (Result-cases (rules_of parse glob 0 [] file.rules)) [
                  | inr (x, bad) ↦ absurd (ground arith)
                  | inl (rs, er) ↦
                      let same =
                        ap (value_or new_managed_retry_config_provider)
                          (rw (eu, ev, ed, eo, ep, er) at e) in
                      rw (← same) ((rs, er, refl), ep, refl)
                ]
              ]
            ]
          ]
        ]
]

-- The result of a load comes from a budget and a file that were compiled.
pub load-parts :
    (parse : ParseDuration) (glob : PathMatch) (file : RetryConfigFile)
    (p : ManagedRetryConfigProvider)
    → load parse glob file ≡ ok p
    → (b : RetryBudgetConfig) × (to_config file.retry_budget ≡ ok b)
      × (compile_retry_config_file parse glob b file ≡ ok p)
unfolding load
load-parts parse glob file p e =
    elim (Result-cases (validate_retry_budget_file_layer file.retry_budget)) [
      | inr (x, bad) ↦ absurd (ground arith)
      | inl (u, eu) ↦ elim (Result-cases (to_config file.retry_budget)) [
        | inr (x, bad) ↦ absurd (ground arith)
        | inl (b, eb) ↦ (b, eb, rw (eu, eb) at e)
      ]
    ]

to_config-IsBudget :
    (f : Option RetryBudgetFile) (b : RetryBudgetConfig) → to_config f ≡ ok b → IsBudget b
unfolding to_config
to_config-IsBudget none b e = inl (ap (value_or b) (sym e))
to_config-IsBudget (some f) b e = elim (to_config-IsValid f b e) [
  | inl off ↦ inl off
  | inr stated ↦ inr stated.0
]

-- What is loaded from a file that is accepted is a provider each of whose patches has positive
-- durations and no negative count, each of whose rules names something to match, and whose budget
-- is the disabled one or has positive numbers.
pub load-IsLoaded :
    (parse : ParseDuration) (glob : PathMatch) (file : RetryConfigFile)
    (p : ManagedRetryConfigProvider)
    → load parse glob file ≡ ok p
    → IsLoaded p
load-IsLoaded parse glob file p e =
    let (b, eb, ec) = load-parts parse glob file p e in
    let ((rs, er, sorted), ep, same) = compile-parts parse glob b file p ec in
    record {
      rule_by_rule = rw sorted (
          All-sort_stable (λ r. r.priority) (λ r. r.specificity) IsRule rs
            (rules_of-IsRule parse glob 0 [] file.rules rs er));
      class_by_class = class_patches_of-Classes parse file p.class_patches ep;
      budget = rw same (to_config-IsBudget file.retry_budget b eb);
    }

-- Update leaves a loaded provider loaded: it replaces the configuration without an error, or it
-- changes nothing.
pub update_provider-IsLoaded :
    (parse : ParseDuration) (glob : PathMatch) (old : ManagedRetryConfigProvider)
    (file : RetryConfigFile)
    → IsLoaded old
    → IsLoaded (update_provider parse glob old file).0
      × (((update_provider parse glob old file).1 ≡ none)
          ⊎ ((update_provider parse glob old file).0 ≡ old))
unfolding update_provider
update_provider-IsLoaded parse glob old file h = elim (Result-cases (load parse glob file)) [
  | inl (p, e) ↦ rw e (load-IsLoaded parse glob file p e, inl refl)
  | inr (x, e) ↦ rw e (h, inr refl)
]

pub new-IsLoaded : IsLoaded new_managed_retry_config_provider
unfolding new_managed_retry_config_provider
new-IsLoaded = record { rule_by_rule = tt; class_by_class = λ _. tt; budget = inl refl }
