-- ===== src/Config/Merge/Rules.antt =====
-- retry_consul.go and retry_config_file.go: the rules of a file compile exactly where each enabled one
-- does by itself and their names differ.
use http_governance_client.Common.{
  ℕ, suc, ◌≡◌, refl, sym, ◌∙◌, true, arith, ◌⊎◌, inl, inr, List, [], ◌∷◌, All, Bool-cases, ◌==◌,
  Result, Result-cases, IsOk,
}
use http_governance_client.Common.Text.{Text, trim_space, to_lower}
use http_governance_client.Common.Text.{is_empty-to_lower}
use http_governance_client.Config.Match.{PathMatch, specificity}
use http_governance_client.Config.Provider.{CompiledRetryConfigRule}
use http_governance_client.Config.Patches.{ParseDuration, to_patch, empty}
use http_governance_client.Config.File.{RetryConfigRuleFile, ConfigError}
use http_governance_client.Config.Compile.{
  compile_rule, compile_retry_config_match, rules_of, claim_if_named, with_rule,
}
use http_governance_client.Config.Merge.{name_key}
use http_governance_client.Config.Merge.Fresh.{Fresh}

module _ (parse : ParseDuration) (glob : PathMatch) where
  -- A rule that is disabled, or compiles wherever it stands.
  abbrev pub IsRuleFile : RetryConfigRuleFile → Type 0
  IsRuleFile r = (r.disabled ≡ true) ⊎ ((n : ℕ) → IsOk (compile_rule parse glob n r))

  -- Only the default name of a rule depends on where it stands.
  compile_rule-anywhere :
      (m n : ℕ) (r : RetryConfigRuleFile)
      → IsOk (compile_rule parse glob m r)
      → IsOk (compile_rule parse glob n r)
  unfolding compile_rule
  compile_rule-anywhere m n r h = elim (Bool-cases (empty r.policy)) [
    | inl e ↦ absurd (ground arith)
    | inr e ↦ elim (Result-cases (to_patch parse r.policy)) [
      | inr (x, bad) ↦ absurd (ground arith)
      | inl (p, ep) ↦ elim (Result-cases (compile_retry_config_match glob r.match)) [
        | inr (x, bad) ↦ absurd (ground arith)
        | inl (c, ec) ↦ elim (Bool-cases (specificity c == 0)) [
          | inl z ↦ absurd (ground arith)
          | inr z ↦ rw (e, ep, ec, z) (_, refl)
        ]
      ]
    ]
  ]

  with_rule-parts :
      (n : ℕ) (r : RetryConfigRuleFile) (later : Result ConfigError (List CompiledRetryConfigRule))
      → IsOk (with_rule r.disabled (compile_rule parse glob n r) later)
      → IsRuleFile r × IsOk later
  with_rule-parts n r later h = elim (Bool-cases r.disabled) [
    | inl off ↦ (inl off, rw off at h)
    | inr on ↦ elim (Result-cases (compile_rule parse glob n r)) [
      | inr (x, bad) ↦ absurd (ground arith)
      | inl one ↦ elim (Result-cases later) [
        | inr (x, bad) ↦ absurd (ground arith)
        | inl rest ↦ (inr (λ m. compile_rule-anywhere n m r one), rest)
      ]
    ]
  ]

  IsRuleFile-with_rule :
      (n : ℕ) (r : RetryConfigRuleFile) (later : Result ConfigError (List CompiledRetryConfigRule))
      → IsRuleFile r
      → IsOk later
      → IsOk (with_rule r.disabled (compile_rule parse glob n r) later)
  unfolding compile_rule
  IsRuleFile-with_rule n r later (inl off) h = rw off h
  IsRuleFile-with_rule n r later (inr on) h = elim (Bool-cases r.disabled) [
    | inl off ↦ rw off h
    | inr e ↦ rw (e, (on n).1, h.1) (_, refl)
  ]

  pub rules_of-IsRuleFile :
      (n : ℕ) (seen : List Text) (rs : List RetryConfigRuleFile)
      → IsOk (rules_of parse glob n seen rs)
      → All IsRuleFile rs
  unfolding rules_of
  rules_of-IsRuleFile n seen [] h = tt
  rules_of-IsRuleFile n seen (r ∷ rs) h =
      elim (Result-cases (claim_if_named seen (trim_space r.name))) [
        | inr (x, bad) ↦ absurd (ground arith)
        | inl (seen', e) ↦
            let (one, rest) =
              with_rule-parts n r (rules_of parse glob (suc n) seen' rs) (rw e at h) in
            (one, rules_of-IsRuleFile (suc n) seen' rs rest)
      ]

  pub IsRuleFile-rules_of :
      (n : ℕ) (seen : List Text) (rs : List RetryConfigRuleFile)
      → All IsRuleFile rs
      → Fresh (λ r. name_key r.name) seen rs
      → IsOk (rules_of parse glob n seen rs)
  unfolding rules_of name_key
  IsRuleFile-rules_of n seen [] h f = ([], refl)
  IsRuleFile-rules_of n seen (r ∷ rs) h (inl (blank, f)) =
      rw (sym (is_empty-to_lower (trim_space r.name)) ∙ blank) (
        IsRuleFile-with_rule n r (rules_of parse glob (suc n) seen rs) h.0
          (IsRuleFile-rules_of (suc n) seen rs h.1 f))
  IsRuleFile-rules_of n seen (r ∷ rs) h (inr (named, new, f)) =
      let key = to_lower (trim_space r.name) in
      rw (sym (is_empty-to_lower (trim_space r.name)) ∙ named, new)
        (IsRuleFile-with_rule n r (rules_of parse glob (suc n) (key ∷ seen) rs) h.0
          (IsRuleFile-rules_of (suc n) (key ∷ seen) rs h.1 f))
