-- ===== src/Config/Merge/Whole.antt =====
-- retry_consul.go and retry_config_file.go: files that are accepted stay accepted when they are merged.
use http_governance_client.Common.{
  ◌≡◌, refl, arith, inl, inr, [], ◌++◌, All, ok, Result-cases, IsOk,
}
use http_governance_client.Budget.Config.{RetryBudgetConfig, validate_retry_budget_file_layer}
use http_governance_client.Config.Match.{PathMatch}
use http_governance_client.Config.Patches.{ParseDuration}
use http_governance_client.Config.File.{RetryConfigFile, internal_hosts}
use http_governance_client.Config.Compile.{
  validate_config_version, normalize_patterns, validate_glob_patterns, compile_downstreams,
  operations_of, compile_operation_rules, rules_of,
}
use http_governance_client.Config.Update.{class_patches_of, compile_retry_config_file}
use http_governance_client.Config.Merge.{name_key, merge_retry_config_files}
use http_governance_client.Config.Merge.Valid.{validate-merge_retry_budget_files}
use http_governance_client.Config.Merge.Fresh.{Fresh, unseen_items-Fresh, All-unseen_items}
use http_governance_client.Config.Merge.Sections.{
  IsDownstream, IsOperation, compile_downstreams-IsDownstream, IsDownstream-compile_downstreams,
  operations_of-IsOperation, IsOperation-operations_of,
}
use http_governance_client.Config.Merge.Rules.{IsRuleFile, rules_of-IsRuleFile, IsRuleFile-rules_of}
use http_governance_client.Config.Merge.Hosts.{
  IsHost, validate_glob_patterns-IsHost, IsHost-validate_glob_patterns, All-unseen_texts,
  first_non_blank-version,
}
use http_governance_client.Config.Merge.Policies.{
  ArePolicies, merge-ArePolicies, class_patches_of-ArePolicies, ArePolicies-class_patches_of,
}

-- Every part of the file is accepted by itself; names may be there twice.
pub record IsLayer (parse : ParseDuration) (glob : PathMatch) (file : RetryConfigFile)
    : Type 0 where
  pub version : IsOk (validate_config_version file.version)
  pub budget : validate_retry_budget_file_layer file.retry_budget ≡ ok tt
  pub hosts : All (IsHost glob internal_hosts) file.internal_hosts
  pub downstreams : All (IsDownstream glob) file.downstreams
  pub operations : All (IsOperation glob) file.operations
  pub policies : ArePolicies parse file.policies
  pub rules : All (IsRuleFile parse glob) file.rules

-- No name is there twice.
pub record AreFresh (file : RetryConfigFile) : Type 0 where
  pub downstreams : Fresh (λ d. name_key d.name) [] file.downstreams
  pub operations : Fresh (λ o. name_key o.name) [] file.operations
  pub rules : Fresh (λ r. name_key r.name) [] file.rules

compile_operation_rules-IsOk :
    (glob : PathMatch) (file : RetryConfigFile)
    → IsOk (operations_of glob 0 [] file.operations)
    → IsOk (compile_operation_rules glob file.operations)
unfolding compile_operation_rules
compile_operation_rules-IsOk glob file (os, e) = rw e (_, refl)

operations_of-IsOk :
    (glob : PathMatch) (file : RetryConfigFile)
    → IsOk (compile_operation_rules glob file.operations)
    → IsOk (operations_of glob 0 [] file.operations)
unfolding compile_operation_rules
operations_of-IsOk glob file h = elim (Result-cases (operations_of glob 0 [] file.operations)) [
  | inr (x, bad) ↦ absurd (ground arith)
  | inl good ↦ good
]

module _ (parse : ParseDuration) (glob : PathMatch) where
  -- A file that compiles, whose budget layer is valid, is a layer.
  pub compile-IsLayer :
      (b : RetryBudgetConfig) (file : RetryConfigFile)
      → validate_retry_budget_file_layer file.retry_budget ≡ ok tt
      → IsOk (compile_retry_config_file parse glob b file)
      → IsLayer parse glob file
  unfolding compile_retry_config_file
  compile-IsLayer b file v h = elim (Result-cases (validate_config_version file.version)) [
    | inr (x, bad) ↦ absurd (ground arith)
    | inl (u, eu) ↦
        elim (Result-cases
          (validate_glob_patterns glob internal_hosts (normalize_patterns file.internal_hosts))) [
            | inr (x, bad) ↦ absurd (ground arith)
            | inl hs ↦ elim (Result-cases (compile_downstreams glob 0 [] file.downstreams)) [
              | inr (x, bad) ↦ absurd (ground arith)
              | inl ds ↦ elim (Result-cases (compile_operation_rules glob file.operations)) [
                | inr (x, bad) ↦ absurd (ground arith)
                | inl os ↦ elim (Result-cases (class_patches_of parse file)) [
                  | inr (x, bad) ↦ absurd (ground arith)
                  | inl ps ↦ elim (Result-cases (rules_of parse glob 0 [] file.rules)) [
                    | inr (x, bad) ↦ absurd (ground arith)
                    | inl rs ↦ record {
                      version = (u, eu);
                      budget = v;
                      hosts =
                          validate_glob_patterns-IsHost glob internal_hosts file.internal_hosts hs;
                      downstreams = compile_downstreams-IsDownstream glob 0 [] file.downstreams ds;
                      operations =
                          operations_of-IsOperation glob 0 [] file.operations
                            (operations_of-IsOk glob file os);
                      policies = class_patches_of-ArePolicies parse file ps;
                      rules = rules_of-IsRuleFile parse glob 0 [] file.rules rs;
                    }
                  ]
                ]
              ]
            ]
          ]
  ]

  -- A layer without a name twice compiles, with any budget.
  pub IsLayer-compile :
      (b : RetryBudgetConfig) (file : RetryConfigFile)
      → IsLayer parse glob file
      → AreFresh file
      → IsOk (compile_retry_config_file parse glob b file)
  unfolding compile_retry_config_file
  IsLayer-compile b file h f =
      let (hs, eh) =
        IsHost-validate_glob_patterns glob internal_hosts file.internal_hosts h.hosts in
      let (ds, ed) =
        IsDownstream-compile_downstreams glob 0 [] file.downstreams h.downstreams f.downstreams in
      let (os, eo) =
        compile_operation_rules-IsOk glob file
          (IsOperation-operations_of glob 0 [] file.operations h.operations f.operations) in
      let (ps, ep) = ArePolicies-class_patches_of parse file h.policies in
      let (rs, er) = IsRuleFile-rules_of parse glob 0 [] file.rules h.rules f.rules in
      rw (h.version.1, eh, ed, eo, ep, er) (_, refl)

  pub merge-IsLayer :
      (base o : RetryConfigFile)
      → IsLayer parse glob base
      → IsLayer parse glob o
      → IsLayer parse glob (merge_retry_config_files base o)
  unfolding merge_retry_config_files
  merge-IsLayer base o h k = record {
    version = first_non_blank-version o.version base.version k.version h.version;
    budget = validate-merge_retry_budget_files base.retry_budget o.retry_budget h.budget k.budget;
    hosts =
        All-unseen_texts glob internal_hosts [] base.internal_hosts o.internal_hosts h.hosts
          k.hosts;
    downstreams =
        All-unseen_items (λ d. name_key d.name) (IsDownstream glob) [] o.downstreams
          base.downstreams k.downstreams h.downstreams;
    operations =
        All-unseen_items (λ d. name_key d.name) (IsOperation glob) [] o.operations base.operations
          k.operations h.operations;
    policies = merge-ArePolicies parse base.policies o.policies h.policies k.policies;
    rules =
        All-unseen_items (λ d. name_key d.name) (IsRuleFile parse glob) [] o.rules base.rules
          k.rules h.rules;
  }

pub merge-AreFresh : (base o : RetryConfigFile) → AreFresh (merge_retry_config_files base o)
unfolding merge_retry_config_files
merge-AreFresh base o = record {
  downstreams = unseen_items-Fresh (λ d. name_key d.name) [] (o.downstreams ++ base.downstreams);
  operations = unseen_items-Fresh (λ d. name_key d.name) [] (o.operations ++ base.operations);
  rules = unseen_items-Fresh (λ d. name_key d.name) [] (o.rules ++ base.rules);
}
