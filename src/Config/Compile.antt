-- ===== src/Config/Compile.antt =====
-- retry_config_file.go: compileRetryConfigFile and Update. Every step stops at its first error.
use http_governance_client.Common.{
  ℕ, suc, ◌+◌, Bool, true, false, not, ◌||◌, pos, if◌then◌else◌, List, [], ◌∷◌, ◌++◌, map, any,
  is_empty, ◌==◌, Result, ok, err, ◌>>=◌, ◌>>◌, fail_if,
}
use http_governance_client.Common.Text.{Text, codes, text_eq, trim_space, to_lower, to_upper}
use http_governance_client.Common.Number.{format_int}
use http_governance_client.Types.Policy.{
  RequestClass, internal_read, internal_write, external_read, external_write,
}
use http_governance_client.Config.Match.{PathMatch, CompiledRetryConfigMatch, specificity, score}
use http_governance_client.Config.Infer.{CompiledDownstream, CompiledOperationRule}
use http_governance_client.Config.Provider.{CompiledRetryConfigRule}
use http_governance_client.Config.Patches.{ParseDuration, to_patch, empty, is_some}
use http_governance_client.Config.Order.{sort_stable}
use http_governance_client.Config.File.{
  RetryDownstreamFile, RetryOperationRuleFile, RetryConfigMatchFile, RetryConfigRuleFile,
  PatternField, hosts, paths, Section, downstream, operation, rule, ConfigError,
  unsupported_config_version, invalid_pattern, name_must_not_be_empty, name_is_duplicated,
  hosts_must_contain_a_value, in_item, unsupported_class, policy_must_contain_a_field,
  match_must_contain_a_value,
}

unfoldable pub validate_config_version : Text → Result ConfigError (Unit {0})
validate_config_version version =
    let version' = trim_space version in
    if is_empty version' || text_eq version' (codes "v1")
    then ok tt
    else err (unsupported_config_version version')

-- The trimmed texts that are not empty.
unfoldable pub normalize_patterns : List Text → List Text
normalize_patterns [] = []
normalize_patterns (v ∷ vs) =
    let rest = normalize_patterns vs in
    if is_empty (trim_space v) then rest else trim_space v ∷ rest

unfoldable pub validate_glob_patterns :
    PathMatch → PatternField → List Text → Result ConfigError (Unit {0})
validate_glob_patterns glob field [] = ok tt
validate_glob_patterns glob field (p ∷ ps) = do
  fail_if (not (is_some (glob p []))) (invalid_pattern field p)
  validate_glob_patterns glob field ps

-- `fmt.Errorf("...: %w", err)`
abbrev pub wrap {ℓ} :
    {A : Type ℓ} → (ConfigError → ConfigError) → Result ConfigError A → Result ConfigError A
wrap f (ok a) = ok a
wrap f (err e) = err (f e)

-- The keys of the names so far, with a new name: the map of names of the three loops.
abbrev pub claim : Section → List Text → Text → Result ConfigError (List Text)
claim s seen name =
    if any (text_eq (to_lower name)) seen
    then err (name_is_duplicated s name)
    else ok (to_lower name ∷ seen)

-- A downstream with its name and patterns trimmed.
unfoldable pub compile_downstream :
    PathMatch → Text → List Text → Result ConfigError CompiledDownstream
unfolding validate_glob_patterns
compile_downstream glob name patterns = do
  fail_if (is_empty patterns) (hosts_must_contain_a_value name)
  wrap (in_item downstream name) (validate_glob_patterns glob hosts patterns)
  ok (record { name = name; hosts = patterns })

unfoldable pub compile_downstreams :
    PathMatch
    → ℕ
    → List Text
    → List RetryDownstreamFile
    → Result ConfigError (List CompiledDownstream)
unfolding compile_downstream
compile_downstreams glob index seen [] = ok []
compile_downstreams glob index seen (item ∷ items) = do
  let name = trim_space item.name
  fail_if (is_empty name) (name_must_not_be_empty downstream index)
  seen' ← claim downstream seen name
  compiled ← compile_downstream glob name (normalize_patterns item.hosts)
  rest ← compile_downstreams glob (suc index) seen' items
  ok (compiled ∷ rest)

unfoldable pub operation_rule_specificity : List Text → List Text → List Text → List Text → ℕ
operation_rule_specificity methods host_patterns path_patterns downstreams =
    score methods + score host_patterns + score path_patterns + score downstreams

unfoldable pub compile_operation :
    PathMatch → Text → RetryOperationRuleFile → Result ConfigError CompiledOperationRule
unfolding validate_glob_patterns
compile_operation glob name item = do
  let methods = map to_upper (normalize_patterns item.methods)
  let host_patterns = normalize_patterns item.hosts
  let path_patterns = normalize_patterns item.paths
  let downstreams = normalize_patterns item.downstreams
  wrap (in_item operation name) (validate_glob_patterns glob hosts host_patterns)
  wrap (in_item operation name) (validate_glob_patterns glob paths path_patterns)
  ok (record {
    name = name;
    priority = item.priority;
    methods = methods;
    hosts = host_patterns;
    paths = path_patterns;
    downstreams = downstreams;
    specificity = operation_rule_specificity methods host_patterns path_patterns downstreams;
  })

-- The loop of compileOperationRules, before it sorts.
unfoldable pub operations_of :
    PathMatch
    → ℕ
    → List Text
    → List RetryOperationRuleFile
    → Result ConfigError (List CompiledOperationRule)
unfolding compile_operation
operations_of glob index seen [] = ok []
operations_of glob index seen (item ∷ items) = do
  let name = trim_space item.name
  fail_if (is_empty name) (name_must_not_be_empty operation index)
  seen' ← claim operation seen name
  compiled ← compile_operation glob name item
  rest ← operations_of glob (suc index) seen' items
  ok (compiled ∷ rest)

unfoldable pub compile_operation_rules :
    PathMatch → List RetryOperationRuleFile → Result ConfigError (List CompiledOperationRule)
unfolding operations_of
compile_operation_rules glob items = do
  rules ← operations_of glob 0 [] items
  ok (sort_stable (λ r. r.priority) (λ r. r.specificity) rules)

abbrev pub is_class : Text → Bool
is_class class =
    text_eq class internal_read
    || text_eq class internal_write
    || text_eq class external_read
    || text_eq class external_write

unfoldable pub classes_of : List Text → Result ConfigError (List RequestClass)
classes_of [] = ok []
classes_of (item ∷ items) = do
  fail_if (not (is_class (trim_space item))) (unsupported_class item)
  rest ← classes_of items
  ok (trim_space item ∷ rest)

unfoldable pub compile_retry_config_match :
    PathMatch → RetryConfigMatchFile → Result ConfigError CompiledRetryConfigMatch
unfolding validate_glob_patterns classes_of
compile_retry_config_match glob m = do
  let host_patterns = normalize_patterns m.hosts
  let path_patterns = normalize_patterns m.paths
  validate_glob_patterns glob hosts host_patterns
  validate_glob_patterns glob paths path_patterns
  classes ← classes_of m.classes
  ok (record {
    callers = normalize_patterns m.callers;
    downstreams = normalize_patterns m.downstreams;
    operations = normalize_patterns m.operations;
    methods = normalize_patterns m.methods;
    hosts = host_patterns;
    paths = path_patterns;
    classes = classes;
  })

unfoldable pub default_rule_name : Text → ℕ → Text
default_rule_name name index =
    if is_empty name then codes "rule-" ++ format_int (pos index) else name

-- An enabled rule.
unfoldable pub compile_rule :
    ParseDuration → PathMatch → ℕ → RetryConfigRuleFile → Result ConfigError CompiledRetryConfigRule
unfolding compile_retry_config_match default_rule_name
compile_rule parse glob index r = do
  fail_if (empty r.policy) (in_item rule r.name policy_must_contain_a_field)
  patch ← wrap (in_item rule r.name) (to_patch parse r.policy)
  compiled ← wrap (in_item rule r.name) (compile_retry_config_match glob r.match)
  fail_if (specificity compiled == 0) (in_item rule r.name match_must_contain_a_value)
  ok (record {
    name = default_rule_name r.name index;
    priority = r.priority;
    match = compiled;
    patch = patch;
    specificity = specificity compiled;
  })

-- A rule needs no name; disabled rules claim theirs.
abbrev pub claim_if_named : List Text → Text → Result ConfigError (List Text)
claim_if_named seen name = if is_empty name then ok seen else claim rule seen name

-- `continue` for a disabled rule.
abbrev pub with_rule :
    Bool
    → Result ConfigError CompiledRetryConfigRule
    → Result ConfigError (List CompiledRetryConfigRule)
    → Result ConfigError (List CompiledRetryConfigRule)
with_rule true compiled rest = rest
with_rule false compiled rest = do c ← compiled; cs ← rest; ok (c ∷ cs)

-- The loop over the rules, before they are sorted.
unfoldable pub rules_of :
    ParseDuration
    → PathMatch
    → ℕ
    → List Text
    → List RetryConfigRuleFile
    → Result ConfigError (List CompiledRetryConfigRule)
unfolding compile_rule
rules_of parse glob index seen [] = ok []
rules_of parse glob index seen (r ∷ rs) = do
  seen' ← claim_if_named seen (trim_space r.name)
  with_rule r.disabled (compile_rule parse glob index r) (rules_of parse glob (suc index) seen' rs)
