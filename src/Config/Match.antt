-- ===== src/Config/Match.antt =====
-- retry_config_file.go: patterns of hosts and paths, and the match of a rule. path.Match is a
-- parameter: from a pattern and a name to whether they match, or `none` for a malformed pattern.
use http_governance_client.Common.{
  ℕ, ◌+◌, ◌≡◌, Bool, true, false, ◌&&◌, ◌||◌, Option, none, some, arith, List, [], ◌∷◌, any,
}
use http_governance_client.Common.Text.{Text, codes, text_eq, to_lower, to_upper, equal_fold}
use http_governance_client.Types.Policy.{RequestClass, RetryConfigScope}

abbrev pub PathMatch : Type 0
PathMatch = Text → Text → Option Bool

pub record CompiledRetryConfigMatch : Type 0 where
  pub callers : List Text
  pub downstreams : List Text
  pub operations : List Text
  pub methods : List Text
  pub hosts : List Text
  pub paths : List Text
  pub classes : List RequestClass

-- `ok` of a match that is no error.
abbrev pub is_match : Option Bool → Bool
is_match none = false
is_match (some b) = b

-- An empty list stands for every value.
abbrev any_or_none : List Text → (Text → Bool) → Bool
any_or_none [] test = true
any_or_none (v ∷ vs) test = any test (v ∷ vs)

unfoldable pub match_exact_values : List Text → Text → Bool
match_exact_values values value = any_or_none values (λ expected. equal_fold expected value)

unfoldable pub match_host_patterns : PathMatch → List Text → Text → Bool
match_host_patterns glob patterns value =
    any_or_none patterns
      (λ p. text_eq p (codes "*") || is_match (glob (to_lower p) (to_lower value)))

unfoldable pub match_path_patterns : PathMatch → List Text → Text → Bool
match_path_patterns glob patterns value =
    any_or_none patterns (λ p. is_match (glob (to_lower p) (to_lower value)))

match_classes : List RequestClass → RequestClass → Bool
match_classes [] class = true
match_classes (c ∷ cs) class = any (λ c'. text_eq c' class) (c ∷ cs)

unfoldable pub match : PathMatch → CompiledRetryConfigMatch → RetryConfigScope → Bool
unfolding match_classes
match glob m scope =
    match_exact_values m.callers scope.caller
    && match_exact_values m.downstreams scope.downstream
    && match_exact_values m.operations scope.operation
    && match_exact_values m.methods (to_upper scope.method)
    && match_host_patterns glob m.hosts scope.host
    && match_path_patterns glob m.paths scope.path
    && match_classes m.classes scope.class

abbrev pub score : List Text → ℕ
score [] = 0
score (v ∷ vs) = 1

unfoldable pub specificity : CompiledRetryConfigMatch → ℕ
specificity m =
    score m.callers
    + score m.downstreams
    + score m.operations
    + score m.methods
    + score m.hosts
    + score m.paths
    + score m.classes

-- A match of specificity 0 matches every scope.
pub specificity-zero :
    (glob : PathMatch) (m : CompiledRetryConfigMatch) (scope : RetryConfigScope)
    → specificity m ≡ 0
    → match glob m scope ≡ true
unfolding specificity match match_exact_values match_host_patterns match_path_patterns
specificity-zero glob m scope h = ground arith
