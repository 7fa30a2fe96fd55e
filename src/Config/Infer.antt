-- ===== src/Config/Infer.antt =====
-- retry_config_file.go: the downstream and the operation that a request belongs to.
pub mod First
use http_governance_client.Common.{
  ℕ, suc, ◌+◌, ◌-◌, Bool, not, ◌&&◌, ◌||◌, Option, none, some, ℤ, if◌then◌else◌, List, [], ◌∷◌,
  ◌++◌, any, length, is_empty, ltb, ◌==◌,
}
use http_governance_client.Common.Text.{Text, text_eq, trim_space, to_lower, to_upper}
use http_governance_client.Types.Policy.{RetryConfigScope}
use http_governance_client.Types.Message.{Url, Request}
use http_governance_client.Config.Match.{
  PathMatch, is_match, match_exact_values, match_host_patterns, match_path_patterns,
}

pub record CompiledDownstream : Type 0 where
  pub name : Text
  pub hosts : List Text

pub record CompiledOperationRule : Type 0 where
  pub name : Text
  pub priority : ℤ
  pub methods : List Text
  pub hosts : List Text
  pub paths : List Text
  pub downstreams : List Text
  pub specificity : ℕ

-- strings.Count of a one-character text, and strings.Contains of one.
abbrev pub count : ℕ → Text → ℕ
count c [] = 0
count c (d ∷ s) = if c == d then suc (count c s) else count c s

abbrev pub contains : ℕ → Text → Bool
contains c s = any (λ d. c == d) s

-- strings.Split(s, separator)[0]
unfoldable pub before : ℕ → Text → Text
before c [] = []
before c (d ∷ s) = let rest = before c s in if c == d then [] else d ∷ rest

-- strings.Trim(s, "/")
unfoldable pub trim_slash_left : Text → Text
trim_slash_left [] = []
trim_slash_left (c ∷ s) = let rest = trim_slash_left s in if c == b'/' then rest else c ∷ s

unfoldable pub trim_slash_right : Text → Text
trim_slash_right [] = []
trim_slash_right (c ∷ s) =
    let rest = trim_slash_right s in if (c == b'/') && is_empty rest then [] else c ∷ rest

-- Trimming leaves the empty text where nothing is left, and its first segment is empty too.
unfoldable pub first_path_segment : Text → Text
unfolding before trim_slash_left trim_slash_right trim_space
first_path_segment path =
    let trimmed = trim_slash_right (trim_slash_left (trim_space path)) in
    if is_empty trimmed then [] else trim_space (before b'/' trimmed)

join_segment : Text → Text → Text
join_segment host segment =
    if is_empty host then segment else if is_empty segment then host else host ++ b'/' ∷ segment

unfoldable pub join_host_and_first_path_segment : Text → Text → Text
unfolding join_segment first_path_segment
join_host_and_first_path_segment host path =
    join_segment (trim_space host) (first_path_segment path)

specificity_of : PathMatch → Text → Text → ℕ
specificity_of glob pattern_value candidate =
    let exact = text_eq (to_lower pattern_value) (to_lower candidate) in
    if not exact && not (is_match (glob (to_lower pattern_value) (to_lower candidate)))
    then 0
    else (if exact then 1000 else 100)
      + (length pattern_value - count b'*' pattern_value - count b'?' pattern_value)
      + (if contains b'/' pattern_value then 200 else 0)

unfoldable pub downstream_pattern_match_specificity : PathMatch → Text → Text → ℕ
unfolding specificity_of
downstream_pattern_match_specificity glob pattern candidate =
    let trimmed = trim_space pattern in
    if is_empty trimmed || is_empty candidate then 0 else specificity_of glob trimmed candidate

-- The best name so far and its score, which the three loops of inferDownstream carry.
abbrev pub Best : Type 0
Best = Text × ℕ

unfoldable pub better : PathMatch → Text → Text → Text → Best → Best
better glob name pattern candidate best =
    let s = downstream_pattern_match_specificity glob pattern candidate in
    if ltb best.1 s then (name, s) else best

unfoldable pub best_candidate : PathMatch → Text → Text → List Text → Best → Best
best_candidate glob name pattern [] best = best
best_candidate glob name pattern (c ∷ cs) best =
    best_candidate glob name pattern cs (better glob name pattern c best)

unfoldable pub best_pattern : PathMatch → Text → List Text → List Text → Best → Best
unfolding best_candidate
best_pattern glob name [] candidates best = best
best_pattern glob name (p ∷ ps) candidates best =
    best_pattern glob name ps candidates (best_candidate glob name p candidates best)

unfoldable pub best_downstream : PathMatch → List CompiledDownstream → List Text → Best → Best
unfolding best_pattern
best_downstream glob [] candidates best = best
best_downstream glob (d ∷ ds) candidates best =
    best_downstream glob ds candidates (best_pattern glob d.name d.hosts candidates best)

-- The texts of a URL that the patterns of a downstream are held against.
unfoldable pub candidates_of : Url → List Text
unfolding join_host_and_first_path_segment
candidates_of url =
    url.hostname
    ∷ url.host
    ∷ join_host_and_first_path_segment url.hostname url.path
    ∷ join_host_and_first_path_segment url.host url.path
    ∷ []

-- The first label of the host name.
unfoldable pub default_downstream : Text → Text
unfolding before
default_downstream hostname =
    let label = before b'.' hostname in
    if is_empty hostname then [] else if is_empty label then hostname else label

infer_downstream_at : PathMatch → Option Url → List CompiledDownstream → Text
unfolding best_downstream candidates_of default_downstream
infer_downstream_at glob none mappings = []
infer_downstream_at glob (some url) mappings =
    let name = (best_downstream glob mappings (candidates_of url) ([], 0)).0 in
    if is_empty name then default_downstream url.hostname else name

unfoldable pub infer_downstream : PathMatch → Request → List CompiledDownstream → Text
unfolding infer_downstream_at
infer_downstream glob req mappings = infer_downstream_at glob req.url mappings

unfoldable pub default_operation_name : Text → Text → Text
default_operation_name method path =
    let method' = to_upper (trim_space method) in
    let path' = trim_space path in
    trim_space (method' ++ b' ' ∷ (if is_empty path' then b'/' ∷ [] else path'))

abbrev pub operation_matches : PathMatch → Url → Text → Text → CompiledOperationRule → Bool
operation_matches glob url method downstream rule =
    match_exact_values rule.methods method
    && (match_host_patterns glob rule.hosts url.hostname
        || match_host_patterns glob rule.hosts url.host)
    && match_path_patterns glob rule.paths url.path
    && match_exact_values rule.downstreams downstream

unfoldable pub first_operation :
    (CompiledOperationRule → Bool) → List CompiledOperationRule → Text → Text
first_operation test [] fallback = fallback
first_operation test (r ∷ rs) fallback =
    let rest = first_operation test rs fallback in if test r then r.name else rest

infer_operation_at : PathMatch → Request → Option Url → Text → List CompiledOperationRule → Text
unfolding first_operation default_operation_name
infer_operation_at glob req none downstream rules = []
infer_operation_at glob req (some url) downstream rules =
    let method = to_upper req.method in
    first_operation (operation_matches glob url method downstream) rules
      (default_operation_name method url.path)

unfoldable pub infer_operation :
    PathMatch → Request → RetryConfigScope → List CompiledOperationRule → Text
unfolding infer_operation_at
infer_operation glob req scope rules = infer_operation_at glob req req.url scope.downstream rules
