-- ===== src/Config/Infer/First.antt =====
-- retry_config_file.go: which downstream is inferred.
use http_governance_client.Common.{
  ℕ, ◌≤◌, ◌<◌, ◌≡◌, refl, sym, ap, ◌∙◌, some, arith, if◌then◌else◌, ◌⊎◌, inl, inr, List, [], ◌∷◌,
  ◌++◌, All, is_empty, Bool-cases, ltb,
}
use http_governance_client.Common.Text.{Text}
use http_governance_client.Types.Message.{Request, Url}
use http_governance_client.Config.Match.{PathMatch}
use http_governance_client.Config.Infer.{
  CompiledDownstream, Best, downstream_pattern_match_specificity, better, best_candidate,
  best_pattern, best_downstream, candidates_of, default_downstream, infer_downstream,
}

-- The scores of a pattern on the candidates, each with the name of its downstream.
abbrev pub scores_of : PathMatch → Text → Text → List Text → List Best
scores_of glob name pattern [] = []
scores_of glob name pattern (c ∷ cs) =
    (name, downstream_pattern_match_specificity glob pattern c) ∷ scores_of glob name pattern cs

abbrev pub pattern_scores : PathMatch → List Text → Text → List Text → List Best
pattern_scores glob candidates name [] = []
pattern_scores glob candidates name (p ∷ ps) =
    scores_of glob name p candidates ++ pattern_scores glob candidates name ps

-- All scores, in the order of the downstreams, their patterns and the candidates.
abbrev pub all_scores : PathMatch → List Text → List CompiledDownstream → List Best
all_scores glob candidates [] = []
all_scores glob candidates (d ∷ ds) =
    pattern_scores glob candidates d.name d.hosts ++ all_scores glob candidates ds

-- The higher of two scores, the earlier where they are equal.
abbrev higher : Best → Best → Best
higher best new = if ltb best.1 new.1 then new else best

abbrev highest : Best → List Best → Best
highest best [] = best
highest best (s ∷ ss) = highest (higher best s) ss

highest-append :
    (best : Best) (xs ys : List Best) → highest best (xs ++ ys) ≡ highest (highest best xs) ys
highest-append best [] ys = refl
highest-append best (x ∷ xs) ys = highest-append (higher best x) xs ys

best_candidate-highest :
    (glob : PathMatch) (name pattern : Text) (cs : List Text) (best : Best)
    → best_candidate glob name pattern cs best ≡ highest best (scores_of glob name pattern cs)
unfolding best_candidate better
best_candidate-highest glob name pattern [] best = refl
best_candidate-highest glob name pattern (c ∷ cs) best =
    best_candidate-highest glob name pattern cs (better glob name pattern c best)

best_pattern-highest :
    (glob : PathMatch) (name : Text) (ps cs : List Text) (best : Best)
    → best_pattern glob name ps cs best ≡ highest best (pattern_scores glob cs name ps)
unfolding best_pattern
best_pattern-highest glob name [] cs best = refl
best_pattern-highest glob name (p ∷ ps) cs best =
    best_pattern-highest glob name ps cs (best_candidate glob name p cs best)
    ∙ ap (λ b. highest b (pattern_scores glob cs name ps))
        (best_candidate-highest glob name p cs best)
    ∙ sym (highest-append best (scores_of glob name p cs) (pattern_scores glob cs name ps))

best_downstream-highest :
    (glob : PathMatch) (ds : List CompiledDownstream) (cs : List Text) (best : Best)
    → best_downstream glob ds cs best ≡ highest best (all_scores glob cs ds)
unfolding best_downstream
best_downstream-highest glob [] cs best = refl
best_downstream-highest glob (d ∷ ds) cs best =
    best_downstream-highest glob ds cs (best_pattern glob d.name d.hosts cs best)
    ∙ ap (λ b. highest b (all_scores glob cs ds)) (best_pattern-highest glob d.name d.hosts cs best)
    ∙ sym (highest-append best (pattern_scores glob cs d.name d.hosts) (all_scores glob cs ds))

-- The first of the highest scores, which is above the given one.
abbrev pub IsFirst : ℕ → List Best → Best → Type 0
IsFirst least ss x =
    (before : List Best) × (after : List Best) × (ss ≡ before ++ x ∷ after)
    × (least < x.1)
    × All (λ s. s.1 < x.1) before
    × All (λ s. s.1 ≤ x.1) after

highest-IsFirst :
    (best : Best) (ss : List Best)
    → ((highest best ss ≡ best) × All (λ s. s.1 ≤ best.1) ss)
      ⊎ ((x : Best) × (highest best ss ≡ x) × IsFirst best.1 ss x)
highest-IsFirst best [] = inl (refl, tt)
highest-IsFirst best (s ∷ ss) = elim (Bool-cases (ltb best.1 s.1)) [
  | inl e ↦ rw e (elim (highest-IsFirst s ss) [
    | inl (same, below) ↦ inr (s, same, ([], ss, refl, ground arith, tt, below))
    | inr (x, same, (a, b, split, more, ahead, behind)) ↦
        inr (x, same, (s ∷ a, b, ap (λ t. s ∷ t) split, ground arith, (more, ahead), behind))
  ])
  | inr e ↦ rw e (elim (highest-IsFirst best ss) [
    | inl (same, below) ↦ inl (same, (ground arith, below))
    | inr (x, same, (a, b, split, more, ahead, behind)) ↦
        inr (x, same, (s ∷ a, b, ap (λ t. s ∷ t) split, more, (ground arith, ahead), behind))
  ])
]

-- The downstream of a request with a URL is the one with the highest score of a pattern on a
-- candidate, the first where scores are equal; where no pattern scores, or the downstream has no
-- name, it is the default one.
pub infer_downstream-IsFirst :
    (glob : PathMatch) (req : Request) (url : Url) (ds : List CompiledDownstream)
    → req.url ≡ some url
    → (All (λ s. s.1 ≤ 0) (all_scores glob (candidates_of url) ds)
        × (infer_downstream glob req ds ≡ default_downstream url.hostname))
      ⊎ ((x : Best) × IsFirst 0 (all_scores glob (candidates_of url) ds) x
          × (infer_downstream glob req ds
              ≡ (if is_empty x.0 then default_downstream url.hostname else x.0)))
unfolding infer_downstream
infer_downstream-IsFirst glob req url ds h =
    let scores = all_scores glob (candidates_of url) ds in
    let best = best_downstream-highest glob ds (candidates_of url) ([], 0) in
    elim (highest-IsFirst ([], 0) scores) [
      | inl (same, below) ↦ inl (below, rw (h, best, same) refl)
      | inr (x, same, first) ↦ inr (x, first, rw (h, best, same) refl)
    ]
