-- ===== src/Tests/Infer.antt =====
-- The inference of a downstream.
use http_governance_client.Common.{◌≤◌, ◌≡◌, refl, if◌then◌else◌, ◌⊎◌, List, [], ◌∷◌, All, is_empty}
use http_governance_client.Common.Text.{codes}
use http_governance_client.Config.Infer.{
  CompiledDownstream, Best, candidates_of, default_downstream, infer_downstream,
}
use http_governance_client.Config.Infer.First.{IsFirst, all_scores, infer_downstream-IsFirst}
use http_governance_client.Tests.Policy.{same_text, get_orders, orders_url}

abbrev downstreams : List CompiledDownstream
downstreams =
    record { name = codes "any"; hosts = codes "*" ∷ [] }
    ∷ record { name = codes "orders"; hosts = orders_url.hostname ∷ [] }
    ∷ []

infer_downstream_example :
    (All (λ s. s.1 ≤ 0) (all_scores same_text (candidates_of orders_url) downstreams)
      × (infer_downstream same_text get_orders downstreams
          ≡ default_downstream orders_url.hostname))
    ⊎ ((x : Best) × IsFirst 0 (all_scores same_text (candidates_of orders_url) downstreams) x
        × (infer_downstream same_text get_orders downstreams
            ≡ (if is_empty x.0 then default_downstream orders_url.hostname else x.0)))
infer_downstream_example = infer_downstream-IsFirst same_text get_orders orders_url downstreams refl
