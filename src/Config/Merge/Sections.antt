-- ===== src/Config/Merge/Sections.antt =====
-- retry_consul.go and retry_config_file.go: the downstreams and operations of a file compile exactly
-- where each does by itself and their names differ.
use http_governance_client.Common.{
  ℕ, suc, ◌≡◌, refl, false, arith, inl, inr, List, [], ◌∷◌, any, All, is_empty, Bool-cases, Result,
  ok, ◌>>=◌, ◌>>◌, fail_if, Result-cases, IsOk,
}
use http_governance_client.Common.Text.{Text, text_eq, trim_space, to_lower}
use http_governance_client.Common.Text.{is_empty-to_lower}
use http_governance_client.Config.Match.{PathMatch}
use http_governance_client.Config.Infer.{CompiledDownstream, CompiledOperationRule}
use http_governance_client.Config.File.{
  RetryDownstreamFile, RetryOperationRuleFile, ConfigError, Section, downstream, operation,
  name_must_not_be_empty,
}
use http_governance_client.Config.Compile.{
  normalize_patterns, compile_downstream, compile_downstreams, compile_operation, operations_of,
  claim,
}
use http_governance_client.Config.Merge.{name_key}
use http_governance_client.Config.Merge.Fresh.{Fresh}

-- An item with a name that compiles by itself.
abbrev pub IsItem : {A B : Type 0} → (A → Text) → (A → Result ConfigError B) → A → Type 0
IsItem name compile a = (is_empty (trim_space (name a)) ≡ false) × IsOk (compile a)

-- One turn of a loop over named items.
abbrev turn :
    {A B : Type 0}
    → Section
    → (A → Text)
    → (A → Result ConfigError B)
    → (ℕ → List Text → List A → Result ConfigError (List B))
    → ℕ
    → List Text
    → A
    → List A
    → Result ConfigError (List B)
turn s name compile loop n seen a items = do
  fail_if (is_empty (trim_space (name a))) (name_must_not_be_empty s n)
  seen' ← claim s seen (trim_space (name a))
  b ← compile a
  bs ← loop (suc n) seen' items
  ok (b ∷ bs)

-- The two loops over named items, by their equations.
module _ {A B : Type 0} (s : Section) (name : A → Text) (compile : A → Result ConfigError B)
    (loop : ℕ → List Text → List A → Result ConfigError (List B))
    (loop-nil : (n : ℕ) (seen : List Text) → loop n seen [] ≡ ok [])
    (loop-cons : (n : ℕ) (seen : List Text) (a : A) (items : List A)
      → loop n seen (a ∷ items) ≡ turn s name compile loop n seen a items) where
  turn-parts :
      (n : ℕ) (seen : List Text) (a : A) (items : List A)
      → IsOk (turn s name compile loop n seen a items)
      → IsItem name compile a × IsOk (loop (suc n) (to_lower (trim_space (name a)) ∷ seen) items)
  turn-parts n seen a items h = elim (Bool-cases (is_empty (trim_space (name a)))) [
    | inl blank ↦ absurd (ground arith)
    | inr named ↦ elim (Bool-cases (any (text_eq (to_lower (trim_space (name a)))) seen)) [
      | inl old ↦ absurd (ground arith)
      | inr new ↦ elim (Result-cases (compile a)) [
        | inr (x, bad) ↦ absurd (ground arith)
        | inl one ↦
            elim (Result-cases (loop (suc n) (to_lower (trim_space (name a)) ∷ seen) items)) [
              | inr (x, bad) ↦ absurd (ground arith)
              | inl rest ↦ ((named, one), rest)
            ]
      ]
    ]
  ]

  loop-IsItem :
      (n : ℕ) (seen : List Text) (items : List A)
      → IsOk (loop n seen items)
      → All (IsItem name compile) items
  loop-IsItem n seen [] h = tt
  loop-IsItem n seen (a ∷ items) h =
      let (one, rest) = turn-parts n seen a items (rw (loop-cons n seen a items) at h) in
      (one, loop-IsItem (suc n) (to_lower (trim_space (name a)) ∷ seen) items rest)

  IsItem-loop :
      (n : ℕ) (seen : List Text) (items : List A)
      → All (IsItem name compile) items
      → Fresh (λ a. name_key (name a)) seen items
      → IsOk (loop n seen items)
  unfolding name_key
  IsItem-loop n seen [] h f = ([], loop-nil n seen)
  IsItem-loop n seen (a ∷ items) h (inl (blank, f)) =
      let named = is_empty-to_lower (trim_space (name a)) in absurd (cc (named, blank, h.0.0))
  IsItem-loop n seen (a ∷ items) h (inr (e, new, f)) =
      let (rest, good) = IsItem-loop (suc n) (to_lower (trim_space (name a)) ∷ seen) items h.1 f in
      rw (loop-cons n seen a items, h.0.0, new, h.0.1.1, good) (_, refl)

module _ (glob : PathMatch) where
  abbrev downstream_of : RetryDownstreamFile → Result ConfigError CompiledDownstream
  downstream_of d = compile_downstream glob (trim_space d.name) (normalize_patterns d.hosts)

  abbrev operation_of : RetryOperationRuleFile → Result ConfigError CompiledOperationRule
  operation_of o = compile_operation glob (trim_space o.name) o

  abbrev pub IsDownstream : RetryDownstreamFile → Type 0
  IsDownstream d = IsItem (λ d. d.name) downstream_of d

  abbrev pub IsOperation : RetryOperationRuleFile → Type 0
  IsOperation o = IsItem (λ o. o.name) operation_of o

  pub compile_downstreams-IsDownstream :
      (n : ℕ) (seen : List Text) (ds : List RetryDownstreamFile)
      → IsOk (compile_downstreams glob n seen ds)
      → All IsDownstream ds
  unfolding compile_downstreams
  compile_downstreams-IsDownstream =
      loop-IsItem downstream (λ d. d.name) downstream_of (compile_downstreams glob) (λ n seen. refl)
        (λ n seen d ds. refl)

  pub IsDownstream-compile_downstreams :
      (n : ℕ) (seen : List Text) (ds : List RetryDownstreamFile)
      → All IsDownstream ds
      → Fresh (λ d. name_key d.name) seen ds
      → IsOk (compile_downstreams glob n seen ds)
  unfolding compile_downstreams
  IsDownstream-compile_downstreams =
      IsItem-loop downstream (λ d. d.name) downstream_of (compile_downstreams glob) (λ n seen. refl)
        (λ n seen d ds. refl)

  pub operations_of-IsOperation :
      (n : ℕ) (seen : List Text) (os : List RetryOperationRuleFile)
      → IsOk (operations_of glob n seen os)
      → All IsOperation os
  unfolding operations_of
  operations_of-IsOperation =
      loop-IsItem operation (λ o. o.name) operation_of (operations_of glob) (λ n seen. refl)
        (λ n seen o os. refl)

  pub IsOperation-operations_of :
      (n : ℕ) (seen : List Text) (os : List RetryOperationRuleFile)
      → All IsOperation os
      → Fresh (λ o. name_key o.name) seen os
      → IsOk (operations_of glob n seen os)
  unfolding operations_of
  IsOperation-operations_of =
      IsItem-loop operation (λ o. o.name) operation_of (operations_of glob) (λ n seen. refl)
        (λ n seen o os. refl)
