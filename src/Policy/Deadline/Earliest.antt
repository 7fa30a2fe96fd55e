-- ===== src/Policy/Deadline/Earliest.antt =====
-- retry.go and retry_governance.go: the deadline in force is the earliest of its sources.
use http_governance_client.Common.{
  ◌≡◌, refl, ◌||◌, Option, none, some, arith, ℤ, ◌≤ℤ◌, ltb_ℤ, ◌⊎◌, inl, inr, List, [], ◌∷◌, All,
  Bool-cases,
}
use http_governance_client.Types.Message.{
  Header, Context, Request, get, header_request_deadline, header_no_more_retry,
}
use http_governance_client.Policy.Deadline.{
  earlier, elapsed_deadline, import_deadline, parse_bool_header, parse_request_deadline,
  resolve_overall_deadline, with_no_more_retry, context_with_retry_constraints,
}

-- At most as late as a deadline that there is.
abbrev pub IsBy : ℤ → Option ℤ → Type 0
IsBy d none = Unit
IsBy d (some d') = d ≤ℤ d'

abbrev pub OneOf : ℤ → List (Option ℤ) → Type 0
OneOf r [] = ⊥
OneOf r (d ∷ ds) = (d ≡ some r) ⊎ OneOf r ds

-- The earliest of the deadlines that there are, and none exactly where there is none.
abbrev pub IsEarliest : Option ℤ → List (Option ℤ) → Type 0
IsEarliest r ds =
    ((r ≡ none) × All (λ d. d ≡ none) ds) ⊎ ((d : ℤ) × (r ≡ some d) × All (IsBy d) ds × OneOf d ds)

IsBy-trans : (d e : ℤ) (x : Option ℤ) → e ≤ℤ d → IsBy d x → IsBy e x
IsBy-trans d e none h k = tt
IsBy-trans d e (some x) h k = omega arith

IsBy-All : (d e : ℤ) (ds : List (Option ℤ)) → e ≤ℤ d → All (IsBy d) ds → All (IsBy e) ds
IsBy-All d e [] h k = tt
IsBy-All d e (x ∷ ds) h k = (IsBy-trans d e x h k.0, IsBy-All d e ds h k.1)

none-IsBy : (e : ℤ) (ds : List (Option ℤ)) → All (λ d. d ≡ none) ds → All (IsBy e) ds
none-IsBy e [] h = tt
none-IsBy e (x ∷ ds) h = (rw h.0 tt, none-IsBy e ds h.1)

-- One more deadline.
earlier-IsEarliest :
    (r d : Option ℤ) (ds : List (Option ℤ)) → IsEarliest r ds → IsEarliest (earlier r d) (d ∷ ds)
earlier-IsEarliest r none ds (inl (e, all)) = inl (e, (refl, all))
earlier-IsEarliest r none ds (inr (x, e, all, one)) = inr (x, e, (tt, all), inr one)
earlier-IsEarliest none (some y) ds (inl (e, all)) =
    inr (y, refl, (omega arith, none-IsBy y ds all), inl refl)
earlier-IsEarliest (some x) (some y) ds (inl (e, all)) = absurd (cc)
earlier-IsEarliest none (some y) ds (inr (x, e, all, one)) = absurd (cc)
earlier-IsEarliest (some z) (some y) ds (inr (x, e, all, one)) =
    let same : x ≡ z = cc in
    elim (Bool-cases (ltb_ℤ y z)) [
      | inl l ↦ rw l (inr (y, refl, (omega arith, IsBy-All x y ds (ground arith) all), inl refl))
      | inr l ↦
          rw l (
            inr (z, refl, (ground arith, IsBy-All x z ds (ground arith) all), inr (rw same at one)))
    ]

single-IsEarliest : (d : Option ℤ) → IsEarliest d (d ∷ [])
single-IsEarliest none = inl (refl, (refl, tt))
single-IsEarliest (some x) = inr (x, refl, (omega arith, tt), inl refl)

-- The deadline of a request is the earliest of those that the header of the caller, the context and
-- the policy set, and there is none exactly where none of them sets one.
pub resolve_overall_deadline-IsEarliest :
    (now : ℤ) (req : Request) (elapsed : ℤ)
    → IsEarliest (resolve_overall_deadline now req elapsed) (
        elapsed_deadline now elapsed
        ∷ req.context.deadline
        ∷ parse_request_deadline (get req.header header_request_deadline)
        ∷ [])
unfolding resolve_overall_deadline
resolve_overall_deadline-IsEarliest now req elapsed =
    let from_header = parse_request_deadline (get req.header header_request_deadline) in
    earlier-IsEarliest _ (elapsed_deadline now elapsed) (req.context.deadline ∷ from_header ∷ []) (
      earlier-IsEarliest from_header req.context.deadline (from_header ∷ [])
        (single-IsEarliest from_header))

import_deadline-IsEarliest :
    (ctx : Context) (d : Option ℤ)
    → IsEarliest (import_deadline ctx d).deadline (d ∷ ctx.deadline ∷ [])
import_deadline-IsEarliest ctx none =
    earlier-IsEarliest ctx.deadline none (ctx.deadline ∷ []) (single-IsEarliest ctx.deadline)
import_deadline-IsEarliest ctx (some d) =
    earlier-IsEarliest ctx.deadline (some d) (ctx.deadline ∷ []) (single-IsEarliest ctx.deadline)

import_deadline-no_more_retry :
    (ctx : Context) (d : Option ℤ) → (import_deadline ctx d).no_more_retry ≡ ctx.no_more_retry
import_deadline-no_more_retry ctx none = refl
import_deadline-no_more_retry ctx (some d) = refl

-- Importing the constraints of a caller forbids retries exactly where the context or the header
-- does, and makes the deadline the earliest of the two that there are.
pub context_with_retry_constraints-tightens :
    (ctx : Context) (headers : Header)
    → ((context_with_retry_constraints ctx headers).no_more_retry
        ≡ (parse_bool_header (get headers header_no_more_retry) || ctx.no_more_retry))
      × IsEarliest
          (context_with_retry_constraints ctx headers).deadline
          (parse_request_deadline (get headers header_request_deadline) ∷ ctx.deadline ∷ [])
unfolding context_with_retry_constraints
context_with_retry_constraints-tightens ctx headers =
    elim (Bool-cases (parse_bool_header (get headers header_no_more_retry))) [
      | inl e ↦
          rw e (
            import_deadline-no_more_retry _ _,
            import_deadline-IsEarliest (with_no_more_retry ctx) _,
          )
      | inr e ↦ rw e (import_deadline-no_more_retry _ _, import_deadline-IsEarliest ctx _)
    ]
