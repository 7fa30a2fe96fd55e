-- ===== src/Config/Merge/Accepted.antt =====
-- retry_consul.go and toPatch: the policy that two accepted layers make is accepted.
use http_governance_client.Common.{
  IsOk, ◌≡◌, refl, ap, false, ◌&&◌, Option, none, some, arith, ℤ, inl, inr, List, [], ◌∷◌,
  Result-cases, ok,
}
use http_governance_client.Common.Text.{Text}
use http_governance_client.Policy.Patch.{is_set}
use http_governance_client.Types.Policy.{RetryPolicyPatch}
use http_governance_client.Config.Patches.{
  ParseDuration, to_patch, parse_positive_retry_duration, statuses_of, is_some, is_negative,
}
use http_governance_client.Config.File.{
  RetryPolicyPatchFile, PatchField, per_attempt_timeout, max_elapsed_time, initial_backoff,
  max_backoff,
}
use http_governance_client.Config.Merge.{
  merge_retry_policy_patch_files, override_option, override_text,
}

-- What toPatch asks for, one by one.
record Passes (parse : ParseDuration) (f : RetryPolicyPatchFile) : Type 0 where
  counted : is_negative f.max_retries ≡ false
  exclusive : (is_set f.disable_retry && is_some f.max_retries) ≡ false
  statuses : IsOk (statuses_of f.retry_on_statuses)
  timeout : IsOk (parse_positive_retry_duration parse per_attempt_timeout f.per_attempt_timeout)
  elapsed : IsOk (parse_positive_retry_duration parse max_elapsed_time f.max_elapsed_time)
  initial : IsOk (parse_positive_retry_duration parse initial_backoff f.initial_backoff)
  limit : IsOk (parse_positive_retry_duration parse max_backoff f.max_backoff)

to_patch-Passes :
    (parse : ParseDuration) (f : RetryPolicyPatchFile) (p : RetryPolicyPatch)
    → to_patch parse f ≡ ok p
    → Passes parse f
unfolding to_patch
to_patch-Passes parse f p e = elim (Result-cases (statuses_of f.retry_on_statuses)) [
  | inr (x, bad) ↦ absurd (ground arith)
  | inl st ↦
      elim (Result-cases
        (parse_positive_retry_duration parse per_attempt_timeout f.per_attempt_timeout)) [
          | inr (x, bad) ↦ absurd (ground arith)
          | inl t ↦
              elim (Result-cases
                (parse_positive_retry_duration parse max_elapsed_time f.max_elapsed_time)) [
                  | inr (x, bad) ↦ absurd (ground arith)
                  | inl l ↦
                      elim (Result-cases
                        (parse_positive_retry_duration parse initial_backoff f.initial_backoff)) [
                          | inr (x, bad) ↦ absurd (ground arith)
                          | inl i ↦
                              elim (Result-cases
                                (parse_positive_retry_duration parse max_backoff f.max_backoff)) [
                                  | inr (x, bad) ↦ absurd (ground arith)
                                  | inl m ↦ record {
                                    counted = ground arith;
                                    exclusive = ground arith;
                                    statuses = st;
                                    timeout = t;
                                    elapsed = l;
                                    initial = i;
                                    limit = m;
                                  }
                                ]
                        ]
                ]
        ]
]

Passes-to_patch :
    (parse : ParseDuration) (f : RetryPolicyPatchFile) → Passes parse f → IsOk (to_patch parse f)
unfolding to_patch
Passes-to_patch parse f h =
    rw (h.counted, h.exclusive, h.statuses.1, h.timeout.1, h.elapsed.1, h.initial.1, h.limit.1)
      (_, refl)

override_text-IsOk :
    (parse : ParseDuration) (field : PatchField) (o base : Text)
    → IsOk (parse_positive_retry_duration parse field o)
    → IsOk (parse_positive_retry_duration parse field base)
    → IsOk (parse_positive_retry_duration parse field (override_text o base))
override_text-IsOk parse field [] base h k = k
override_text-IsOk parse field (c ∷ s) base h k = h

override_statuses-IsOk :
    (o base : Option (List ℤ))
    → IsOk (statuses_of o)
    → IsOk (statuses_of base)
    → IsOk (statuses_of (override_option o base))
override_statuses-IsOk none base h k = k
override_statuses-IsOk (some ss) base h k = h

or_first : RetryPolicyPatchFile → Option RetryPolicyPatchFile → RetryPolicyPatchFile
or_first f none = f
or_first f (some g) = g

merged-Passes :
    (parse : ParseDuration) (base o f : RetryPolicyPatchFile)
    → merge_retry_policy_patch_files (some base) (some o) ≡ some f
    → Passes parse base
    → Passes parse o
    → Passes parse f
unfolding merge_retry_policy_patch_files or_first
merged-Passes parse base o f e b h =
    let same = ap (λ x. or_first f x) e in
    rw (← same) (record {
      counted = ground (arith, b.counted, h.counted);
      exclusive = ground (arith, b.exclusive, h.exclusive);
      statuses =
          override_statuses-IsOk o.retry_on_statuses base.retry_on_statuses h.statuses b.statuses;
      timeout =
          override_text-IsOk parse per_attempt_timeout o.per_attempt_timeout
            base.per_attempt_timeout h.timeout b.timeout;
      elapsed =
          override_text-IsOk parse max_elapsed_time o.max_elapsed_time base.max_elapsed_time
            h.elapsed b.elapsed;
      initial =
          override_text-IsOk parse initial_backoff o.initial_backoff base.initial_backoff h.initial
            b.initial;
      limit = override_text-IsOk parse max_backoff o.max_backoff base.max_backoff h.limit b.limit;
    })

-- If the loader accepts the policies of both layers, it accepts the merged one.
pub to_patch-merge_retry_policy_patch_files :
    (parse : ParseDuration) (base o f : RetryPolicyPatchFile) (p q : RetryPolicyPatch)
    → to_patch parse base ≡ ok p
    → to_patch parse o ≡ ok q
    → merge_retry_policy_patch_files (some base) (some o) ≡ some f
    → (r : RetryPolicyPatch) × (to_patch parse f ≡ ok r)
to_patch-merge_retry_policy_patch_files parse base o f p q b h e =
    Passes-to_patch parse f (
      merged-Passes parse base o f e (to_patch-Passes parse base p b) (to_patch-Passes parse o q h))
