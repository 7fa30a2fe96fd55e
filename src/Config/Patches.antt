-- ===== src/Config/Patches.antt =====
-- retry_config_file.go: the patch of a policy, from the file to nanoseconds.
use http_governance_client.Common.{
  ◌≡◌, refl, Bool, true, false, not, ◌&&◌, ◌||◌, Option, none, some, arith, ℤ, pos, ◌≤ℤ◌, leb_ℤ,
  ltb_ℤ, eqb_ℤ, if◌then◌else◌, ◌⊎◌, inl, inr, List, [], ◌∷◌, any, is_empty, Bool-cases,
  Result-cases, Result, ok, err, ◌>>=◌, ◌>>◌, fail_if,
}
use http_governance_client.Common.Text.{Text}
use http_governance_client.Types.Policy.{RetryPolicyPatch}
use http_governance_client.Policy.Patch.{IsPatch, IsPositive, IsNatural, is_set}
use http_governance_client.Config.File.{
  RetryPolicyPatchFile, PatchField, per_attempt_timeout, max_elapsed_time, initial_backoff,
  max_backoff, ConfigError, max_retries_must_not_be_negative, disable_retry_and_max_retries,
  status_out_of_range, invalid_duration, duration_must_be_positive,
}

-- time.ParseDuration: `none` is an error.
abbrev pub ParseDuration : Type 0
ParseDuration = Text → Option ℤ

abbrev positive_duration : PatchField → Option ℤ → Result ConfigError (Option ℤ)
positive_duration field none = err (invalid_duration field)
positive_duration field (some d) =
    if leb_ℤ d (pos 0) then err (duration_must_be_positive field) else ok (some d)

unfoldable pub parse_positive_retry_duration :
    ParseDuration → PatchField → Text → Result ConfigError (Option ℤ)
parse_positive_retry_duration parse field value =
    if is_empty value then ok none else positive_duration field (parse value)

-- The statuses that are not seen yet, in their order.
unfoldable pub distinct_statuses : List ℤ → List ℤ → Result ConfigError (List ℤ)
distinct_statuses seen [] = ok []
distinct_statuses seen (s ∷ ss) =
    let later = distinct_statuses seen ss in
    let first = (do rest ← distinct_statuses (s ∷ seen) ss; ok (s ∷ rest)) in
    if ltb_ℤ s (pos 100) || ltb_ℤ (pos 599) s
    then err (status_out_of_range s)
    else if any (eqb_ℤ s) seen
    then later
    else first

pub statuses_of : Option (List ℤ) → Result ConfigError (Option (List ℤ))
unfolding distinct_statuses
statuses_of none = ok none
statuses_of (some ss) = do distinct ← distinct_statuses [] ss; ok (some distinct)

abbrev pub is_negative : Option ℤ → Bool
is_negative none = false
is_negative (some n) = ltb_ℤ n (pos 0)

abbrev pub is_some {ℓ} : {A : Type ℓ} → Option A → Bool
is_some none = false
is_some (some a) = true

unfoldable pub empty : RetryPolicyPatchFile → Bool
empty f =
    not (is_some f.disable_retry)
    && not (is_some f.max_retries)
    && is_empty f.per_attempt_timeout
    && is_empty f.max_elapsed_time
    && is_empty f.initial_backoff
    && is_empty f.max_backoff
    && not (is_some f.retry_on_statuses)
    && not (is_some f.retry_on_429)

unfoldable pub to_patch : ParseDuration → RetryPolicyPatchFile → Result ConfigError RetryPolicyPatch
unfolding parse_positive_retry_duration statuses_of
to_patch parse f = do
  fail_if (is_negative f.max_retries) max_retries_must_not_be_negative
  fail_if (is_set f.disable_retry && is_some f.max_retries) disable_retry_and_max_retries
  statuses ← statuses_of f.retry_on_statuses
  timeout ← parse_positive_retry_duration parse per_attempt_timeout f.per_attempt_timeout
  elapsed ← parse_positive_retry_duration parse max_elapsed_time f.max_elapsed_time
  initial ← parse_positive_retry_duration parse initial_backoff f.initial_backoff
  limit ← parse_positive_retry_duration parse max_backoff f.max_backoff
  ok (record {
    disable_retry = f.disable_retry;
    max_retries = f.max_retries;
    per_attempt_timeout = timeout;
    max_elapsed_time = elapsed;
    initial_backoff = initial;
    max_backoff = limit;
    retry_on_statuses = statuses;
    retry_on_429 = f.retry_on_429;
  })

parse-IsPositive :
    (parse : ParseDuration) (field : PatchField) (value : Text) (d : Option ℤ)
    → parse_positive_retry_duration parse field value ≡ ok d
    → IsPositive d
unfolding parse_positive_retry_duration
parse-IsPositive parse field value none e = tt
parse-IsPositive parse field value (some d) e = ground arith

-- Every status is an HTTP status that is not seen before.
abbrev pub AreDistinct : List ℤ → List ℤ → Type 0
AreDistinct seen [] = Unit
AreDistinct seen (s ∷ ss) =
    (pos 100 ≤ℤ s) × (s ≤ℤ pos 599) × (any (eqb_ℤ s) seen ≡ false) × AreDistinct (s ∷ seen) ss

distinct_statuses-AreDistinct :
    (seen ss ds : List ℤ) → distinct_statuses seen ss ≡ ok ds → AreDistinct seen ds
unfolding distinct_statuses
distinct_statuses-AreDistinct seen [] [] e = tt
distinct_statuses-AreDistinct seen [] (d ∷ ds) e = cc
distinct_statuses-AreDistinct seen (s ∷ ss) ds e =
    elim (Bool-cases (ltb_ℤ s (pos 100) || ltb_ℤ (pos 599) s)) [
      | inl out ↦ absurd (ground arith)
      | inr fits ↦ elim (Bool-cases (any (eqb_ℤ s) seen)) [
        | inl old ↦ distinct_statuses-AreDistinct seen ss ds (ground arith)
        | inr new ↦ elim (Result-cases (distinct_statuses (s ∷ seen) ss)) [
          | inr (x, bad) ↦ absurd (ground arith)
          | inl (rest, good) ↦
              let same : s ∷ rest ≡ ds = ground arith in
              rw (← same) (
                ground arith,
                ground arith,
                new,
                distinct_statuses-AreDistinct (s ∷ seen) ss rest good,
              )
        ]
      ]
    ]

abbrev pub AreStatuses : Option (List ℤ) → Type 0
AreStatuses none = Unit
AreStatuses (some ss) = AreDistinct [] ss

statuses-AreStatuses : (ss ds : Option (List ℤ)) → statuses_of ss ≡ ok ds → AreStatuses ds
unfolding statuses_of
statuses-AreStatuses ss none e = tt
statuses-AreStatuses none (some ds) e = cc
statuses-AreStatuses (some ss) (some ds) e = elim (Result-cases (distinct_statuses [] ss)) [
  | inl (xs, good) ↦
      let same : xs ≡ ds = ground arith in rw (← same) (distinct_statuses-AreDistinct [] ss xs good)
  | inr (x, bad) ↦ absurd (ground arith)
]

negative-IsNatural : (n : Option ℤ) → is_negative n ≡ false → IsNatural n
negative-IsNatural none h = tt
negative-IsNatural (some n) h = ground arith

exclusive-switches :
    (d : Option Bool) (n : Option ℤ)
    → (is_set d && is_some n) ≡ false
    → (is_set d ≡ false) ⊎ (n ≡ none)
exclusive-switches d none h = inr refl
exclusive-switches d (some n) h = inl (ground arith)

-- A patch that the loader accepts keeps what the file says of the switches and the number of
-- retries; this number is not negative, the durations are positive, retries are not both counted and
-- disabled, and the statuses lie from 100 to 599, each once.
pub to_patch-IsPatch :
    (parse : ParseDuration) (f : RetryPolicyPatchFile) (p : RetryPolicyPatch)
    → to_patch parse f ≡ ok p
    → IsPatch p
      × AreStatuses p.retry_on_statuses
      × (p.disable_retry ≡ f.disable_retry)
      × (p.max_retries ≡ f.max_retries)
      × (p.retry_on_429 ≡ f.retry_on_429)
unfolding to_patch
to_patch-IsPatch parse f p e = elim (Result-cases (statuses_of f.retry_on_statuses)) [
  | inr (x, bad) ↦ absurd (ground arith)
  | inl (statuses, es) ↦
      elim (Result-cases
        (parse_positive_retry_duration parse per_attempt_timeout f.per_attempt_timeout)) [
          | inr (x, bad) ↦ absurd (ground arith)
          | inl (timeout, et) ↦
              elim (Result-cases
                (parse_positive_retry_duration parse max_elapsed_time f.max_elapsed_time)) [
                  | inr (x, bad) ↦ absurd (ground arith)
                  | inl (elapsed, ee) ↦
                      elim (Result-cases
                        (parse_positive_retry_duration parse initial_backoff f.initial_backoff)) [
                          | inr (x, bad) ↦ absurd (ground arith)
                          | inl (initial, ei) ↦
                              elim (Result-cases
                                (parse_positive_retry_duration parse max_backoff f.max_backoff)) [
                                  | inr (x, bad) ↦ absurd (ground arith)
                                  | inl (limit, el) ↦
                                      let same : record {
                                        disable_retry = f.disable_retry;
                                        max_retries = f.max_retries;
                                        per_attempt_timeout = timeout;
                                        max_elapsed_time = elapsed;
                                        initial_backoff = initial;
                                        max_backoff = limit;
                                        retry_on_statuses = statuses;
                                        retry_on_429 = f.retry_on_429;
                                      }
                                          ≡ p =
                                        ground arith in
                                      rw (← same) (
                                        record {
                                          retries = negative-IsNatural f.max_retries (ground arith);
                                          timeout =
                                              parse-IsPositive parse per_attempt_timeout
                                                f.per_attempt_timeout timeout et;
                                          elapsed =
                                              parse-IsPositive parse max_elapsed_time
                                                f.max_elapsed_time elapsed ee;
                                          initial =
                                              parse-IsPositive parse initial_backoff
                                                f.initial_backoff initial ei;
                                          cap =
                                              parse-IsPositive parse max_backoff f.max_backoff limit
                                                el;
                                          exclusive =
                                              exclusive-switches f.disable_retry f.max_retries
                                                (ground arith);
                                        },
                                        statuses-AreStatuses f.retry_on_statuses statuses es,
                                        refl,
                                        refl,
                                        refl,
                                      )
                                ]
                        ]
                ]
        ]
]
