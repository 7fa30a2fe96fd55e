-- ===== src/Policy/Backoff.antt =====
-- retry.go: the delay before a retry, from Retry-After or by exponential backoff with jitter.
use http_governance_client.Common.{
  ℕ, zero, suc, ◌+◌, ◌-◌, ◌*◌, ◌/◌, ◌^◌, ◌≤◌, ◌<◌, ◌≡◌, refl, ap, ◌||◌, Option, none, some, arith,
  ℤ, pos, negsuc, ◌<ℤ◌, ◌≤ℤ◌, leb_ℤ, ltb_ℤ, add64, sub64, mul64, sub_saturated, sub64-pos,
  mul64-two, add64-pos, if◌then◌else◌, ◌⊎◌, inl, inr, is_empty, Bool-cases, ltb, leb,
}
use http_governance_client.Common.Text.{Text, trim_space}
use http_governance_client.Common.Number.{parse_int}
use native.Mathlib.Nat.{pow-suc}
use http_governance_client.Types.Policy.{RetryPolicy, second}
use http_governance_client.Types.Message.{Response, get, header_retry_after}

-- What the delay takes from outside: time.Now, http.ParseTime and rand.Int63n.
pub record Chance : Type 0 where
  pub now : ℤ
  pub parse_time : Text → Option ℤ
  pub int63n : ℤ → ℤ

-- Int63n(n) lies in [0, n).
abbrev pub IsFair : Chance → Type 0
IsFair c = (n : ℤ) → pos 0 <ℤ n → (pos 0 ≤ℤ c.int63n n) × (c.int63n n <ℤ n)

abbrev from_seconds : ℤ → Option ℤ
from_seconds seconds =
    if ltb_ℤ seconds (pos 0)
    then none
    else if ltb_ℤ (pos ((2 ^ 63 - 1) / second)) seconds
    then none
    else some (mul64 seconds (pos second))

abbrev until : ℤ → Option ℤ → Option ℤ
until now none = none
until now (some when) =
    let delay = sub_saturated when now in some (if ltb_ℤ delay (pos 0) then pos 0 else delay)

abbrev seconds_or_date : Chance → Text → Option ℤ → Option ℤ
seconds_or_date c value (some seconds) = from_seconds seconds
seconds_or_date c value none = until c.now (c.parse_time value)

unfoldable pub parse_retry_after : Chance → Text → Option ℤ
parse_retry_after c value =
    if is_empty value then none else seconds_or_date c value (parse_int (trim_space value))

-- The loop of retryDelay: `attempt` rounds are left.
unfoldable pub grow : ℕ → ℤ → ℤ → ℤ
grow zero base limit = base
grow (suc rounds) base limit =
    let more = grow rounds (mul64 base (pos 2)) limit in
    if leb_ℤ limit base || ltb_ℤ (sub64 limit base) base then limit else more

unfoldable pub backoff : Chance → RetryPolicy → ℕ → ℤ
unfolding grow
backoff c policy attempt =
    let base = grow attempt policy.initial_backoff policy.max_backoff in
    if leb_ℤ base (pos 0)
    then pos 0
    else if leb_ℤ policy.max_backoff base
    then policy.max_backoff
    else if leb_ℤ (sub64 policy.max_backoff base) (c.int63n base)
    then policy.max_backoff
    else add64 base (c.int63n base)

abbrev or_backoff : Option ℤ → ℤ → ℤ
or_backoff (some delay) fallback = delay
or_backoff none fallback = fallback

abbrev retry_after_of : Chance → Option Response → Option ℤ
retry_after_of c none = none
retry_after_of c (some resp) = parse_retry_after c (get resp.header header_retry_after)

unfoldable pub retry_delay : Chance → RetryPolicy → ℕ → Option Response → ℤ
unfolding backoff parse_retry_after
retry_delay c policy attempt resp = or_backoff (retry_after_of c resp) (backoff c policy attempt)

-- Doubling without overflow: the backoff before jitter, or the limit if that is less.
unfoldable pub doubled : ℕ → ℕ → ℕ
doubled zero base = base
doubled (suc rounds) base = doubled rounds (2 * base)

doubled-ge : (rounds base : ℕ) → base ≤ doubled rounds base
unfolding doubled
doubled-ge zero base = omega arith
doubled-ge (suc rounds) base = omega (arith, doubled-ge rounds (2 * base))

doubled-pow : (rounds base : ℕ) → doubled rounds base ≡ 2 ^ rounds * base
unfolding doubled
doubled-pow zero base = omega arith
doubled-pow (suc rounds) base =
    rw (doubled-pow rounds (2 * base)) (omega (arith, ap (λ (t : ℕ). t * base) (pow-suc 2 rounds)))

-- The smaller of two numbers.
abbrev pub min_ℕ : ℕ → ℕ → ℕ
min_ℕ a b = if leb b a then b else a

-- The loop stops early where doubling would pass the limit, and so never overflows.
grow_lem :
    (rounds base limit : ℕ)
    → limit < 2 ^ 63
    → base < 2 ^ 63
    → (g : ℕ) × (grow rounds (pos base) (pos limit) ≡ pos g)
      × (g < 2 ^ 63)
      × (base ≤ g ⊎ limit ≤ g)
      × (min_ℕ g limit ≡ min_ℕ (doubled rounds base) limit)
unfolding grow doubled
grow_lem zero base limit hl hb = (base, refl, hb, inl (omega arith), refl)
grow_lem (suc rounds) base limit hl hb =
    elim (Bool-cases (leb limit base || ltb (limit - base) base)) [
      | inl stop ↦ (
        limit,
        ground (arith, sub64-pos limit base),
        hl,
        inr (omega arith),
        ground (arith, doubled-ge rounds (2 * base)),
      )
      | inr go ↦
          let (g, e, h, l, m) = grow_lem rounds (2 * base) limit hl (ground arith) in
          (g, ground (arith, sub64-pos limit base, mul64-two base, e), h, ground arith, m)
    ]

jitter : (c : Chance) → IsFair c → (g : ℕ) → 0 < g → (j : ℕ) × (c.int63n (pos g) ≡ pos j) × (j < g)
jitter c fair g h = go (c.int63n (pos g)) refl
  where
    go : (z : ℤ) → c.int63n (pos g) ≡ z → (j : ℕ) × (c.int63n (pos g) ≡ pos j) × (j < g)
    go (pos j) e = (j, e, ground (arith, fair (pos g)))
    go (negsuc j) e = absurd (ground (arith, fair (pos g)))

-- With positive int64 durations, and a random number in the range that is asked for, the backoff before attempt n + 1 is a duration between w and twice w, and
-- at most the limit, where w is the initial backoff doubled n times, cut down to the limit.
pub backoff-bounds :
    (c : Chance) (policy : RetryPolicy) (attempt initial limit : ℕ)
    → IsFair c
    → policy.initial_backoff ≡ pos initial
    → policy.max_backoff ≡ pos limit
    → 0 < initial
    → 0 < limit
    → initial < 2 ^ 63
    → limit < 2 ^ 63
    → (d : ℕ) × (backoff c policy attempt ≡ pos d)
      × (min_ℕ (2 ^ attempt * initial) limit ≤ d)
      × (d ≤ 2 * min_ℕ (2 ^ attempt * initial) limit)
      × (d ≤ limit)
unfolding backoff
backoff-bounds c policy attempt initial limit fair ei em pi pm hi hm =
    let (g, e, h, l, m) = grow_lem attempt initial limit hm hi in
    rw (ei, em, e, ← doubled-pow attempt initial, ← m)
      (elim (Bool-cases (leb limit g)) [
        | inl full ↦ (limit, ground arith, ground arith, ground arith, ground arith)
        | inr room ↦
            let (j, ej, hj) = jitter c fair g (ground arith) in
            elim (Bool-cases (leb (limit - g) j)) [
              | inl over ↦ (
                limit,
                ground (arith, sub64-pos limit g),
                ground arith,
                ground arith,
                ground arith,
              )
              | inr under ↦ (
                g + j,
                ground (arith, sub64-pos limit g, add64-pos g j),
                ground arith,
                ground arith,
                ground arith,
              )
            ]
      ])
