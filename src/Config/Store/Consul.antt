-- ===== src/Config/Store/Consul.antt =====
-- retry_consul.go: the store in Consul. The addresses of net/url, the requests and the quoting of fmt are
-- parameters; what the store makes of an answer is modelled.
pub mod Replies
use http_governance_client.Common.{
  ℕ, suc, ◌-◌, ◌/◌, ◌^◌, ◌<◌, ◌≡◌, refl, ap, ◌∙◌, true, ◌&&◌, ◌||◌, Option, none, some, arith, ℤ,
  pos, pos_part, add64, leb_ℤ, ltb_ℤ, eqb_ℤ, if◌then◌else◌, ◌⊎◌, inl, inr, [], ◌∷◌, ◌++◌, is_empty,
  ltb, ◌==◌, Result, ok, err, ◌>>=◌, ◌>>◌, fail_if,
}
use http_governance_client.Common.Text.{Text, codes, trim_space}
use http_governance_client.Common.Number.{format_int, trim_space-format_int}
use http_governance_client.Common.Text.{contains, has_prefix}
use http_governance_client.Common.Number.{parse_ℕ, digits, parse_ℕ-digits}
use http_governance_client.Config.Store.{
  RetryConfigStore, StoreError, is_retry_config_path_not_found,
}
use http_governance_client.Config.Store.Messages.{contains_refl}
use http_governance_client.Config.Watch.{GetWithIndex}
use http_governance_client.Config.Watch.Changes.{Versions, Answers}

-- A response: its status, the header X-Consul-Index, and what io.ReadAll makes of its body.
pub record ConsulResponse : Type 0 where
  pub status_code : ℤ
  pub consul_index : Text
  pub body : Result StoreError Text

-- joinConsulKVURL on the address of the store, withConsulBlockingQuery, `%q`, and Do of the client on
-- a GET of an address.
pub record ConsulRetryConfigStore : Type 0 where
  pub join_consul_kv_url : Text → Result StoreError Text
  pub with_consul_blocking_query : Text → ℕ → ℤ → Result StoreError Text
  pub quote : Text → Text
  pub do_get : Text → Result StoreError ConsulResponse

abbrev uint64_or_zero : Option ℕ → ℕ
uint64_or_zero none = 0
uint64_or_zero (some n) = if ltb n (2 ^ 64) then n else 0

unfoldable pub parse_consul_index : Text → ℕ
unfolding trim_space parse_ℕ
parse_consul_index value = uint64_or_zero (parse_ℕ (trim_space value))

unfoldable pub format_consul_wait_time : ℤ → Text
unfolding format_int
format_consul_wait_time wait =
    if leb_ℤ wait (pos 0)
    then []
    else if ltb_ℤ wait (pos 1_000_000_000)
    then codes "1s"
    else format_int (pos (pos_part wait / 1_000_000_000)) ++ codes "s"

unfoldable pub consul_store_http_timeout : ℤ → ℤ
consul_store_http_timeout interval =
    add64 (if leb_ℤ interval (pos 0) then pos 30_000_000_000 else interval) (pos 5_000_000_000)

-- strings.NewReplacer of one pair: `skip` counts what is left of a pattern that was replaced.
unfoldable pub replace_profile : Text → ℕ → Text → Text
unfolding has_prefix
replace_profile env skip [] = []
replace_profile env skip (c ∷ s) =
    let found = has_prefix (c ∷ s) (codes "${profile}") in
    let rest = replace_profile env (if ltb 0 skip then skip - 1 else if found then 9 else 0) s in
    if ltb 0 skip then rest else if found then env ++ rest else c ∷ rest

unfoldable pub trim_right_slash : Text → Text
trim_right_slash [] = []
trim_right_slash (c ∷ s) =
    let rest = trim_right_slash s in if (c == b'/') && is_empty rest then [] else c ∷ rest

abbrev with_scheme : Text → Text
with_scheme resolved =
    if is_empty resolved
    then []
    else if contains resolved (codes "://")
    then resolved
    else codes "http://" ++ resolved

unfoldable pub resolve_consul_endpoint : Text → Text → Text
unfolding trim_space replace_profile trim_right_slash contains
resolve_consul_endpoint env endpoint =
    with_scheme
      (trim_right_slash (trim_space (replace_profile (trim_space env) 0 (trim_space endpoint))))

abbrev not_found_message : Text → Text
not_found_message quoted = codes "consul key " ++ quoted ++ codes " not found"

abbrev body_only : Result StoreError (Text × ℕ) → Result StoreError Text
body_only (ok (body, index)) = ok body
body_only (err e) = err e

format_digits : (n : ℕ) → format_int (pos n) ≡ digits (suc n) n []
unfolding format_int
format_digits n = refl

-- The index that Consul writes is read back.
parse_consul_index-format_int : (n : ℕ) → n < 2 ^ 64 → parse_consul_index (format_int (pos n)) ≡ n
unfolding parse_consul_index
parse_consul_index-format_int n h =
    let fits : ltb n (2 ^ 64) ≡ true = ground arith in
    ap (λ t. uint64_or_zero (parse_ℕ t)) (trim_space-format_int (pos n) ∙ format_digits n)
    ∙ ap uint64_or_zero (parse_ℕ-digits n)
    ∙ rw fits refl

module _ (c : ConsulRetryConfigStore) where
  -- The address of a request.
  abbrev pub request_url : Text → ℕ → ℤ → Result StoreError Text
  request_url path index wait = do
    url ← c.join_consul_kv_url path
    if ltb 0 index || ltb_ℤ (pos 0) wait
        then c.with_consul_blocking_query url index wait
        else ok url

  unfoldable pub answered : Text → ConsulResponse → Result StoreError (Text × ℕ)
  unfolding parse_consul_index format_int
  answered path resp = do
    fail_if (eqb_ℤ resp.status_code (pos 404)) (not_found_message (c.quote path))
    fail_if (ltb_ℤ resp.status_code (pos 200) || leb_ℤ (pos 300) resp.status_code) (
        codes "consul key "
        ++ c.quote path
        ++ codes " returned status "
        ++ format_int resp.status_code)
    body ← resp.body
    ok (body, parse_consul_index resp.consul_index)

  unfoldable pub get_with_context : Text → ℕ → ℤ → Result StoreError (Text × ℕ)
  unfolding answered
  get_with_context path index wait = do
    url ← request_url path index wait
    resp ← c.do_get url
    answered path resp

  -- GetContext and Get, and NotFound.
  unfoldable pub consul_store : RetryConfigStore
  unfolding get_with_context contains
  consul_store = record {
    get = λ path. body_only (get_with_context path 0 (pos 0));
    not_found = some (λ path e. contains e (not_found_message (c.quote path)));
  }

  unfoldable pub consul_get_with_index : ℤ → GetWithIndex
  unfolding get_with_context
  consul_get_with_index wait path index = get_with_context path index wait

  answered_missing :
      (path : Text) (resp : ConsulResponse)
      → resp.status_code ≡ pos 404
      → answered path resp ≡ err (not_found_message (c.quote path))
  unfolding answered
  answered_missing path resp h = rw h refl

  answered_found :
      (path : Text) (resp : ConsulResponse) (contents : Text) (n : ℕ)
      → resp.status_code ≡ pos 200
      → resp.body ≡ ok contents
      → resp.consul_index ≡ format_int (pos n)
      → n < 2 ^ 64
      → answered path resp ≡ ok (contents, n)
  unfolding answered
  answered_found path resp contents n h k l m = rw (h, k, l, parse_consul_index-format_int n m) refl

  -- A Consul server with these versions: each request has an address, which is answered with 404 or
  -- with the index of the path, which is not 0, and a body.
  abbrev pub Serves : ℤ → Versions → Type 0
  Serves wait versions =
      (path : Text) (index : ℕ)
      → (url : Text) × (resp : ConsulResponse) × (request_url path index wait ≡ ok url)
        × (c.do_get url ≡ ok resp)
        × (((versions path ≡ none) × (resp.status_code ≡ pos 404))
            ⊎ ((i : ℕ) × (contents : Text) × (versions path ≡ some (suc i))
                × (suc i < 2 ^ 64)
                × (resp.status_code ≡ pos 200)
                × (resp.consul_index ≡ format_int (pos (suc i)))
                × (resp.body ≡ ok contents)))

  -- Where Consul answers each request with 404 or with the index of the key, which is not 0, and a
  -- body, the store answers the watch as a store of versions does.
  pub consul_store-Answers :
      (wait : ℤ) (versions : Versions)
      → Serves wait versions
      → Answers consul_store (consul_get_with_index wait) versions
  unfolding consul_get_with_index is_retry_config_path_not_found consul_store
  consul_store-Answers wait versions h path index =
      let (url, resp, address, got, answer) = h path index in
      elim answer [
        | inl (absent, missing) ↦ inl (
          not_found_message (c.quote path),
          absent,
          rw (address, got) (answered_missing path resp missing),
          contains_refl (not_found_message (c.quote path)),
        )
        | inr (i, contents, there, fits, fine, named, body) ↦ inr (
          contents,
          i,
          there,
          rw (address, got) (answered_found path resp contents (suc i) fine body named fits),
        )
      ]

-- The client for an address and a timeout is a parameter.
unfoldable pub new_consul_retry_config_store :
    (Text → ℤ → ConsulRetryConfigStore) → ℤ → Text → Text → Result StoreError RetryConfigStore
unfolding resolve_consul_endpoint consul_store_http_timeout consul_store
new_consul_retry_config_store connect interval env endpoint =
    let resolved = resolve_consul_endpoint env endpoint in
    if is_empty resolved
    then err (codes "consul endpoint empty")
    else ok (consul_store (connect resolved (consul_store_http_timeout interval)))
