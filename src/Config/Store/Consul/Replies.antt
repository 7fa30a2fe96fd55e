-- ===== src/Config/Store/Consul/Replies.antt =====
-- retry_consul.go: what the callers of the store in Consul are told of each reply of the server.
use http_governance_client.Common.{
  ℕ, suc, ◌^◌, ◌<◌, ◌≡◌, refl, ap, ◌∙◌, true, false, ◌||◌, arith, ℤ, pos, ◌<ℤ◌, ◌≤ℤ◌, leb_ℤ, ltb_ℤ,
  eqb_ℤ, ◌⊎◌, ◌≢◌, ◌++◌, Result, ok, err,
}
use http_governance_client.Common.Text.{Text, codes, contains}
use http_governance_client.Common.Number.{format_int}
use http_governance_client.Config.Store.{
  StoreError, RetryConfigStore, is_retry_config_path_not_found,
}
use http_governance_client.Config.Store.Messages.{
  contains_refl, append_assoc, contains-append, contains-status,
}
use http_governance_client.Config.Store.Consul.{
  ConsulResponse, ConsulRetryConfigStore, not_found_message, request_url, answered,
  answered_missing, answered_found, get_with_context, consul_store, consul_get_with_index,
}

-- What the server says of a key: it is missing, it is there with an index that is not 0 and its
-- contents, or the request fails with a status.
pub data Reply : Type 0 where
  missing : Reply
  present : ℕ → Text → Reply
  failing : ℤ → Reply

abbrev pub IsReply : Reply → ConsulResponse → Type 0
IsReply missing resp = resp.status_code ≡ pos 404
IsReply (present i contents) resp =
    (suc i < 2 ^ 64)
    × (resp.status_code ≡ pos 200)
    × (resp.consul_index ≡ format_int (pos (suc i)))
    × (resp.body ≡ ok contents)
IsReply (failing status) resp =
    (resp.status_code ≡ status) × (status ≢ pos 404) × ((status <ℤ pos 200) ⊎ (pos 300 ≤ℤ status))

-- What a caller that asks a store for a key is told: an error that says that the key is not found,
-- the contents and the index, or an error that does not say so.
abbrev pub Tells : RetryConfigStore → Text → Reply → Result StoreError (Text × ℕ) → Type 0
Tells store path missing r =
    (e : StoreError) × (r ≡ err e) × (is_retry_config_path_not_found store path e ≡ true)
Tells store path (present i contents) r = r ≡ ok (contents, suc i)
Tells store path (failing status) r =
    (e : StoreError) × (r ≡ err e) × (is_retry_config_path_not_found store path e ≡ false)

module _ (c : ConsulRetryConfigStore) where
  -- Every request for a key has an address, which is answered with the reply of the key.
  abbrev pub Replies : ℤ → (Text → Reply) → Type 0
  Replies wait replies =
      (path : Text) (index : ℕ)
      → (url : Text) × (resp : ConsulResponse) × (request_url c path index wait ≡ ok url)
        × (c.do_get url ≡ ok resp)
        × IsReply (replies path) resp

  abbrev status_message : Text → ℤ → Text
  status_message path status =
      codes "consul key " ++ c.quote path ++ codes " returned status " ++ format_int status

  answered_failing :
      (path : Text) (resp : ConsulResponse)
      → resp.status_code ≢ pos 404
      → (resp.status_code <ℤ pos 200) ⊎ (pos 300 ≤ℤ resp.status_code)
      → answered c path resp ≡ err (status_message path resp.status_code)
  unfolding answered
  answered_failing path resp other bad =
      let known : eqb_ℤ resp.status_code (pos 404) ≡ false = ground arith in
      let outside : (ltb_ℤ resp.status_code (pos 200) || leb_ℤ (pos 300) resp.status_code) ≡ true =
        ground arith in
      rw (known, outside) refl

  status-not_found :
      (path : Text) (status : ℤ)
      → contains (status_message path status) (not_found_message (c.quote path)) ≡ false
  status-not_found path status =
      let key : Text = codes "consul key " ++ c.quote path in
      ap (λ m. contains m (not_found_message (c.quote path)))
        (append_assoc key (codes " returned status ") (format_int status))
      ∙ contains-append key (codes " returned status " ++ format_int status) (codes " not found")
          (contains-status status)

  answered-Tells :
      (path : Text) (reply : Reply) (resp : ConsulResponse)
      → IsReply reply resp
      → Tells (consul_store c) path reply (answered c path resp)
  unfolding consul_store is_retry_config_path_not_found
  answered-Tells path missing resp h = (
    not_found_message (c.quote path),
    answered_missing c path resp h,
    contains_refl (not_found_message (c.quote path)),
  )
  answered-Tells path (present i contents) resp (fits, fine, named, body) =
      answered_found c path resp contents (suc i) fine body named fits
  answered-Tells path (failing status) resp (same, other, bad) = (
    status_message path resp.status_code,
    answered_failing path resp (rw same other) (rw same bad),
    status-not_found path resp.status_code,
  )

  -- Where every request to Consul is answered, with 404 for a key that is missing, with the contents
  -- and an index that is not 0 for one that is there, or with a status outside of 2xx: the watch
  -- gets the contents and the index of a key that is there, and the error of one that is missing
  -- says that it is not found, which that of any other status does not, whatever the key is called.
  pub consul_store-Tells :
      (wait : ℤ) (replies : Text → Reply) (path : Text) (index : ℕ)
      → Replies wait replies
      → Tells (consul_store c) path (replies path) (consul_get_with_index c wait path index)
  unfolding consul_get_with_index get_with_context
  consul_store-Tells wait replies path index h =
      let (url, resp, address, got, answer) = h path index in
      rw (address, got) (answered-Tells path (replies path) resp answer)
