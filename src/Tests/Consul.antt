-- ===== src/Tests/Consul.antt =====
-- A Consul server with two keys.
use http_governance_client.Common.{
  ℕ, ◌≡◌, refl, arith, pos, if◌then◌else◌, inl, inr, [], Bool-cases, ltb, ok, err, false,
}
use http_governance_client.Common.Text.{Text, codes, text_eq, trim_space}
use http_governance_client.Common.Number.{format_int}
use http_governance_client.Config.Store.Consul.{
  ConsulRetryConfigStore, ConsulResponse, request_url, consul_store, consul_get_with_index,
  resolve_consul_endpoint, replace_profile, trim_right_slash,
}
use http_governance_client.Common.Text.{has_prefix, contains, trim_left, trim_right}
use http_governance_client.Config.Store.{StoreError, is_retry_config_path_not_found}
use http_governance_client.Config.Store.Consul.Replies.{
  Reply, missing, present, failing, Replies, consul_store-Tells,
}
use http_governance_client.Tests.Store.{common_path, shop_path}

abbrev found : ℕ → ConsulResponse
found i = record { status_code = pos 200; consul_index = format_int (pos i); body = ok (codes "x") }

abbrev absent : ConsulResponse
absent = record { status_code = pos 404; consul_index = []; body = ok [] }

abbrev broken : ConsulResponse
broken = record { status_code = pos 500; consul_index = []; body = ok (codes "no leader") }

-- The address of a key is the key.
abbrev server : ConsulRetryConfigStore
server = record {
  join_consul_kv_url = λ path. ok path;
  with_consul_blocking_query = λ url index wait. ok url;
  quote = λ path. path;
  do_get = λ url. ok (
      if text_eq common_path url
      then found 3
      else if text_eq shop_path url
      then broken
      else absent);
}

abbrev replies : Text → Reply
replies path =
    if text_eq common_path path
    then present 2 (codes "x")
    else if text_eq shop_path path
    then failing (pos 500)
    else missing

address : (path : Text) (index : ℕ) → request_url server path index (pos 0) ≡ ok path
address path index = elim (Bool-cases (ltb 0 index)) [ inl e ↦ rw e refl | inr e ↦ rw e refl ]

server-Replies : Replies server (pos 0) replies
server-Replies path index = elim (Bool-cases (text_eq common_path path)) [
  | inl e ↦ (path, found 3, address path index, rw e refl, rw e (omega arith, refl, refl, refl))
  | inr e ↦ elim (Bool-cases (text_eq shop_path path)) [
    | inl f ↦ (
      path,
      broken,
      address path index,
      rw (e, f) refl,
      rw (e, f) (refl, ground arith, inr (omega arith)),
    )
    | inr f ↦ (path, absent, address path index, rw (e, f) refl, rw (e, f) refl)
  ]
]

consul_example :
    (e : StoreError) × (consul_get_with_index server (pos 0) shop_path 0 ≡ err e)
    × (is_retry_config_path_not_found (consul_store server) shop_path e ≡ false)
unfolding text_eq
consul_example = consul_store-Tells server (pos 0) replies shop_path 0 server-Replies

endpoint_test :
    resolve_consul_endpoint (codes "dev") (codes " consul-${profile}:8500/ ")
    ≡ codes "http://consul-dev:8500"
unfolding resolve_consul_endpoint replace_profile trim_right_slash has_prefix contains trim_space
    trim_left trim_right
endpoint_test = refl
