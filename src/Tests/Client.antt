-- ===== src/Tests/Client.antt =====
-- The shared client, its arguments and its helpers.
use http_governance_client.Common.{
  negsuc, ◌≡◌, refl, true, false, none, some, arith, pos, if◌then◌else◌, ◌⊎◌, [], is_empty, ok, err,
}
use http_governance_client.Common.Text.{codes, trim_space}
use http_governance_client.Config.Provider.{new_managed_retry_config_provider}
use http_governance_client.Client.{Client, no_resolver}
use http_governance_client.Client.Args.{SetupOptions, parse_setup_args}
use http_governance_client.Client.Args.Laws.{
  print_setup_options, parse_setup_args-print_setup_options,
}
use http_governance_client.Client.Setup.{NewStore, setup_with_options, named}
use http_governance_client.Client.Shared.{IsSingle, IsConfigured, setup_with_options-cases}
use http_governance_client.Client.Sending.{Expected, pointer, Library}
use http_governance_client.Client.Sending.Helpers.{
  no_setter, legacy_request_header_setter, is_nil_authorization_setter, post, put, delete, get_,
  internal_post, internal_put, internal_delete, internal_get,
}
use http_governance_client.Client.Sending.Closes.{
  Call, post_call, run_call, IsOnce, run_call-IsOnce, internal_nil_setter,
}
use http_governance_client.Transport.Capture.{Stream, IsTransparent, capture_body-IsTransparent}
use http_governance_client.Tests.Policy.{same_text, empty_header}
use http_governance_client.Tests.Config.{parse}
use http_governance_client.Tests.Store.{decode, store, shop}

abbrev options : SetupOptions
options = record { env = codes "dev"; name = shop; consul = codes "consul:8500" }

parse_setup_args_example : parse_setup_args (print_setup_options options) ≡ options
unfolding trim_space
parse_setup_args_example = parse_setup_args-print_setup_options options refl refl refl

abbrev new_store : NewStore
new_store env endpoint = if is_empty endpoint then err (codes "consul endpoint empty") else ok store

abbrev fresh : Client
fresh = record {
  heap = λ _. new_managed_retry_config_provider;
  next = 0;
  transport = none;
  class_resolver = no_resolver;
  caller_service_name = [];
  body_log_level = negsuc 3;
  body_log_limit = pos 65536;
  auto_reload_interval = pos 30;
  auto_reload = none;
  watchers = [];
}

setup_example :
    IsSingle (setup_with_options new_store decode parse same_text options fresh).0
    × (((is_empty options.consul ≡ true)
          × (setup_with_options new_store decode parse same_text options fresh
              ≡ (named options.name fresh, none)))
        ⊎ IsConfigured new_store decode parse same_text options.env options.name options.consul
            (named options.name fresh)
            (setup_with_options new_store decode parse same_text options fresh))
setup_example = setup_with_options-cases new_store decode parse same_text options fresh refl

abbrev library : Library
library = record {
  send = λ req.
      ok (record { status_code = pos 200; header = empty_header; body = some (ok (codes "{}")) });
  bad_request = λ method url. none;
  decoders = record { unmarshal_proto = λ s. none; unmarshal_json = λ s. none };
}

abbrev into : Expected
into = pointer (record { is_proto = false })

abbrev call : Call
call = post_call (codes "http://shop") (codes "application/json") (some (ok (codes "{}"))) none

call_example : IsOnce library into (run_call library into call)
call_example = run_call-IsOnce library into call

nil_setter_example :
    (internal_post library [] [] none into no_setter ≡ post library [] [] none into)
    × (internal_put library [] [] none into no_setter ≡ put library [] [] none into)
    × (internal_delete library [] [] none into no_setter ≡ delete library [] [] none into)
    × (internal_get library [] into (legacy_request_header_setter no_setter) ≡ get_ library [] into)
unfolding is_nil_authorization_setter
nil_setter_example = internal_nil_setter library [] [] none into no_setter refl

abbrev long_body : Stream
long_body = record { bytes = codes "abcdef"; ending = some (codes "reset") }

capture_example : IsTransparent 4 long_body
capture_example = capture_body-IsTransparent 4 long_body (omega arith)
