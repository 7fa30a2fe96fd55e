-- ===== src/Tests/Store.antt =====
-- retry_consul.go on a store of two layers.
use http_governance_client.Common.{
  List, ℕ, ◌≡◌, ◌↔◌, refl, true, false, not, Option, none, some, pos, if◌then◌else◌, ◌⊎◌, inl, inr,
  [], ◌∷◌, any, Bool-cases, Result, ok, err, value_or,
}
use http_governance_client.Common.Text.{
  has_prefix, contains, Text, codes, text_eq, trim_space, to_lower,
}
use http_governance_client.Budget.Config.{to_config, validate_retry_budget_file_layer}
use http_governance_client.Config.Match.{specificity}
use http_governance_client.Config.Provider.{
  ManagedRetryConfigProvider, new_managed_retry_config_provider,
}
use http_governance_client.Config.Patches.{
  to_patch, empty, parse_positive_retry_duration, distinct_statuses,
}
use http_governance_client.Config.Order.{sort_stable}
use http_governance_client.Config.Compile.{
  validate_config_version, normalize_patterns, validate_glob_patterns, compile_downstreams,
  compile_operation_rules, operations_of, rules_of, compile_rule, compile_retry_config_match,
  classes_of, default_rule_name,
}
use http_governance_client.Config.Update.{
  load, compile_retry_config_file, class_patches_of, add_class_patch,
}
use http_governance_client.Config.File.{RetryConfigFile}
use http_governance_client.Config.Merge.{retry_config_lookup_paths, merge_retry_config_files}
use http_governance_client.Config.Store.{
  RetryConfigStore, StoreError, DecodeYaml, LoadError, not_loaded, is_retry_config_path_not_found,
  layer_of, read_layer, load_layers, load_retry_config_file_from_store, update_from_store,
  empty_file,
}
use http_governance_client.Config.Store.Reload.{update_from_store-cases}
use http_governance_client.Config.Store.Layered.{update_from_store-IsAbsent}
use http_governance_client.Config.Store.Yaml.{
  YamlDecoder, eof, new_managed_retry_config_provider_from_yaml, new_from_yaml-one_document,
}
use http_governance_client.Config.Watch.{States, GetWithIndex, unseen, wait_for_retry_config_change}
use http_governance_client.Config.Watch.Loop.{
  run_polling_loop, Turn, started, going_on, sleep_with_context,
  run_retry_config_blocking_reload_loop,
}
use http_governance_client.Config.Watch.Changes.{
  Versions, Answers, AreKnown, same_version, wait-first_pass, wait-reports,
}
use http_governance_client.Config.Watch.Origin.{FromStore, PollsEach, run-FromStore}
use http_governance_client.Config.Watch.Pending.{run-change_taken}
use http_governance_client.Tests.Policy.{same_text}
use http_governance_client.Tests.Config.{parse, config_file, for_orders}

abbrev pub common_path : Text
common_path = codes "config/go/application/retry"

abbrev pub shop_path : Text
shop_path = codes "config/go/shop/retry"

abbrev shop_file : RetryConfigFile
shop_file = record empty_file { rules = record for_orders { name = codes "READS" } ∷ [] }

-- A decoder of two files.
abbrev pub decode : DecodeYaml
decode contents =
    if text_eq contents (codes "common")
    then ok config_file
    else if text_eq contents (codes "shop")
    then ok shop_file
    else err (codes "bad yaml")

abbrev get : Text → Result StoreError Text
get path =
    if text_eq path common_path
    then ok (codes "common")
    else if text_eq path shop_path
    then ok (codes "shop")
    else err (codes "Not Found")

abbrev pub store : RetryConfigStore
store = record { get = get; not_found = none }

abbrev empty_store : RetryConfigStore
empty_store = record { get = λ _. err (codes "key Not Found"); not_found = none }

abbrev broken_store : RetryConfigStore
broken_store = record { get = λ _. err (codes "connection refused"); not_found = none }

merged : RetryConfigFile
unfolding load_retry_config_file_from_store
merged =
    value_or empty_file
      (load_retry_config_file_from_store decode parse same_text store (codes "shop"))

-- The rule of the application replaces the one with its name.
merged-load :
    load_retry_config_file_from_store decode parse same_text store (codes "shop") ≡ ok merged
unfolding merged load_retry_config_file_from_store load_layers read_layer layer_of
    retry_config_lookup_paths load compile_retry_config_file validate_retry_budget_file_layer
    to_config validate_config_version normalize_patterns validate_glob_patterns compile_downstreams
    compile_operation_rules operations_of class_patches_of add_class_patch to_patch
    parse_positive_retry_duration distinct_statuses rules_of compile_rule compile_retry_config_match
    classes_of empty specificity text_eq trim_space to_lower default_rule_name sort_stable
    merge_retry_config_files
merged-load = refl

update_from_store_example :
    ((x : LoadError) × (load_retry_config_file_from_store decode parse same_text store
          (codes "shop")
        ≡ err x)
      × (update_from_store decode parse same_text new_managed_retry_config_provider store
            (codes "shop")
          ≡ (new_managed_retry_config_provider, some (not_loaded x))))
    ⊎ ((file : RetryConfigFile) × (q : ManagedRetryConfigProvider)
        × (load_retry_config_file_from_store decode parse same_text store (codes "shop") ≡ ok file)
        × (load parse same_text file ≡ ok q)
        × (update_from_store decode parse same_text new_managed_retry_config_provider store
              (codes "shop")
            ≡ (q, none)))
update_from_store_example =
    update_from_store-cases decode parse same_text new_managed_retry_config_provider store
      (codes "shop")

absent_example :
    update_from_store decode parse same_text new_managed_retry_config_provider empty_store
      (codes "shop")
    ≡ (new_managed_retry_config_provider, none)
unfolding retry_config_lookup_paths trim_space is_retry_config_path_not_found contains has_prefix
    to_lower
absent_example =
    update_from_store-IsAbsent decode parse same_text new_managed_retry_config_provider empty_store
      (codes "shop")
      (inr (codes "key Not Found", refl, refl), (inr (codes "key Not Found", refl, refl), tt))

-- A stream of one document, the empty file.
abbrev decoder : YamlDecoder
decoder = record { decode_file = λ _. ok (empty_file, []); decode_any = λ _. err eof }

yaml_example :
    (new_managed_retry_config_provider_from_yaml decoder parse same_text (codes "{}")
      ≡ ok new_managed_retry_config_provider)
    ↔ ((file : RetryConfigFile) × (rest : Text) × (decoder.decode_file (codes "{}")
          ≡ ok (file, rest))
        × (decoder.decode_any rest ≡ err eof)
        × (load parse same_text file ≡ ok new_managed_retry_config_provider))
yaml_example =
    new_from_yaml-one_document decoder parse same_text (codes "{}")
      new_managed_retry_config_provider

-- The shop has no layer at first, and gets one.
abbrev before : Versions
before path = if text_eq common_path path then some 3 else none

abbrev pub after : Versions
after path =
    if text_eq common_path path then some 3 else if text_eq shop_path path then some 5 else none

abbrev answer_of : Option ℕ → Result StoreError (Text × ℕ)
answer_of none = err (codes "not found")
answer_of (some i) = ok (codes "x", i)

abbrev asked : Versions → GetWithIndex
asked versions path index = answer_of (versions path)

before-Answers : Answers store (asked before) before
unfolding is_retry_config_path_not_found contains has_prefix to_lower
before-Answers path index = elim (Bool-cases (text_eq common_path path)) [
  | inl e ↦ rw e (inr (codes "x", 2, refl, refl))
  | inr e ↦ rw e (inl (codes "not found", refl, refl, refl))
]

after-Answers : Answers store (asked after) after
unfolding is_retry_config_path_not_found contains has_prefix to_lower
after-Answers path index = elim (Bool-cases (text_eq common_path path)) [
  | inl e ↦ rw e (inr (codes "x", 2, refl, refl))
  | inr e ↦ elim (Bool-cases (text_eq shop_path path)) [
    | inl f ↦ rw (e, f) (inr (codes "x", 4, refl, refl))
    | inr f ↦ rw (e, f) (inl (codes "not found", refl, refl, refl))
  ]
]

abbrev pub shop : Text
shop = codes "shop"

first_pass_example :
    ((wait_for_retry_config_change store (asked before) shop unseen).1 ≡ ok false)
    × AreKnown
        (wait_for_retry_config_change store (asked before) shop unseen).0
        before
        (retry_config_lookup_paths shop)
first_pass_example = wait-first_pass store (asked before) before shop before-Answers

known : States
unfolding wait_for_retry_config_change
known = (wait_for_retry_config_change store (asked before) shop unseen).0

known-AreKnown : AreKnown known before (retry_config_lookup_paths shop)
unfolding known
known-AreKnown = (wait-first_pass store (asked before) before shop before-Answers).1

reports_example :
    ((wait_for_retry_config_change store (asked after) shop known).1
      ≡ ok (any (λ p. not (same_version (before p) (after p))) (retry_config_lookup_paths shop)))
    × ((wait_for_retry_config_change store (asked after) shop known).1 ≡ ok false
        → AreKnown
            (wait_for_retry_config_change store (asked after) shop known).0
            after
            (retry_config_lookup_paths shop))
reports_example =
    wait-reports store (asked after) before after known shop after-Answers known-AreKnown

abbrev turn_of : RetryConfigStore → Turn
turn_of s = record {
  store = s;
  get_with_index = asked after;
  cancelled = false;
  timer_fired = true;
}

abbrev turns : List Turn
turns = turn_of store ∷ turn_of broken_store ∷ turn_of store ∷ []

run-FromStore_example :
    FromStore decode parse same_text shop
      (pos 30)
      turns
      new_managed_retry_config_provider
      (run_retry_config_blocking_reload_loop decode parse same_text shop
        (pos 30)
        turns
        (started new_managed_retry_config_provider)).provider
    × FromStore decode parse same_text shop
        (pos 30)
        turns
        new_managed_retry_config_provider
        (run_polling_loop decode parse same_text shop
          (pos 30)
          turns
          (new_managed_retry_config_provider, true)).0
    × (((run_polling_loop decode parse same_text shop
            (pos 30)
            turns
            (new_managed_retry_config_provider, true)).1
          ≡ false)
        ⊎ PollsEach decode parse same_text shop
            (pos 30)
            turns
            new_managed_retry_config_provider
            (run_polling_loop decode parse same_text shop
              (pos 30)
              turns
              (new_managed_retry_config_provider, true)).0)
run-FromStore_example =
    run-FromStore decode parse same_text shop (pos 30) turns
      (started new_managed_retry_config_provider) new_managed_retry_config_provider

-- The change is noticed, then the store fails, then it answers.
change_taken_example :
    (q : ManagedRetryConfigProvider) × (load parse same_text merged ≡ ok q)
    × (run_retry_config_blocking_reload_loop decode parse same_text shop
          (pos 30)
          (turn_of store ∷ turn_of broken_store ∷ turn_of store ∷ [])
          (going_on new_managed_retry_config_provider known false)
        ≡ going_on q (wait_for_retry_config_change store (asked after) shop known).0 false)
unfolding retry_config_lookup_paths trim_space sleep_with_context load_retry_config_file_from_store
    load_layers read_layer is_retry_config_path_not_found contains has_prefix to_lower text_eq
change_taken_example =
    run-change_taken decode parse same_text shop (pos 30) new_managed_retry_config_provider known
      before after (turn_of store) (turn_of broken_store ∷ []) (turn_of store) merged known-AreKnown
      after-Answers refl ((refl, refl, _, refl), tt) merged-load
