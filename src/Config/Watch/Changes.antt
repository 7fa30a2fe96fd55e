-- ===== src/Config/Watch/Changes.antt =====
-- retry_consul.go: what the watch reports of a store whose paths have versions.
use http_governance_client.Common.{
  ℕ, suc, ◌≡◌, refl, ap, ◌∙◌, Bool, true, false, not, Option, none, some, arith, ◌⊎◌, inl, inr,
  List, [], ◌∷◌, any, All, Bool-cases, ◌==◌, Result, ok, err,
}
use http_governance_client.Common.Text.{Text, text_eq, text_eq_refl, text_eq_sound}
use http_governance_client.Config.Merge.{retry_config_lookup_paths}
use http_governance_client.Config.Store.{
  RetryConfigStore, StoreError, is_retry_config_path_not_found,
}
use http_governance_client.Config.Watch.{
  RetryConfigWatchState, States, GetWithIndex, unseen, missing_state, found_state, with_state,
  wait_for_paths, wait_for_retry_config_change, observe,
}

-- The versions of a store at one time: the index of a path that is there.
abbrev pub Versions : Type 0
Versions = Text → Option ℕ

-- What a store of these versions answers: the index of a path that is there, which is not 0, or an
-- error that says that the path is not found.
abbrev pub Answers : RetryConfigStore → GetWithIndex → Versions → Type 0
Answers store get_with_index versions =
    (path : Text) (index : ℕ)
    → ((e : StoreError) × (versions path ≡ none)
        × (get_with_index path index ≡ err e)
        × (is_retry_config_path_not_found store path e ≡ true))
      ⊎ ((contents : Text) × (i : ℕ) × (versions path ≡ some (suc i))
          × (get_with_index path index ≡ ok (contents, suc i)))

abbrev pub state_of : Option ℕ → RetryConfigWatchState
state_of none = missing_state
state_of (some i) = found_state i

-- The watch knows these versions of the paths.
abbrev pub Knows : States → Versions → Text → Type 0
Knows states versions path = states path ≡ state_of (versions path)

pub record AreKnown (states : States) (versions : Versions) (paths : List Text) : Type 0 where
  pub each : All (Knows states versions) paths

with_state-here :
    (path : Text) (s : RetryConfigWatchState) (states : States) → with_state path s states path ≡ s
with_state-here path s states = rw (text_eq_refl path) refl

-- Whether a path has the version it had.
abbrev pub same_version : Option ℕ → Option ℕ → Bool
same_version none none = true
same_version none (some j) = false
same_version (some i) none = false
same_version (some i) (some j) = j == i

same_version_sound : (a b : Option ℕ) → same_version a b ≡ true → a ≡ b
same_version_sound none none h = refl
same_version_sound none (some j) h = absurd (cc)
same_version_sound (some i) none h = absurd (cc)
same_version_sound (some i) (some j) h = ap some (ground arith)

same_version_refl : (a : Option ℕ) → same_version a a ≡ true
same_version_refl none = refl
same_version_refl (some i) = ground arith

-- Setting a path to what is known of it keeps what is known of any path.
Knows-with_state :
    (versions : Versions) (states : States) (path other : Text)
    → Knows states versions other
    → Knows (with_state path (state_of (versions path)) states) versions other
Knows-with_state versions states path other k = elim (Bool-cases (text_eq path other)) [
  | inr e ↦ rw e k
  | inl e ↦ rw (e, text_eq_sound path other e) refl
]

All_map_lem :
    {P Q : Text → Type 0} (xs : List Text) → ((x : Text) → P x → Q x) → All P xs → All Q xs
All_map_lem [] f h = tt
All_map_lem (x ∷ xs) f h = (f x h.0, All_map_lem xs f h.1)

module _ (store : RetryConfigStore) (g : GetWithIndex) (versions : Versions)
    (h : Answers store g versions) where
  observed : States → Text → Result StoreError (RetryConfigWatchState × Bool)
  unfolding observe is_retry_config_path_not_found
  observed states path =
      observe (is_retry_config_path_not_found store path) (states path) (g path (states path).index)

  observed-unseen :
      (states : States) (path : Text)
      → states path ≡ unseen path
      → observed states path ≡ ok (state_of (versions path), false)
  unfolding observed observe
  observed-unseen states path k = elim (h path 0) [
    | inl (e, absent, answer, missing) ↦ rw (k, answer, missing, absent) refl
    | inr (contents, i, there, answer) ↦ rw (k, answer, there) refl
  ]

  observed-Knows :
      (states : States) (path : Text) (old : Option ℕ)
      → states path ≡ state_of old
      → observed states path ≡ ok (state_of (versions path), not (same_version old (versions path)))
  unfolding observed observe
  observed-Knows states path none k = elim (h path 0) [
    | inl (e, absent, answer, missing) ↦ rw (k, answer, missing, absent) refl
    | inr (contents, i, there, answer) ↦ rw (k, answer, there) refl
  ]
  observed-Knows states path (some i) k = elim (h path i) [
    | inl (e, absent, answer, missing) ↦ rw (k, answer, missing, absent) refl
    | inr (contents, j, there, answer) ↦
        let positive : (suc j == 0) ≡ false = ground arith in rw (k, answer, there, positive) refl
  ]

  -- A path that is not seen yet is known afterwards, and the others as before.
  with_state-unseen :
      (states : States) (path other : Text)
      → (states other ≡ unseen other) ⊎ Knows states versions other
      → (with_state path (state_of (versions path)) states other ≡ unseen other)
        ⊎ Knows (with_state path (state_of (versions path)) states) versions other
  with_state-unseen states path other k = elim (Bool-cases (text_eq path other)) [
    | inr e ↦ rw e k
    | inl e ↦ inr (rw (e, text_eq_sound path other e) refl)
  ]

  observed-quiet :
      (states : States) (path : Text)
      → (states path ≡ unseen path) ⊎ Knows states versions path
      → observed states path ≡ ok (state_of (versions path), false)
  observed-quiet states path (inl e) = observed-unseen states path e
  observed-quiet states path (inr e) =
      rw (observed-Knows states path (versions path) e, same_version_refl (versions path)) refl

  quiet_step :
      (states : States) (path : Text) (paths : List Text) (s : RetryConfigWatchState)
      → observed states path ≡ ok (s, false)
      → wait_for_paths store g states (path ∷ paths)
        ≡ wait_for_paths store g (with_state path s states) paths
  unfolding wait_for_paths observed
  quiet_step states path paths s e = rw e refl

  change_step :
      (states : States) (path : Text) (paths : List Text) (s : RetryConfigWatchState)
      → observed states path ≡ ok (s, true)
      → (wait_for_paths store g states (path ∷ paths)).1 ≡ ok true
  unfolding wait_for_paths observed
  change_step states path paths s e = rw e refl

  -- A pass over paths that it does not know, or knows as they are, reports nothing.
  wait_for_paths-unseen :
      (states : States) (paths : List Text)
      → ((path : Text) → (states path ≡ unseen path) ⊎ Knows states versions path)
      → ((wait_for_paths store g states paths).1 ≡ ok false)
        × ((path : Text)
            → Knows states versions path
            → Knows (wait_for_paths store g states paths).0 versions path)
        × AreKnown (wait_for_paths store g states paths).0 versions paths
  unfolding wait_for_paths
  wait_for_paths-unseen states [] k = (refl, λ path e. e, record { each = tt })
  wait_for_paths-unseen states (path ∷ paths) k =
      let states' = with_state path (state_of (versions path)) states in
      let (quiet, kept, known) =
        wait_for_paths-unseen states' paths (λ p. with_state-unseen states path p (k p)) in
      rw
        (quiet_step states path paths (state_of (versions path))
          (observed-quiet states path (k path)))
        (
          quiet,
          (λ p e. kept p (Knows-with_state versions states path p e)),
          record {
            each = (kept path (with_state-here path (state_of (versions path)) states), known.each);
          },
        )

  -- What a pass over known paths has reported, and what it knows then if that is nothing.
  abbrev Reports : States → Versions → List Text → Type 0
  Reports states old paths =
      ((wait_for_paths store g states paths).1
        ≡ ok (any (λ p. not (same_version (old p) (versions p))) paths))
      × ((wait_for_paths store g states paths).1 ≡ ok false
          → ((path : Text)
              → Knows states versions path
              → Knows (wait_for_paths store g states paths).0 versions path)
            × AreKnown (wait_for_paths store g states paths).0 versions paths)

  wait_for_paths-Knows :
      (states : States) (old : Versions) (paths : List Text)
      → All (Knows states old) paths
      → Reports states old paths
  unfolding wait_for_paths
  wait_for_paths-Knows states old [] k = (refl, λ e. (λ path e. e, record { each = tt }))
  wait_for_paths-Knows states old (path ∷ paths) k =
      elim (Bool-cases (same_version (old path) (versions path))) [
        | inr e ↦
            let change =
              change_step states path paths (state_of (versions path))
                (observed-Knows states path (old path) k.0 ∙ rw e refl) in
            (change ∙ rw e refl, λ x. absurd (cc))
        | inl e ↦
            let states' = with_state path (state_of (versions path)) states in
            let known : All (Knows states' old) paths =
              All_map_lem paths
                (λ p q.
                  rw (← same_version_sound (old path) (versions path) e)
                    (Knows-with_state old states path p q))
                k.1 in
            let (reported, later) = wait_for_paths-Knows states' old paths known in
            rw
              (
                quiet_step states path paths (state_of (versions path))
                    (observed-Knows states path (old path) k.0 ∙ rw e refl),
                e,
              )
              (
                reported,
                λ x. (
                  (λ p q. (later x).0 p (Knows-with_state versions states path p q)),
                  record {
                    each = (
                      (later x).0 path (with_state-here path (state_of (versions path)) states),
                      (later x).1.each,
                    );
                  },
                ),
              )
      ]

-- Where each answer of the store gives the version of a path or says that it is missing, the first
-- pass of the watch reports no change, whatever the versions are, and knows them then: a change
-- between the load of the configuration and this pass goes unnoticed.
pub wait-first_pass :
    (store : RetryConfigStore) (g : GetWithIndex) (versions : Versions) (app_name : Text)
    → Answers store g versions
    → ((wait_for_retry_config_change store g app_name unseen).1 ≡ ok false)
      × AreKnown
          (wait_for_retry_config_change store g app_name unseen).0
          versions
          (retry_config_lookup_paths app_name)
unfolding wait_for_retry_config_change
wait-first_pass store g versions app_name h =
    let (quiet, kept, known) =
      wait_for_paths-unseen store g versions h unseen (retry_config_lookup_paths app_name)
        (λ path. inl refl) in
    (quiet, known)

-- Where each answer of the store gives the version of a path or says that it is missing, a pass of
-- the watch that knows earlier versions of both paths reports a change exactly where one of them
-- has another version, has come or has gone, and where it reports none it knows the new ones.
pub wait-reports :
    (store : RetryConfigStore) (g : GetWithIndex) (old versions : Versions) (states : States)
    (app_name : Text)
    → Answers store g versions
    → AreKnown states old (retry_config_lookup_paths app_name)
    → ((wait_for_retry_config_change store g app_name states).1
        ≡ ok (
            any
              (λ p. not (same_version (old p) (versions p)))
              (retry_config_lookup_paths app_name)))
      × ((wait_for_retry_config_change store g app_name states).1 ≡ ok false
          → AreKnown
              (wait_for_retry_config_change store g app_name states).0
              versions
              (retry_config_lookup_paths app_name))
unfolding wait_for_retry_config_change
wait-reports store g old versions states app_name h known =
    let (reported, later) =
      wait_for_paths-Knows store g versions h states old (retry_config_lookup_paths app_name)
        known.each in
    (reported, λ e. (later e).1)
