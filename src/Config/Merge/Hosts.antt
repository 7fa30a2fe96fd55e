-- ===== src/Config/Merge/Hosts.antt =====
-- retry_consul.go and retry_config_file.go: the internal hosts and the version of merged files.
use http_governance_client.Common.{
  ◌≡◌, refl, true, ◌||◌, arith, ◌⊎◌, inl, inr, List, [], ◌∷◌, ◌++◌, any, All, is_empty, Bool-cases,
  IsOk,
}
use http_governance_client.Common.Text.{Text, text_eq, trim_space, trim_space_idem}
use http_governance_client.Config.Match.{PathMatch}
use http_governance_client.Config.Patches.{is_some}
use http_governance_client.Config.File.{PatternField}
use http_governance_client.Config.Compile.{
  normalize_patterns, validate_glob_patterns, validate_config_version,
}
use http_governance_client.Config.Merge.{unseen_texts, first_non_blank}

module _ (glob : PathMatch) (field : PatternField) where
  -- A text that is blank, or a pattern that path.Match takes.
  abbrev pub IsHost : Text → Type 0
  IsHost h = (is_empty (trim_space h) ≡ true) ⊎ (is_some (glob (trim_space h) []) ≡ true)

  pub validate_glob_patterns-IsHost :
      (hs : List Text)
      → IsOk (validate_glob_patterns glob field (normalize_patterns hs))
      → All IsHost hs
  unfolding validate_glob_patterns normalize_patterns
  validate_glob_patterns-IsHost [] h = tt
  validate_glob_patterns-IsHost (x ∷ hs) h = elim (Bool-cases (is_empty (trim_space x))) [
    | inl e ↦ (inl e, validate_glob_patterns-IsHost hs (rw e at h))
    | inr e ↦ elim (Bool-cases (is_some (glob (trim_space x) []))) [
      | inl g ↦ (inr g, validate_glob_patterns-IsHost hs (rw (e, g) at h))
      | inr g ↦ absurd (ground arith)
    ]
  ]

  pub IsHost-validate_glob_patterns :
      (hs : List Text)
      → All IsHost hs
      → IsOk (validate_glob_patterns glob field (normalize_patterns hs))
  unfolding validate_glob_patterns normalize_patterns
  IsHost-validate_glob_patterns [] h = (tt, refl)
  IsHost-validate_glob_patterns (x ∷ hs) h = elim (Bool-cases (is_empty (trim_space x))) [
    | inl e ↦ rw e (IsHost-validate_glob_patterns hs h.1)
    | inr e ↦ elim h.0 [
      | inl blank ↦ absurd (cc)
      | inr g ↦ rw (e, g) (IsHost-validate_glob_patterns hs h.1)
    ]
  ]

  IsHost-trim_space : (h : Text) → IsHost h → IsHost (trim_space h)
  IsHost-trim_space h k = rw (trim_space_idem h) k

  -- The hosts of a merge are those of both lists, trimmed.
  pub All-unseen_texts :
      (seen xs ys : List Text)
      → All IsHost xs
      → All IsHost ys
      → All IsHost (unseen_texts seen (xs ++ ys))
  unfolding unseen_texts
  All-unseen_texts seen [] [] h k = tt
  All-unseen_texts seen [] (y ∷ ys) h k =
      elim (Bool-cases (is_empty (trim_space y) || any (text_eq (trim_space y)) seen)) [
        | inl e ↦ rw e (All-unseen_texts seen [] ys tt k.1)
        | inr e ↦
            rw e (IsHost-trim_space y k.0, All-unseen_texts (trim_space y ∷ seen) [] ys tt k.1)
      ]
  All-unseen_texts seen (x ∷ xs) ys h k =
      elim (Bool-cases (is_empty (trim_space x) || any (text_eq (trim_space x)) seen)) [
        | inl e ↦ rw e (All-unseen_texts seen xs ys h.1 k)
        | inr e ↦ rw e (IsHost-trim_space x h.0, All-unseen_texts (trim_space x ∷ seen) xs ys h.1 k)
      ]

trimmed :
    (v : Text) → IsOk (validate_config_version v) → IsOk (validate_config_version (trim_space v))
unfolding validate_config_version
trimmed v h = rw (trim_space_idem v) h

blank : IsOk (validate_config_version [])
unfolding validate_config_version trim_space
blank = (tt, refl)

pub first_non_blank-version :
    (v w : Text)
    → IsOk (validate_config_version v)
    → IsOk (validate_config_version w)
    → IsOk (validate_config_version (first_non_blank (v ∷ w ∷ [])))
unfolding first_non_blank
first_non_blank-version v w h k = elim (Bool-cases (is_empty (trim_space v))) [
  | inr e ↦ rw e (trimmed v h)
  | inl e ↦ elim (Bool-cases (is_empty (trim_space w))) [
    | inr g ↦ rw (e, g) (trimmed w k)
    | inl g ↦ rw (e, g) blank
  ]
]
