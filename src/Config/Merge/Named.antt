-- ===== src/Config/Merge/Named.antt =====
-- retry_consul.go: which named items of two files stand.
use http_governance_client.Common.{
  ℕ, suc, ◌≤◌, Bool, ◌≡◌, refl, sym, ◌∙◌, false, Option, none, some, arith, if◌then◌else◌, inl, inr,
  List, [], ◌∷◌, ◌++◌, any, is_empty, Bool-cases,
}
use http_governance_client.Common.Text.{
  Text, text_eq, text_eq_refl, text_eq_sound, equal_fold, trim_space, to_lower,
}
use http_governance_client.Classify.{or_else}
use http_governance_client.Config.Merge.{unseen_items, name_key, merge_named_items}

-- Two names are the same up to case and outer spaces.
abbrev pub same_name : Text → Text → Bool
same_name n m = equal_fold (trim_space n) (trim_space m)

abbrev pub is_blank : Text → Bool
is_blank n = is_empty (trim_space n)

module _ {A : Type 0} where
  -- The first item that passes the test, how many do, and those that do.
  unfoldable pub first_where : (A → Bool) → List A → Option A
  first_where test [] = none
  first_where test (a ∷ items) =
      let rest = first_where test items in if test a then some a else rest

  unfoldable pub count_where : (A → Bool) → List A → ℕ
  count_where test [] = 0
  count_where test (a ∷ items) =
      let rest = count_where test items in if test a then suc rest else rest

  unfoldable pub all_where : (A → Bool) → List A → List A
  all_where test [] = []
  all_where test (a ∷ items) = let rest = all_where test items in if test a then a ∷ rest else rest

  first_where-append :
      (test : A → Bool) (xs ys : List A)
      → first_where test (xs ++ ys) ≡ or_else (first_where test xs) (first_where test ys)
  unfolding first_where
  first_where-append test [] ys = refl
  first_where-append test (x ∷ xs) ys = ground (arith, first_where-append test xs ys)

  all_where-append :
      (test : A → Bool) (xs ys : List A)
      → all_where test (xs ++ ys) ≡ all_where test xs ++ all_where test ys
  unfolding all_where
  all_where-append test [] ys = refl
  all_where-append test (x ∷ xs) ys = ground (arith, all_where-append test xs ys)

  all_where-same :
      (test test' : A → Bool) (items : List A)
      → ((a : A) → test a ≡ test' a)
      → all_where test items ≡ all_where test' items
  unfolding all_where
  all_where-same test test' [] h = refl
  all_where-same test test' (a ∷ items) h = rw (h a, all_where-same test test' items h) refl

  module _ (key : A → Text) where
    -- Items of other keys than those that are seen are found as before.
    first_where-unseen_items :
        (k : Text) (seen : List Text) (items : List A)
        → is_empty k ≡ false
        → first_where (λ a. text_eq k (key a)) (unseen_items key seen items)
          ≡ (if any (text_eq k) seen then none else first_where (λ a. text_eq k (key a)) items)
    unfolding first_where unseen_items
    first_where-unseen_items k seen [] h = ground arith
    first_where-unseen_items k seen (a ∷ items) h = elim (Bool-cases (text_eq k (key a))) [
      | inl e ↦
          let same = text_eq_sound k (key a) e in
          rw (← same, text_eq_refl k)
            (ground (arith, first_where-unseen_items k seen items h, text_eq_refl k))
      | inr e ↦ ground (
        arith,
        first_where-unseen_items k seen items h,
        first_where-unseen_items k (key a ∷ seen) items h,
      )
    ]

    -- A key that is not empty stays once at most, and not at all where it is seen.
    count_where-unseen_items :
        (k : Text) (seen : List Text) (items : List A)
        → is_empty k ≡ false
        → count_where (λ a. text_eq k (key a)) (unseen_items key seen items)
          ≤ (if any (text_eq k) seen then 0 else 1)
    unfolding count_where unseen_items
    count_where-unseen_items k seen [] h = ground arith
    count_where-unseen_items k seen (a ∷ items) h = elim (Bool-cases (text_eq k (key a))) [
      | inl e ↦
          let same = text_eq_sound k (key a) e in
          let bound = count_where-unseen_items k (k ∷ seen) items h in
          let later : count_where (λ b. text_eq k (key b)) (unseen_items key (k ∷ seen) items) ≤ 0 =
            rw (text_eq_refl k) at bound in
          rw (← same)
            (ground (arith, count_where-unseen_items k seen items h, later, text_eq_refl k))
      | inr e ↦ ground (
        arith,
        count_where-unseen_items k seen items h,
        count_where-unseen_items k (key a ∷ seen) items h,
      )
    ]

    -- Items without a key all stay.
    all_where-unseen_items :
        (seen : List Text) (items : List A)
        → all_where (λ a. is_empty (key a)) (unseen_items key seen items)
          ≡ all_where (λ a. is_empty (key a)) items
    unfolding all_where unseen_items
    all_where-unseen_items seen [] = refl
    all_where-unseen_items seen (a ∷ items) =
        ground
          (arith, all_where-unseen_items seen items, all_where-unseen_items (key a ∷ seen) items)

is_empty-to_lower : (s : Text) → is_empty (to_lower s) ≡ is_empty s
unfolding to_lower
is_empty-to_lower [] = refl
is_empty-to_lower (c ∷ s) = refl

-- Names are compared up to case and outer spaces. The merged list has, under a name that is not
-- blank, the first item of the overriding list, or the first of the base where the overriding list
-- has none, and no second item of this name; items whose name is blank all stay, in their order.
pub find_named-merge_named_items :
    {A : Type 0} (name : A → Text) (n : Text) (base o : List A)
    → is_blank n ≡ false
    → (first_where (λ a. same_name n (name a)) (merge_named_items name base o)
        ≡ or_else
            (first_where (λ a. same_name n (name a)) o)
            (first_where (λ a. same_name n (name a)) base))
      × (count_where (λ a. same_name n (name a)) (merge_named_items name base o) ≤ 1)
      × (all_where (λ a. is_blank (name a)) (merge_named_items name base o)
          ≡ all_where (λ a. is_blank (name a)) o ++ all_where (λ a. is_blank (name a)) base)
unfolding merge_named_items name_key equal_fold
find_named-merge_named_items {A} name n base o h =
    let key = λ (a : A). name_key (name a) in
    let there : is_empty (name_key n) ≡ false = is_empty-to_lower (trim_space n) ∙ h in
    (
      first_where-unseen_items key (name_key n) [] (o ++ base) there
          ∙ first_where-append (λ a. same_name n (name a)) o base,
      count_where-unseen_items key (name_key n) [] (o ++ base) there,
      all_where-same (λ a. is_blank (name a)) (λ a. is_empty (key a))
            (unseen_items key [] (o ++ base)) (λ a. sym (is_empty-to_lower (trim_space (name a))))
          ∙ all_where-unseen_items key [] (o ++ base)
          ∙ sym (
              all_where-same (λ a. is_blank (name a)) (λ a. is_empty (key a)) (o ++ base)
                (λ a. sym (is_empty-to_lower (trim_space (name a)))))
          ∙ all_where-append (λ a. is_blank (name a)) o base,
    )
