-- ===== src/Config/Order.antt =====
-- retry_config_file.go: the stable sort of compiled rules by priority and specificity, as
-- sort.SliceStable makes it, and what it means for the first match.
use http_governance_client.Common.{
  not, ◌||◌, ◌&&◌, ℕ, ◌≡◌, refl, Bool, true, false, Option, none, some, arith, ℤ, ltb_ℤ, eqb_ℤ,
  if◌then◌else◌, inl, inr, List, [], ◌∷◌, All, Bool-cases, ltb,
}

module _ {A : Type 0} (priority : A → ℤ) (specificity : A → ℕ) where
  -- The order of the sort: a stands before b.
  unfoldable pub ranks_before : A → A → Bool
  ranks_before a b =
      if eqb_ℤ (priority a) (priority b)
      then ltb (specificity b) (specificity a)
      else ltb_ℤ (priority b) (priority a)

  -- An item goes before the later ones of its rank.
  unfoldable pub insert : A → List A → List A
  unfolding ranks_before
  insert a [] = a ∷ []
  insert a (b ∷ bs) = let rest = insert a bs in if ranks_before b a then b ∷ rest else a ∷ b ∷ bs

  unfoldable pub sort_stable : List A → List A
  unfolding insert
  sort_stable [] = []
  sort_stable (a ∷ items) = insert a (sort_stable items)

  not_before_trans :
      (a b c : A) → ranks_before a b ≡ false → ranks_before b c ≡ false → ranks_before a c ≡ false
  unfolding ranks_before
  not_before_trans a b c h k = ground arith

  -- No later item ranks before an earlier one.
  abbrev pub IsSorted : List A → Type 0
  IsSorted [] = Unit
  IsSorted (a ∷ items) = All (λ b. ranks_before b a ≡ false) items × IsSorted items

  All-trans :
      (a b : A) (items : List A)
      → ranks_before b a ≡ false
      → All (λ c. ranks_before c b ≡ false) items
      → All (λ c. ranks_before c a ≡ false) items
  All-trans a b [] h k = tt
  All-trans a b (c ∷ cs) h k = (not_before_trans c b a k.0 h, All-trans a b cs h k.1)

  All-insert : (P : A → Type 0) (a : A) (bs : List A) → P a → All P bs → All P (insert a bs)
  unfolding insert
  All-insert P a [] h k = (h, tt)
  All-insert P a (b ∷ bs) h k = elim (Bool-cases (ranks_before b a)) [
    | inl e ↦ rw e (k.0, All-insert P a bs h k.1)
    | inr e ↦ rw e (h, k)
  ]

  before-asym : (a b : A) → ranks_before a b ≡ true → ranks_before b a ≡ false
  unfolding ranks_before
  before-asym a b h = ground arith

  insert-IsSorted : (a : A) (bs : List A) → IsSorted bs → IsSorted (insert a bs)
  unfolding insert
  insert-IsSorted a [] h = (tt, tt)
  insert-IsSorted a (b ∷ bs) h = elim (Bool-cases (ranks_before b a)) [
    | inl e ↦ rw e (
      All-insert (λ c. ranks_before c b ≡ false) a bs (before-asym b a e) h.0,
      insert-IsSorted a bs h.1,
    )
    | inr e ↦ rw e ((e, All-trans a b bs e h.0), h)
  ]

  pub sort_stable-IsSorted : (items : List A) → IsSorted (sort_stable items)
  unfolding sort_stable
  sort_stable-IsSorted [] = tt
  sort_stable-IsSorted (a ∷ items) =
      insert-IsSorted a (sort_stable items) (sort_stable-IsSorted items)

  pub All-sort_stable : (P : A → Type 0) (items : List A) → All P items → All P (sort_stable items)
  unfolding sort_stable
  All-sort_stable P [] h = tt
  All-sort_stable P (a ∷ items) h =
      All-insert P a (sort_stable items) h.0 (All-sort_stable P items h.1)

  -- The first item that passes the test.
  unfoldable pub first_match : (A → Bool) → List A → Option A
  first_match test [] = none
  first_match test (a ∷ items) =
      let rest = first_match test items in if test a then some a else rest

  -- A higher priority, or the same and a higher specificity.
  unfoldable pub outranks : A → A → Bool
  outranks a b =
      ltb_ℤ (priority b) (priority a)
      || (not (ltb_ℤ (priority a) (priority b)) && ltb (specificity b) (specificity a))

  ranks_before-outranks : (a b : A) → outranks a b ≡ ranks_before a b
  unfolding ranks_before outranks
  ranks_before-outranks a b = ground arith

  -- The better of an item and a later one that there may be.
  abbrev pub better_of : A → Option A → Option A
  better_of a none = some a
  better_of a (some b) = if outranks b a then some b else some a

  -- The item of the highest rank that passes the test, of several the one that comes first: no
  -- sorting is needed to say which.
  unfoldable pub best_match : (A → Bool) → List A → Option A
  best_match test [] = none
  best_match test (a ∷ items) =
      let rest = best_match test items in if test a then better_of a rest else rest

  better_of-after :
      (test : A → Bool) (a : A) (bs : List A)
      → All (λ c. ranks_before c a ≡ false) bs
      → better_of a (first_match test bs) ≡ some a
  unfolding first_match
  better_of-after test a [] h = refl
  better_of-after test a (b ∷ bs) h = elim (Bool-cases (test b)) [
    | inl e ↦ rw (e, ranks_before-outranks b a, h.0) refl
    | inr e ↦ rw e (better_of-after test a bs h.1)
  ]

  first_match-insert :
      (test : A → Bool) (a : A) (bs : List A)
      → IsSorted bs
      → first_match test (insert a bs)
        ≡ (if test a then better_of a (first_match test bs) else first_match test bs)
  unfolding first_match insert
  first_match-insert test a [] h = refl
  first_match-insert test a (b ∷ bs) h = elim (Bool-cases (ranks_before b a)) [
    | inr e ↦ rw e (ground (arith, better_of-after test a (b ∷ bs) (e, All-trans a b bs e h.0)))
    | inl e ↦ rw e (ground (arith, e, ranks_before-outranks b a, first_match-insert test a bs h.1))
  ]

  pub first_match-sort_stable :
      (test : A → Bool) (items : List A)
      → first_match test (sort_stable items) ≡ best_match test items
  unfolding sort_stable best_match first_match
  first_match-sort_stable test [] = refl
  first_match-sort_stable test (a ∷ items) = rw (
    first_match-insert test a (sort_stable items) (sort_stable-IsSorted items),
    first_match-sort_stable test items,
  )
