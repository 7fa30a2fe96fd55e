-- ===== src/Config/Merge/Fresh.antt =====
-- retry_consul.go: the items that a merge keeps have names of their own.
use http_governance_client.Common.{
  ◌≡◌, true, false, ◌⊎◌, inl, inr, List, [], ◌∷◌, ◌++◌, any, All, is_empty, Bool-cases,
}
use http_governance_client.Common.Text.{Text, text_eq}
use http_governance_client.Config.Merge.{unseen_items}

module _ {A : Type 0} (key : A → Text) where
  -- No two items have the same key, nor one that is seen; items without a key may be many.
  abbrev pub Fresh : List Text → List A → Type 0
  Fresh seen [] = Unit
  Fresh seen (a ∷ items) =
      ((is_empty (key a) ≡ true) × Fresh seen items)
      ⊎ ((is_empty (key a) ≡ false)
          × (any (text_eq (key a)) seen ≡ false)
          × Fresh (key a ∷ seen) items)

  pub unseen_items-Fresh :
      (seen : List Text) (items : List A) → Fresh seen (unseen_items key seen items)
  unfolding unseen_items
  unseen_items-Fresh seen [] = tt
  unseen_items-Fresh seen (a ∷ items) = elim (Bool-cases (is_empty (key a))) [
    | inl e ↦ rw e (inl (e, unseen_items-Fresh seen items))
    | inr e ↦ elim (Bool-cases (any (text_eq (key a)) seen)) [
      | inl old ↦ rw (e, old) (unseen_items-Fresh seen items)
      | inr new ↦ rw (e, new) (inr (e, new, unseen_items-Fresh (key a ∷ seen) items))
    ]
  ]

  -- A merge keeps what holds of every item of both lists.
  pub All-unseen_items :
      (P : A → Type 0) (seen : List Text) (xs ys : List A)
      → All P xs
      → All P ys
      → All P (unseen_items key seen (xs ++ ys))
  unfolding unseen_items
  All-unseen_items P seen [] [] h k = tt
  All-unseen_items P seen [] (y ∷ ys) h k = elim (Bool-cases (is_empty (key y))) [
    | inl e ↦ rw e (k.0, All-unseen_items P seen [] ys tt k.1)
    | inr e ↦ elim (Bool-cases (any (text_eq (key y)) seen)) [
      | inl old ↦ rw (e, old) (All-unseen_items P seen [] ys tt k.1)
      | inr new ↦ rw (e, new) (k.0, All-unseen_items P (key y ∷ seen) [] ys tt k.1)
    ]
  ]
  All-unseen_items P seen (x ∷ xs) ys h k = elim (Bool-cases (is_empty (key x))) [
    | inl e ↦ rw e (h.0, All-unseen_items P seen xs ys h.1 k)
    | inr e ↦ elim (Bool-cases (any (text_eq (key x)) seen)) [
      | inl old ↦ rw (e, old) (All-unseen_items P seen xs ys h.1 k)
      | inr new ↦ rw (e, new) (h.0, All-unseen_items P (key x ∷ seen) xs ys h.1 k)
    ]
  ]
