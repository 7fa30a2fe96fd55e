-- ===== src/Config/Store/Messages.antt =====
-- retry_consul.go: which error of the store in Consul contains which other.
use http_governance_client.Common.{
  ℕ, zero, suc, ◌+◌, ◌/◌, ◌%◌, ◌≡◌, refl, ap, true, false, ◌&&◌, ◌||◌, arith, ℤ, pos, negsuc, inl,
  inr, [], ◌∷◌, ◌++◌, Bool-cases, ◌==◌, Bool, leb,
}
use http_governance_client.Common.Text.{Text, codes, has_prefix, contains}
use http_governance_client.Common.Number.{format_int, digits}

pub has_prefix_refl : (s : Text) → has_prefix s s ≡ true
unfolding has_prefix
has_prefix_refl [] = refl
has_prefix_refl (x ∷ s) =
    let same : (x == x) ≡ true = ground arith in rw (same, has_prefix_refl s) refl

pub contains_refl : (s : Text) → contains s s ≡ true
unfolding contains
contains_refl [] = has_prefix_refl []
contains_refl (x ∷ s) = rw (has_prefix_refl (x ∷ s)) refl

-- What is left of s after as many characters as p has.
abbrev after : Text → Text → Text
after [] s = s
after (x ∷ p) [] = []
after (x ∷ p) (c ∷ s) = after p s

after-nil : (p : Text) → after p [] ≡ []
after-nil [] = refl
after-nil (x ∷ p) = refl

after-append : (p s : Text) → after p (p ++ s) ≡ s
after-append [] s = refl
after-append (x ∷ p) s = after-append p s

has_prefix-after : (s p t : Text) → has_prefix s (p ++ t) ≡ true → has_prefix (after p s) t ≡ true
unfolding has_prefix
has_prefix-after s [] t h = h
has_prefix-after [] (x ∷ p) t h = absurd (cc h)
has_prefix-after (c ∷ s) (x ∷ p) t h = has_prefix-after s p t (ground arith)

contains-prefix : (s t : Text) → has_prefix s t ≡ true → contains s t ≡ true
unfolding contains
contains-prefix [] t h = h
contains-prefix (c ∷ s) t h = ground arith

-- One character more in front changes nothing.
contains-after :
    (c : ℕ) (p s t : Text) → contains (after p s) t ≡ true → contains (after p (c ∷ s)) t ≡ true
unfolding contains
contains-after c [] s t h = ground arith
contains-after c (x ∷ p) [] t h = rw (after-nil p) h
contains-after c (x ∷ p) (d ∷ s) t h = contains-after d p s t h

contains_tail : (s p t : Text) → contains s (p ++ t) ≡ true → contains (after p s) t ≡ true
unfolding contains
contains_tail [] p t h = contains-prefix (after p []) t (has_prefix-after [] p t h)
contains_tail (c ∷ s) p t h = elim (Bool-cases (has_prefix (c ∷ s) (p ++ t))) [
  | inl e ↦ contains-prefix (after p (c ∷ s)) t (has_prefix-after (c ∷ s) p t e)
  | inr e ↦ contains-after c p s t (contains_tail s p t (ground arith))
]

pub append_assoc : (s t u : Text) → (s ++ t) ++ u ≡ s ++ (t ++ u)
append_assoc [] t u = refl
append_assoc (c ∷ s) t u = ap (λ v. c ∷ v) (append_assoc s t u)

-- A common beginning can be left out.
pub contains-append : (p s t : Text) → contains s t ≡ false → contains (p ++ s) (p ++ t) ≡ false
contains-append p s t h = elim (Bool-cases (contains (p ++ s) (p ++ t))) [
  | inr e ↦ e
  | inl e ↦
      let tail = contains_tail (p ++ s) p t e in
      let there : contains s t ≡ true = rw (after-append p s) at tail in absurd (cc (h, there))
]

-- No character of a number is that of a letter or a blank.
abbrev numeric : Text → Bool
numeric [] = true
numeric (c ∷ s) = (c == b'-' || (leb b'0' c && leb c b'9')) && numeric s

numeric-digits : (f n : ℕ) (rest : Text) → numeric rest ≡ true → numeric (digits f n rest) ≡ true
unfolding digits
numeric-digits zero n rest h = h
numeric-digits (suc f) n rest h = ground (arith, numeric-digits f (n / 10) ((b'0' + n % 10) ∷ rest))

numeric-format_int : (z : ℤ) → numeric (format_int z) ≡ true
unfolding format_int
numeric-format_int (pos n) = numeric-digits (suc n) n [] refl
numeric-format_int (negsuc n) = ground (arith, numeric-digits (suc (suc n)) (suc n) [] refl)

-- A text that starts with a blank does not stand in a number.
contains-numeric : (s t : Text) → numeric s ≡ true → contains s (b' ' ∷ t) ≡ false
unfolding contains has_prefix
contains-numeric [] t h = refl
contains-numeric (c ∷ s) t h = ground (arith, contains-numeric s t)

status-head : (s : Text) → numeric s ≡ true → has_prefix s (codes "not found") ≡ false
unfolding has_prefix
status-head [] h = refl
status-head (c ∷ s) h = ground arith

-- An error that names a status does not say that a key is not found.
pub contains-status :
    (z : ℤ) → contains (codes " returned status " ++ format_int z) (codes " not found") ≡ false
unfolding contains has_prefix
contains-status z =
    let n = numeric-format_int z in
    rw (status-head (format_int z) n, contains-numeric (format_int z) (codes "not found") n) refl
