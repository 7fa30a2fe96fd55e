-- ===== src/Transport/Capture.antt =====
-- transport.go: what the logging of bodies reads of a body, and puts back. A body is a stream: the
-- bytes that are left, and the error it ends with, none for io.EOF.
use http_governance_client.Common.{
  ℕ, zero, suc, ◌+◌, ◌-◌, ◌^◌, ◌≤◌, ◌<◌, ◌≡◌, refl, ap, Bool, true, false, ◌&&◌, ◌||◌, Option, none,
  some, arith, ℤ, ltb_ℤ, if◌then◌else◌, inl, inr, [], ◌∷◌, ◌++◌, length, Bool-cases, ltb, leb,
}
use http_governance_client.Common.Text.{Text, codes, to_lower}
use http_governance_client.Common.Text.{contains, has_prefix}
use http_governance_client.Client.Sending.{protobuf_content_type}

pub record Stream : Type 0 where
  pub bytes : Text
  pub ending : Option Text

abbrev pub take_text : ℕ → Text → Text
take_text n [] = []
take_text zero (c ∷ s) = []
take_text (suc n) (c ∷ s) = c ∷ take_text n s

abbrev pub drop_text : ℕ → Text → Text
drop_text n [] = []
drop_text zero (c ∷ s) = c ∷ s
drop_text (suc n) (c ∷ s) = drop_text n s

-- io.ReadAll of io.LimitReader: the bytes, the error, and the stream afterwards. A limit that is
-- reached ends the reading without asking the stream for more.
unfoldable pub read_limited : ℕ → Stream → Text × Option Text × Stream
read_limited n body =
    if leb n (length body.bytes)
    then (take_text n body.bytes, none, record body { bytes = drop_text n body.bytes })
    else (body.bytes, body.ending, record body { bytes = [] })

-- io.MultiReader of bytes and a stream
abbrev pub before : Text → Stream → Stream
before s rest = record { bytes = s ++ rest.bytes; ending = rest.ending }

-- `if readLimit < math.MaxInt64 { readLimit++ }`
unfoldable pub read_limit : ℕ → ℕ
read_limit limit = if ltb limit (2 ^ 63 - 1) then limit + 1 else limit

-- errorReader
abbrev pub error_reader : Text → Stream
error_reader e = record { bytes = []; ending = some e }

abbrev pub replay : ℕ → Text × Option Text × Stream → Stream
replay limit (captured, some e, rest) = before captured (error_reader e)
replay limit (captured, none, rest) =
    if ltb limit (length captured)
    then before captured rest
    else record { bytes = captured; ending = none }

abbrev no_error : Option Text → Bool
no_error none = true
no_error (some e) = false

-- The captured bytes, the replacement, and whether the body was captured whole.
unfoldable pub capture_body : ℕ → Stream → Text × Stream × Bool
unfolding read_limited read_limit
capture_body limit body =
    let (captured, error, rest) = read_limited (read_limit limit) body in
    (captured, replay limit (captured, error, rest), no_error error && leb (length captured) limit)

unfoldable pub should_capture_body : ℤ → Text → ℤ → Bool
unfolding contains has_prefix to_lower
should_capture_body limit content_type content_length =
    let type = to_lower content_type in
    if ltb_ℤ limit content_length || contains type (codes "text/event-stream")
    then false
    else has_prefix type (codes "text/")
      || contains type (codes "json")
      || contains type (codes "xml")
      || contains type protobuf_content_type
      || contains type (codes "javascript")
      || contains type (codes "x-www-form-urlencoded")

take-drop : (n : ℕ) (s : Text) → take_text n s ++ drop_text n s ≡ s
take-drop n [] = refl
take-drop zero (c ∷ s) = refl
take-drop (suc n) (c ∷ s) = ap (λ t. c ∷ t) (take-drop n s)

length-take_text : (n : ℕ) (s : Text) → n ≤ length s → length (take_text n s) ≡ n
length-take_text n [] h = omega arith
length-take_text zero (c ∷ s) h = refl
length-take_text (suc n) (c ∷ s) h = ap suc (length-take_text n s (omega arith))

append_nil : (s : Text) → s ++ [] ≡ s
append_nil [] = refl
append_nil (c ∷ s) = ap (λ t. c ∷ t) (append_nil s)

abbrev stream : Text → Option Text → Stream
stream bytes ending = record { bytes = bytes; ending = ending }

-- What a capture promises of a stream.
abbrev pub IsTransparent : ℕ → Stream → Type 0
IsTransparent limit body =
    ((capture_body limit body).1 ≡ body)
    × (length (capture_body limit body).0 ≤ limit + 1)
    × ((capture_body limit body).2 ≡ true
        → (body.bytes ≡ (capture_body limit body).0) × (body.ending ≡ none))

read_limit_below : (limit : ℕ) → limit < 2 ^ 63 - 1 → read_limit limit ≡ limit + 1
unfolding read_limit
read_limit_below limit h = ground (arith, h)

long-IsTransparent :
    (limit : ℕ) (bytes : Text) (ending : Option Text)
    → limit < 2 ^ 63 - 1
    → leb (limit + 1) (length bytes) ≡ true
    → IsTransparent limit (stream bytes ending)
unfolding capture_body read_limited
long-IsTransparent limit bytes ending h long =
    let len : length (take_text (limit + 1) bytes) ≡ limit + 1 =
      length-take_text (limit + 1) bytes (ground arith) in
    let over : ltb limit (length (take_text (limit + 1) bytes)) ≡ true = ground arith in
    let not_whole : leb (length (take_text (limit + 1) bytes)) limit ≡ false = ground arith in
    rw (read_limit_below limit h, long, over, not_whole)
      (ap (λ s. stream s ending) (take-drop (limit + 1) bytes), omega arith, λ x. absurd (cc))

short-IsTransparent :
    (limit : ℕ) (bytes : Text) (ending : Option Text)
    → limit < 2 ^ 63 - 1
    → leb (limit + 1) (length bytes) ≡ false
    → IsTransparent limit (stream bytes ending)
unfolding capture_body read_limited
short-IsTransparent limit bytes none h short =
    let within : ltb limit (length bytes) ≡ false = ground arith in
    let whole : leb (length bytes) limit ≡ true = ground arith in
    rw (read_limit_below limit h, short, within, whole) (refl, ground arith, λ x. (refl, refl))
short-IsTransparent limit bytes (some e) h short =
    rw (read_limit_below limit h, short)
      (ap (λ s. stream s (some e)) (append_nil bytes), ground arith, λ x. absurd (cc))

-- Where the limit is below the largest int64, the replacement gives the bytes and the error of the
-- body, whatever they are; at most one byte more than the limit is read, and a body that is reported
-- as captured is the captured bytes and ends without an error.
pub capture_body-IsTransparent :
    (limit : ℕ) (body : Stream) → limit < 2 ^ 63 - 1 → IsTransparent limit body
capture_body-IsTransparent limit body h = elim (Bool-cases (leb (limit + 1) (length body.bytes))) [
  | inl long ↦ long-IsTransparent limit body.bytes body.ending h long
  | inr short ↦ short-IsTransparent limit body.bytes body.ending h short
]
