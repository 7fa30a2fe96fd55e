-- ===== src/Transport/View.antt =====
-- transport.go: the ways in which one round of the loop of RoundTrip can end.
use http_governance_client.Common.{
  ℕ, ◌≡◌, refl, Bool, true, false, Option, none, some, ℤ, inl, inr, Bool-cases, Result, ok, err,
}
use http_governance_client.Types.Message.{GoError, Request, Response}
use http_governance_client.Policy.Backoff.{retry_delay}
use http_governance_client.Budget.Ops.{Entries, Reservation, reserve}
use http_governance_client.Transport.Retryable.{should_retry}
use http_governance_client.Transport.Loop.{
  Moment, Fixed, Progress, Next, again, stop, given_back, wait_retry_delay, waiting, denied,
  too_late, after_wait, reserved_or_denied, answered, prepared, schedule, sent, attempted,
  round_trip_once, unprepared, prepare, round,
}

module _ (f : Fixed) (m : Moment) (n : ℕ) where
  abbrev wants_retry : Request → Option Response → Option GoError → Bool
  wants_retry req resp error =
      should_retry req f.policy n f.max_retries resp error m.checked_at f.deadline

  abbrev delay : Option Response → ℤ
  delay resp = retry_delay m.chance f.policy n resp

  -- What happens once the attempt is answered, from the progress before it was sent.
  pub data Answered (req : Request) (resp : Option Response) (error : Option GoError) (p : Progress)
      (x : Next) : Type 0 where
    ends :
        wants_retry req resp error ≡ false
        → x ≡ stop (sent n req resp error p)
        → Answered req resp error p x
    late :
        wants_retry req resp error ≡ true
        → too_late m.delayed_at (delay resp) f.deadline ≡ true
        → x ≡ stop (sent n req resp error p)
        → Answered req resp error p x
    denies :
        (entries : Entries) (r : Option Reservation)
        → wants_retry req resp error ≡ true
        → too_late m.delayed_at (delay resp) f.deadline ≡ false
        → reserve (m.before_reserve p.entries) f.downstream f.budget ≡ (entries, r, false)
        → x ≡ stop (denied entries (sent n req resp error p))
        → Answered req resp error p x
    retries :
        (entries : Entries) (r : Option Reservation)
        → wants_retry req resp error ≡ true
        → too_late m.delayed_at (delay resp) f.deadline ≡ false
        → reserve (m.before_reserve p.entries) f.downstream f.budget ≡ (entries, r, true)
        → wait_retry_delay (delay resp) m.interrupted ≡ none
        → x ≡ again (waiting f m n req resp error entries r (sent n req resp error p))
        → Answered req resp error p x
    interrupts :
        (entries : Entries) (r : Option Reservation) (e : GoError)
        → wants_retry req resp error ≡ true
        → too_late m.delayed_at (delay resp) f.deadline ≡ false
        → reserve (m.before_reserve p.entries) f.downstream f.budget ≡ (entries, r, true)
        → wait_retry_delay (delay resp) m.interrupted ≡ some e
        → x ≡ stop (given_back (waiting f m n req resp error entries r (sent n req resp error p)) e)
        → Answered req resp error p x

  pub data RoundView (p : Progress) (x : Next) : Type 0 where
    refuses :
        (e : GoError) → prepare f m n p ≡ err e → x ≡ stop (unprepared f n e p) → RoundView p x
    answers :
        (req : Request) (resp : Option Response) (error : Option GoError)
        → prepare f m n p ≡ ok req
        → round_trip_once m.round_trip req ≡ (resp, error)
        → Answered req resp error p x
        → RoundView p x

  wait-View :
      (req : Request) (resp : Option Response) (error : Option GoError) (p : Progress)
      (entries : Entries) (r : Option Reservation) (w : Option GoError)
      → wants_retry req resp error ≡ true
      → too_late m.delayed_at (delay resp) f.deadline ≡ false
      → reserve (m.before_reserve p.entries) f.downstream f.budget ≡ (entries, r, true)
      → wait_retry_delay (delay resp) m.interrupted ≡ w
      → Answered req resp error p
          (after_wait (waiting f m n req resp error entries r (sent n req resp error p)) w)
  wait-View req resp error p entries r none h l k e = retries entries r h l k e refl
  wait-View req resp error p entries r (some x) h l k e = interrupts entries r x h l k e refl

  reserve-View :
      (req : Request) (resp : Option Response) (error : Option GoError) (p : Progress)
      (r : Entries × Option Reservation × Bool)
      → wants_retry req resp error ≡ true
      → too_late m.delayed_at (delay resp) f.deadline ≡ false
      → reserve (m.before_reserve p.entries) f.downstream f.budget ≡ r
      → Answered req resp error p
          (reserved_or_denied f m n req resp error (sent n req resp error p) r)
  unfolding reserved_or_denied
  reserve-View req resp error p (entries, r, true) h l k =
      wait-View req resp error p entries r _ h l k refl
  reserve-View req resp error p (entries, r, false) h l k = denies entries r h l k refl

  schedule-View :
      (req : Request) (resp : Option Response) (error : Option GoError) (p : Progress)
      → wants_retry req resp error ≡ true
      → Answered req resp error p (schedule f m n req resp error (sent n req resp error p))
  unfolding schedule
  schedule-View req resp error p h =
      elim (Bool-cases (too_late m.delayed_at (delay resp) f.deadline)) [
        | inl e ↦ rw e (late h e refl)
        | inr e ↦ rw e (reserve-View req resp error p _ h e refl)
      ]

  answered-View :
      (req : Request) (resp : Option Response) (error : Option GoError) (p : Progress)
      → Answered req resp error p (answered f m n req p (resp, error))
  unfolding answered
  answered-View req resp error p = elim (Bool-cases (wants_retry req resp error)) [
    | inl e ↦ rw e (schedule-View req resp error p e)
    | inr e ↦ rw e (ends e refl)
  ]

  sent-View :
      (req : Request) (p : Progress) (a : Option Response × Option GoError)
      → prepare f m n p ≡ ok req
      → round_trip_once m.round_trip req ≡ a
      → RoundView p (answered f m n req p a)
  sent-View req p (resp, error) e g = answers req resp error e g (answered-View req resp error p)

  prepared-View :
      (p : Progress) (r : Result GoError Request)
      → prepare f m n p ≡ r
      → RoundView p (prepared f m n p r)
  unfolding prepared attempted
  prepared-View p (err e) h = refuses e h refl
  prepared-View p (ok req) h = sent-View req p _ h refl

  -- Every round ends in one of these ways.
  pub round-View : (p : Progress) → RoundView p (round f m n p)
  unfolding round
  round-View p = prepared-View p _ refl
