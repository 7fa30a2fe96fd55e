-- ===== src/Transport/Loop.antt =====
-- transport.go: the loop of RoundTrip, one attempt after the other, with what it does in order.
use http_governance_client.Common.{
  ℕ, zero, suc, ◌+◌, Bool, true, false, ◌&&◌, ◌||◌, Option, none, some, ℤ, pos, negsuc, ◌+ℤ◌, leb_ℤ,
  ltb_ℤ, eqb_ℤ, if◌then◌else◌, List, [], ◌∷◌, ◌++◌, Result, ok, err,
}
use http_governance_client.Common.Text.{Text, codes}
use http_governance_client.Types.Policy.{RequestClass, RetryPolicy}
use http_governance_client.Types.Message.{GoError, Request, Response, Url}
use http_governance_client.Policy.Backoff.{Chance, retry_delay}
use http_governance_client.Policy.Reason.{retry_reason, status_code}
use http_governance_client.Budget.Config.{RetryBudgetConfig}
use http_governance_client.Budget.Ops.{Entries, Reservation, reserve, refund}
use http_governance_client.Transport.Retryable.{should_retry}
use http_governance_client.Transport.Attempt.{prepare_attempt_request}

pub record RetryEvent : Type 0 where
  pub method : Text
  pub url : Text
  pub class : RequestClass
  pub attempt : ℕ
  pub max_retries : ℤ
  pub delay : ℤ
  pub status_code : ℤ
  pub reason : Text
  pub will_retry : Bool

-- What the loop does to the outside, in order. Attempts are counted from 0.
pub data Effect : Type 0 where
  sends : ℕ → Request → Effect  -- the wrapped RoundTripper is called
  cancels : ℕ → Effect  -- the context of the attempt is released
  drains : ℕ → Effect  -- the response is read to the limit and closed
  closes_request_body : Effect
  observes : RetryEvent → Effect
  waits : ℤ → Effect

-- What the outside answers during one attempt.
pub record Moment : Type 0 where
  pub prepared_at : ℤ
  pub started_at : ℤ
  pub round_trip : Request → Option Response × Option GoError
  pub checked_at : ℤ
  pub chance : Chance
  pub delayed_at : ℤ
  pub before_reserve : Entries → Entries  -- what other requests did to the balances
  pub while_waiting : Entries → Entries
  pub interrupted : Option GoError  -- the error of the context, if it ends the wait

-- What stays the same over the loop.
pub record Fixed : Type 0 where
  pub request : Request  -- loopReq
  pub policy : RetryPolicy
  pub class : RequestClass
  pub downstream : Text
  pub budget : RetryBudgetConfig
  pub deadline : Option ℤ
  pub original_no_more_retry : Bool
  pub max_retries : ℤ
  pub observed : Bool  -- an observer is set

pub record Progress : Type 0 where
  pub last_resp : Option Response
  pub last_error : Option GoError
  pub final_resp : Option Response
  pub final_error : Option GoError
  pub pending : Option Reservation
  pub suppressed : Text
  pub total_attempts : ℕ
  pub entries : Entries
  pub trace : List Effect

abbrev pub budget_exhausted : Text
budget_exhausted = codes "budget_exhausted"

abbrev pub start : Entries → Progress
start entries = record {
  last_resp = none;
  last_error = none;
  final_resp = none;
  final_error = none;
  pending = none;
  suppressed = [];
  total_attempts = 0;
  entries = entries;
  trace = [];
}

abbrev pub also : Progress → List Effect → Progress
also p es = record p { trace = p.trace ++ es }

-- roundTripOnce: a request without a URL is ErrUrlNotFound. Its logging reads bodies and puts them
-- back, which Capture models.
-- An answer of neither a response nor an error, which the contract of RoundTripper excludes, is
-- passed on here; the code panics on it.
abbrev pub url_not_found : GoError
url_not_found = record {
  canceled = false;
  deadline_exceeded = false;
  certificate = false;
  unexpected_eof = false;
  connection_refused = false;
  connection_reset = false;
  broken_pipe = false;
  platform = false;
  dns = none;
  net = none;
  text = codes "request URL not found";
}

round_trip_at :
    Option Url
    → (Request → Option Response × Option GoError)
    → Request
    → Option Response × Option GoError
round_trip_at none send req = (none, some url_not_found)
round_trip_at (some url) send req = send req

unfoldable pub round_trip_once :
    (Request → Option Response × Option GoError) → Request → Option Response × Option GoError
unfolding round_trip_at
round_trip_once send req = round_trip_at req.url send req

-- The cancel of an attempt goes to the body of its response, or is called: wrapBodyWithCancel.
abbrev pub settle : ℕ → Option Response → Option GoError → List Effect
settle n resp (some e) = cancels n ∷ []
settle n none none = cancels n ∷ []
settle n (some resp) none = if resp.has_body then [] else cancels n ∷ []

-- discardRetryResponse: closing a wrapped body calls the cancel.
abbrev pub discard : ℕ → Option Response → Option GoError → List Effect
discard n none error = []
discard n (some resp) (some e) = if resp.has_body then drains n ∷ [] else []
discard n (some resp) none = if resp.has_body then drains n ∷ cancels n ∷ [] else []

-- The wait for the delay would pass the deadline.
abbrev pub too_late : ℤ → ℤ → Option ℤ → Bool
too_late now delay none = false
too_late now delay (some deadline) = ltb_ℤ (pos 0) delay && ltb_ℤ deadline (now +ℤ delay)

abbrev url_text : Option Url → Text
url_text none = []
url_text (some url) = url.printed

unfoldable pub retry_event : Fixed → ℕ → Request → ℤ → Option Response → Option GoError → RetryEvent
retry_event f attempt req delay resp error = record {
  method = req.method;
  url = url_text req.url;
  class = f.class;
  attempt = attempt + 1;
  max_retries = f.max_retries;
  delay = delay;
  status_code = status_code resp;
  reason = retry_reason resp error;
  will_retry = true;
}

-- The loop goes on to the next attempt, or ends.
pub data Next : Type 0 where
  again : Progress → Next
  stop : Progress → Next

-- waitRetryDelay
abbrev pub wait_retry_delay : ℤ → Option GoError → Option GoError
wait_retry_delay delay interrupted = if leb_ℤ delay (pos 0) then none else interrupted

-- The reservation is given back, and the request ends with the error.
abbrev pub given_back : Progress → GoError → Progress
given_back p e = record p {
  entries = (refund p.entries p.pending).0;
  pending = none;
  final_error = some e;
}

abbrev pub after_wait : Progress → Option GoError → Next
after_wait p none = again p
after_wait p (some e) = stop (given_back p e)

abbrev pub observation : Bool → RetryEvent → List Effect
observation observed event = if observed then observes event ∷ [] else []

-- While the loop waits for a retry: the reservation is pending and the response is dropped.
abbrev pub waiting :
    Fixed
    → Moment
    → ℕ
    → Request
    → Option Response
    → Option GoError
    → Entries
    → Option Reservation
    → Progress
    → Progress
waiting f m n req resp error entries reservation p =
    let delay = retry_delay m.chance f.policy n resp in
    also
      (record p {
        entries = m.while_waiting entries;
        pending = reservation;
        final_resp = none;
        last_resp = resp;
        last_error = error;
      })
      (observation f.observed (retry_event f n req delay resp error)
        ++ discard n resp error
        ++ waits delay ∷ [])

abbrev pub denied : Entries → Progress → Progress
denied entries p = record p { entries = entries; pending = none; suppressed = budget_exhausted }

unfoldable pub reserved_or_denied :
    Fixed
    → Moment
    → ℕ
    → Request
    → Option Response
    → Option GoError
    → Progress
    → Entries × Option Reservation × Bool
    → Next
reserved_or_denied f m n req resp error p (entries, reservation, true) =
    after_wait (waiting f m n req resp error entries reservation p)
      (wait_retry_delay (retry_delay m.chance f.policy n resp) m.interrupted)
reserved_or_denied f m n req resp error p (entries, reservation, false) = stop (denied entries p)

-- A retry is on: it is reserved and observed, the response is dropped, and the delay is waited for.
unfoldable pub schedule :
    Fixed → Moment → ℕ → Request → Option Response → Option GoError → Progress → Next
unfolding reserved_or_denied
schedule f m n req resp error p =
    if too_late m.delayed_at (retry_delay m.chance f.policy n resp) f.deadline
    then stop p
    else reserved_or_denied f m n req resp error p
        (reserve (m.before_reserve p.entries) f.downstream f.budget)

-- The wrapped RoundTripper is called only for a request with a URL.
abbrev pub sending : ℕ → Request → Option Url → List Effect
sending n req none = []
sending n req (some url) = sends n req ∷ []

-- The attempt has been made and answered.
abbrev pub sent : ℕ → Request → Option Response → Option GoError → Progress → Progress
sent n req resp error p =
    also
      (record p { total_attempts = n + 1; pending = none; final_resp = resp; final_error = error })
      (sending n req req.url ++ settle n resp error)

unfoldable pub answered :
    Fixed → Moment → ℕ → Request → Progress → Option Response × Option GoError → Next
unfolding schedule
answered f m n req p (resp, error) =
    if should_retry req f.policy n f.max_retries resp error m.checked_at f.deadline
    then schedule f m n req resp error (sent n req resp error p)
    else stop (sent n req resp error p)

-- A reservation that is committed gives nothing back any more, so it is only dropped.
unfoldable pub attempted : Fixed → Moment → ℕ → Request → Progress → Next
unfolding answered round_trip_once
attempted f m n req p = answered f m n req p (round_trip_once m.round_trip req)

-- A request that cannot be made gives the reservation back; the first attempt closes the body.
abbrev pub close_body : ℕ → Bool → List Effect
close_body zero true = closes_request_body ∷ []
close_body zero false = []
close_body (suc n) b = []

abbrev pub unprepared : Fixed → ℕ → GoError → Progress → Progress
unprepared f n e p =
    also (record (given_back p e) { final_resp = none }) (close_body n f.request.has_body)

unfoldable pub prepared : Fixed → Moment → ℕ → Progress → Result GoError Request → Next
unfolding attempted
prepared f m n p (err e) = stop (unprepared f n e p)
prepared f m n p (ok req) = attempted f m n req p

abbrev pub prepare : Fixed → Moment → ℕ → Progress → Result GoError Request
prepare f m n p =
    prepare_attempt_request f.request f.policy n
      (eqb_ℤ (pos n) f.max_retries || f.original_no_more_retry) f.deadline p.last_resp p.last_error
      m.prepared_at m.started_at

-- One round of the loop.
unfoldable pub round : Fixed → Moment → ℕ → Progress → Next
unfolding prepared
round f m n p = prepared f m n p (prepare f m n p)

-- `rounds` rounds are left; the moments are numbered by attempt.
unfoldable pub loop : Fixed → (ℕ → Moment) → ℕ → ℕ → Progress → Progress
loop f ms zero n p = p
loop f ms (suc rounds) n p = elim (round f (ms n) n p) [
  | again p' ↦ loop f ms rounds (suc n) p'
  | stop p' ↦ p'
]

-- `for attempt := 0; attempt <= maxRetries`
abbrev pub rounds_of : ℤ → ℕ
rounds_of (pos n) = suc n
rounds_of (negsuc n) = 0

unfoldable pub run : Fixed → (ℕ → Moment) → Entries → Progress
unfolding loop round
run f ms entries = loop f ms (rounds_of f.max_retries) 0 (start entries)
