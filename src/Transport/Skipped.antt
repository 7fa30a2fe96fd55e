-- ===== src/Transport/Skipped.antt =====
-- transport.go: a request that the skipper takes, and RoundTrip with and without it.
use http_governance_client.Common.{
  ◌≤◌, ◌≡◌, refl, true, some, arith, ℤ, pos, ◌⊎◌, inl, inr, Bool-cases, Option-cases, [], ◌∷◌,
}
use http_governance_client.Common.Text.{text_eq, codes}
use http_governance_client.Types.Message.{
  Request, get, header_no_more_retry, header_retry_attempt, header_retry_reason,
}
use http_governance_client.Policy.Deadline.{parse_bool_header, resolve_overall_deadline}
use http_governance_client.Policy.Deadline.Millis.{
  IsMilli, parse_request_deadline-format_request_deadline,
}
use http_governance_client.Budget.Ops.{Entries}
use http_governance_client.Config.Match.{PathMatch}
use http_governance_client.Transport.Resolve.{Globals}
use http_governance_client.Transport.Attempts.{count_sends, settle-sends}
use http_governance_client.Transport.Governed.{IsOneShot, governed-once}
use http_governance_client.Transport.Headers.{Carries, parse_bool-format}
use http_governance_client.Transport.RoundTrip.{
  Transport, Outside, original_no_more_retry, skips, skipped, round_trip, prepare_skipped_request,
  set_skipped_deadline,
}

skipped-once :
    (o : Outside) (req : Request) (entries : Entries)
    → count_sends (skipped o req entries).trace ≤ 1
unfolding skipped
skipped-once o req entries =
    let answer = o.round_trip (prepare_skipped_request o.resolved_at req) in
    omega (arith, settle-sends 0 answer.0 answer.1)

-- RoundTrip sends a request once at most where the skipper takes it, where its caller forbids
-- retries, and where it has a body that cannot be sent again, whatever the policy.
pub round_trip-once :
    (glob : PathMatch) (g : Globals) (t : Transport) (o : Outside) (req : Request)
    (entries : Entries)
    → (skips t.skipper req ≡ true) ⊎ (original_no_more_retry req ≡ true) ⊎ IsOneShot req
    → count_sends (round_trip glob g t o req entries).trace ≤ 1
unfolding round_trip
round_trip-once glob g t o req entries h = elim (Bool-cases (skips t.skipper req)) [
  | inl e ↦ rw e (skipped-once o req entries)
  | inr e ↦ rw e (governed-once glob g t o req entries (ground arith))
]

-- The headers of every request that is skipped carry on whether retries are forbidden, call it the
-- first attempt and give no reason. A deadline in force, of milliseconds that an int64 can hold, is
-- read rounded down to a millisecond; without one the header of the deadline is as it was.
pub prepare_skipped_request-reads :
    (now : ℤ) (req : Request)
    → ((d : ℤ) → resolve_overall_deadline now req (pos 0) ≡ some d → IsMilli d)
    → (parse_bool_header (get (prepare_skipped_request now req).header header_no_more_retry)
        ≡ original_no_more_retry req)
      × Carries req.header
          (resolve_overall_deadline now req (pos 0))
          (prepare_skipped_request now req).header
      × ((prepare_skipped_request now req).header header_retry_attempt ≡ codes "0" ∷ [])
      × ((prepare_skipped_request now req).header header_retry_reason ≡ [])
unfolding prepare_skipped_request set_skipped_deadline text_eq
prepare_skipped_request-reads now req m =
    elim (Option-cases (resolve_overall_deadline now req (pos 0))) [
      | inl e ↦ rw e (parse_bool-format (original_no_more_retry req), refl, refl, refl)
      | inr (d, e) ↦ rw e (
        parse_bool-format (original_no_more_retry req),
        parse_request_deadline-format_request_deadline d (m d e),
        refl,
        refl,
      )
    ]
