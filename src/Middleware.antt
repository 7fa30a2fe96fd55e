-- ===== src/Middleware.antt =====
-- ginmiddleware/retry_governance.go: a server that imports the constraints of its callers.
use http_governance_client.Common.{◌≤◌, ◌≡◌, refl, ◌∙◌, true, inl, inr}
use http_governance_client.Types.Message.{Request, get, header_no_more_retry}
use http_governance_client.Policy.Deadline.{
  context_with_retry_constraints, parse_bool_header, no_more_retry_from_context,
}
use http_governance_client.Policy.Deadline.Earliest.{context_with_retry_constraints-tightens}
use http_governance_client.Config.Match.{PathMatch}
use http_governance_client.Budget.Ops.{Entries}
use http_governance_client.Transport.Resolve.{Globals}
use http_governance_client.Transport.RoundTrip.{Transport, Outside, round_trip}
use http_governance_client.Transport.Attempts.{count_sends}
use http_governance_client.Transport.Skipped.{round_trip-once}

-- The request that the next handler has; the context is cancelled when this handler has returned.
unfoldable pub governance_middleware : Request → Request
unfolding context_with_retry_constraints
governance_middleware req = record req {
  context = context_with_retry_constraints req.context req.header;
}

-- A request that a handler behind the middleware sends on in its context, other values in the context
-- aside, is sent once at most where the header of the caller forbids retries, whatever the policy.
pub round_trip-governance_middleware :
    (glob : PathMatch) (g : Globals) (t : Transport) (o : Outside) (incoming outgoing : Request)
    (entries : Entries)
    → parse_bool_header (get incoming.header header_no_more_retry) ≡ true
    → outgoing.context.no_more_retry ≡ (governance_middleware incoming).context.no_more_retry
    → count_sends (round_trip glob g t o outgoing entries).trace ≤ 1
unfolding governance_middleware no_more_retry_from_context
round_trip-governance_middleware glob g t o incoming outgoing entries h k =
    let imported = (context_with_retry_constraints-tightens incoming.context incoming.header).0 in
    let forbidden : outgoing.context.no_more_retry ≡ true = k ∙ imported ∙ rw h refl in
    round_trip-once glob g t o outgoing entries (inr (inl (rw forbidden refl)))
