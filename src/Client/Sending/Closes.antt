-- ===== src/Client/Sending/Closes.antt =====
-- http.go: every helper sends one request at most and closes the response.
use http_governance_client.Common.{
  ◌≡◌, refl, true, false, Option, none, some, ℤ, ◌⊎◌, inl, inr, [], ◌∷◌, Result, ok, err,
  Result-cases,
}
use http_governance_client.Common.Text.{Text}
use http_governance_client.Config.Patches.{is_some}
use http_governance_client.Client.Sending.{
  Expected, Target, HttpRequest, HttpResponse, Decoders, Library, Sent, Message,
  RequestHeaderSetter, failed_before, do_, target, resp_handler, handled_into, recorded_status,
  accepting,
}
use http_governance_client.Client.Sending.Helpers.{
  do_or_fail, post_with_headers, put_with_headers, delete_with_headers, post, put, delete,
  get_with_headers, get_, head, multipart_form_with_headers, AuthorizationInHeaderSetter,
  is_nil_authorization_setter, legacy_request_header_setter, internal_with_method, internal_post,
  internal_put, internal_delete, internal_get, internal_multipart_form,
}

handled_into-closes :
    (d : Decoders) (resp : HttpResponse) (status : Option ℤ) (t : Option Target)
    (body : Option (Result Message Text))
    → ((handled_into d resp status t body).closed ≡ is_some body)
      × ((handled_into d resp status t body).status_code ≡ status)
handled_into-closes d resp status none none = (refl, refl)
handled_into-closes d resp status none (some body) = (refl, refl)
handled_into-closes d resp status (some t) none = (refl, refl)
handled_into-closes d resp status (some t) (some (err e)) = (refl, refl)
handled_into-closes d resp status (some t) (some (ok raw)) = (refl, refl)

-- A call that failed before it sent anything, or that sent one request and closed the body of its
-- response, if there is one, and gave the status code to a pointer that asks for it.
abbrev pub IsOnce : Library → Expected → Sent → Type 0
IsOnce l expected sent =
    ((e : Message) × (sent ≡ failed_before e))
    ⊎ ((req : HttpRequest) × (sent.requests ≡ req ∷ [])
        × (((e : Message) × (l.send req ≡ err e)
              × (sent.handled.error ≡ some e)
              × (sent.handled.closed ≡ false))
            ⊎ ((resp : HttpResponse) × (l.send req ≡ ok resp)
                × (sent.handled.closed ≡ is_some resp.body)
                × (sent.handled.status_code ≡ recorded_status expected resp.status_code))))

do_-IsOnce :
    (l : Library) (req : HttpRequest) (expected : Expected) → IsOnce l expected (do_ l req expected)
unfolding do_ resp_handler
do_-IsOnce l req expected = elim (Result-cases (l.send (accepting expected req))) [
  | inr (e, bad) ↦ inr (accepting expected req, refl, inl (e, bad, rw bad refl, rw bad refl))
  | inl (resp, good) ↦
      let closes =
        handled_into-closes l.decoders resp (recorded_status expected resp.status_code)
          (target expected) resp.body in
      inr (accepting expected req, refl, inr (resp, good, rw good closes.0, rw good closes.1))
]

do_or_fail-IsOnce :
    (l : Library) (expected : Expected) (r : Result Message HttpRequest)
    → IsOnce l expected (do_or_fail l expected r)
do_or_fail-IsOnce l expected (ok req) = do_-IsOnce l req expected
do_or_fail-IsOnce l expected (err e) = inl (e, refl)

-- A call of a helper.
pub data Call : Type 0 where
  post_call put_call delete_call :
      Text → Text → Option (Result Message Text) → Option RequestHeaderSetter → Call
  get_call : Text → Option RequestHeaderSetter → Call
  head_call : Text → Call
  multipart_call : Text → Text → Result Message (Text × Text) → Option RequestHeaderSetter → Call
  internal_call :
      Text → Text → Text → Option (Result Message Text) → AuthorizationInHeaderSetter → Call
  internal_multipart_call :
      Text → Text → Result Message (Text × Text) → AuthorizationInHeaderSetter → Call

unfoldable pub run_call : Library → Expected → Call → Sent
unfolding post_with_headers put_with_headers delete_with_headers get_with_headers head
    multipart_form_with_headers internal_with_method internal_multipart_form
run_call l expected (post_call url content_type body h) =
    post_with_headers l url content_type body expected h
run_call l expected (put_call url content_type body h) =
    put_with_headers l url content_type body expected h
run_call l expected (delete_call url content_type body h) =
    delete_with_headers l url content_type body expected h
run_call l expected (get_call url h) = get_with_headers l url expected h
run_call l expected (head_call url) = head l url expected
run_call l expected (multipart_call method url form h) =
    multipart_form_with_headers l method url form expected h
run_call l expected (internal_call url method content_type body s) =
    internal_with_method l url method content_type body expected s
run_call l expected (internal_multipart_call method url form s) =
    internal_multipart_form l method url form expected s

-- Every helper fails before it sends anything, or it sends one request, and then it returns the error
-- of the client, or it has closed the body of the response, if there is one, whatever the decoding
-- gave, and a ResponsePtr has the status code.
pub run_call-IsOnce :
    (l : Library) (expected : Expected) (call : Call) → IsOnce l expected (run_call l expected call)
unfolding run_call
run_call-IsOnce l expected (post_call url content_type body h) = do_or_fail-IsOnce l expected _
run_call-IsOnce l expected (put_call url content_type body h) = do_or_fail-IsOnce l expected _
run_call-IsOnce l expected (delete_call url content_type body h) = do_or_fail-IsOnce l expected _
run_call-IsOnce l expected (get_call url h) = do_or_fail-IsOnce l expected _
run_call-IsOnce l expected (head_call url) = do_or_fail-IsOnce l expected _
run_call-IsOnce l expected (multipart_call method url form h) = do_or_fail-IsOnce l expected _
run_call-IsOnce l expected (internal_call url method content_type body s) =
    do_or_fail-IsOnce l expected _
run_call-IsOnce l expected (internal_multipart_call method url form s) =
    do_or_fail-IsOnce l expected _

-- A nil setter of the older helpers, a nil pointer in the interface too, makes them the plain ones.
pub internal_nil_setter :
    (l : Library) (url content_type : Text) (body : Option (Result Message Text))
    (expected : Expected) (s : AuthorizationInHeaderSetter)
    → is_nil_authorization_setter s ≡ true
    → (internal_post l url content_type body expected s ≡ post l url content_type body expected)
      × (internal_put l url content_type body expected s ≡ put l url content_type body expected)
      × (internal_delete l url content_type body expected s
          ≡ delete l url content_type body expected)
      × (internal_get l url expected (legacy_request_header_setter s) ≡ get_ l url expected)
unfolding internal_post internal_put internal_delete internal_get post put delete get_
    internal_with_method legacy_request_header_setter
internal_nil_setter l url content_type body expected s h = rw h (refl, refl, refl, refl)
