-- ===== src/Client/Sending/Helpers.antt =====
-- http.go: the helpers that make a request and send it.
use http_governance_client.Common.{
  Bool, true, false, Option, none, some, if◌then◌else◌, Result, ok, err, ◌>>=◌,
}
use http_governance_client.Common.Text.{Text, codes}
use http_governance_client.Types.Message.{set}
use http_governance_client.Client.Sending.{
  Expected, HttpRequest, Library, Sent, Message, RequestHeaderSetter, failed_before, do_,
  apply_request_header_setter, get_body_reader, new_request,
}

abbrev pub with_content_type : Text → HttpRequest → HttpRequest
with_content_type content_type req = record req {
  header = set req.header (codes "Content-Type") content_type;
}

-- `return Do(req, expectedPtr)`, unless an error came before.
abbrev pub do_or_fail : Library → Expected → Result Message HttpRequest → Sent
do_or_fail l expected (ok req) = do_ l req expected
do_or_fail l expected (err e) = failed_before e

unfoldable pub prepared_with_headers :
    Library
    → Text
    → Text
    → Text
    → Option (Result Message Text)
    → Option RequestHeaderSetter
    → Result Message HttpRequest
unfolding get_body_reader apply_request_header_setter
prepared_with_headers l method url content_type body set_headers = do
  reader ← get_body_reader body
  req ← new_request l method url reader
  apply_request_header_setter set_headers (with_content_type content_type req)

-- The encoders of JSON and of multipart forms, and the requests of the library.
module _ (l : Library) where
  unfoldable pub send_with_headers :
      Text
      → Text
      → Text
      → Option (Result Message Text)
      → Expected
      → Option RequestHeaderSetter
      → Sent
  unfolding prepared_with_headers do_
  send_with_headers method url content_type body expected set_headers =
      do_or_fail l expected (prepared_with_headers l method url content_type body set_headers)

  unfoldable pub post_with_headers :
      Text → Text → Option (Result Message Text) → Expected → Option RequestHeaderSetter → Sent
  unfolding send_with_headers
  post_with_headers url content_type body expected set_headers =
      send_with_headers (codes "POST") url content_type body expected set_headers

  unfoldable pub put_with_headers :
      Text → Text → Option (Result Message Text) → Expected → Option RequestHeaderSetter → Sent
  unfolding send_with_headers
  put_with_headers url content_type body expected set_headers =
      send_with_headers (codes "PUT") url content_type body expected set_headers

  unfoldable pub delete_with_headers :
      Text → Text → Option (Result Message Text) → Expected → Option RequestHeaderSetter → Sent
  unfolding send_with_headers
  delete_with_headers url content_type body expected set_headers =
      send_with_headers (codes "DELETE") url content_type body expected set_headers

  unfoldable pub post : Text → Text → Option (Result Message Text) → Expected → Sent
  unfolding post_with_headers
  post url content_type body expected = post_with_headers url content_type body expected none

  unfoldable pub put : Text → Text → Option (Result Message Text) → Expected → Sent
  unfolding put_with_headers
  put url content_type body expected = put_with_headers url content_type body expected none

  unfoldable pub delete : Text → Text → Option (Result Message Text) → Expected → Sent
  unfolding delete_with_headers
  delete url content_type body expected = delete_with_headers url content_type body expected none

  unfoldable pub get_with_headers : Text → Expected → Option RequestHeaderSetter → Sent
  unfolding do_ apply_request_header_setter
  get_with_headers url expected set_headers =
      do_or_fail l expected
        (do req ← new_request l (codes "GET") url none; apply_request_header_setter set_headers req)

  unfoldable pub get_ : Text → Expected → Sent
  unfolding get_with_headers
  get_ url expected = get_with_headers url expected none

  unfoldable pub head : Text → Expected → Sent
  unfolding do_
  head url expected = do_or_fail l expected (new_request l (codes "HEAD") url none)

  -- The form is what createMultipart makes of it: the body and the content type.
  unfoldable pub multipart_form_with_headers :
      Text → Text → Result Message (Text × Text) → Expected → Option RequestHeaderSetter → Sent
  unfolding do_ apply_request_header_setter
  multipart_form_with_headers method url form expected set_headers = do_or_fail l expected (do
    (body, boundary) ← form
    req ← new_request l method url (some body)
    apply_request_header_setter set_headers (with_content_type boundary req))

  unfoldable pub post_multipart_form_with_headers :
      Text → Result Message (Text × Text) → Expected → Option RequestHeaderSetter → Sent
  unfolding multipart_form_with_headers
  post_multipart_form_with_headers url form expected set_headers =
      multipart_form_with_headers (codes "POST") url form expected set_headers

  unfoldable pub put_multipart_form_with_headers :
      Text → Result Message (Text × Text) → Expected → Option RequestHeaderSetter → Sent
  unfolding multipart_form_with_headers
  put_multipart_form_with_headers url form expected set_headers =
      multipart_form_with_headers (codes "PUT") url form expected set_headers

  unfoldable pub post_multipart_form : Text → Result Message (Text × Text) → Expected → Sent
  unfolding post_multipart_form_with_headers
  post_multipart_form url form expected = post_multipart_form_with_headers url form expected none

  unfoldable pub put_multipart_form : Text → Result Message (Text × Text) → Expected → Sent
  unfolding put_multipart_form_with_headers
  put_multipart_form url form expected = put_multipart_form_with_headers url form expected none

-- AuthorizationInHeaderSetter: nil, a nil pointer or function in the interface, or a setter.
pub data AuthorizationInHeaderSetter : Type 0 where
  no_setter : AuthorizationInHeaderSetter
  nil_setter : RequestHeaderSetter → AuthorizationInHeaderSetter
  setter : RequestHeaderSetter → AuthorizationInHeaderSetter

unfoldable pub is_nil_authorization_setter : AuthorizationInHeaderSetter → Bool
is_nil_authorization_setter no_setter = true
is_nil_authorization_setter (nil_setter f) = true
is_nil_authorization_setter (setter f) = false

-- `setter.SetAuthorizationInHeader`
abbrev method_of : AuthorizationInHeaderSetter → Option RequestHeaderSetter
method_of no_setter = none
method_of (nil_setter f) = some f
method_of (setter f) = some f

unfoldable pub legacy_request_header_setter :
    AuthorizationInHeaderSetter → Option RequestHeaderSetter
unfolding is_nil_authorization_setter
legacy_request_header_setter s = if is_nil_authorization_setter s then none else method_of s

module _ (l : Library) where
  unfoldable pub internal_with_method :
      Text
      → Text
      → Text
      → Option (Result Message Text)
      → Expected
      → AuthorizationInHeaderSetter
      → Sent
  unfolding send_with_headers legacy_request_header_setter
  internal_with_method url method content_type body expected s =
      send_with_headers l method url content_type body expected (legacy_request_header_setter s)

  unfoldable pub internal_post :
      Text → Text → Option (Result Message Text) → Expected → AuthorizationInHeaderSetter → Sent
  unfolding internal_with_method
  internal_post url content_type body expected s =
      internal_with_method url (codes "POST") content_type body expected s

  unfoldable pub internal_put :
      Text → Text → Option (Result Message Text) → Expected → AuthorizationInHeaderSetter → Sent
  unfolding internal_with_method
  internal_put url content_type body expected s =
      internal_with_method url (codes "PUT") content_type body expected s

  unfoldable pub internal_delete :
      Text → Text → Option (Result Message Text) → Expected → AuthorizationInHeaderSetter → Sent
  unfolding internal_with_method
  internal_delete url content_type body expected s =
      internal_with_method url (codes "DELETE") content_type body expected s

  unfoldable pub internal_get : Text → Expected → Option RequestHeaderSetter → Sent
  unfolding get_with_headers
  internal_get url expected set_headers = get_with_headers l url expected set_headers

  unfoldable pub internal_multipart_form :
      Text → Text → Result Message (Text × Text) → Expected → AuthorizationInHeaderSetter → Sent
  unfolding multipart_form_with_headers legacy_request_header_setter
  internal_multipart_form method url form expected s =
      multipart_form_with_headers l method url form expected (legacy_request_header_setter s)

  unfoldable pub internal_post_multipart_form :
      Text → Result Message (Text × Text) → Expected → AuthorizationInHeaderSetter → Sent
  unfolding internal_multipart_form
  internal_post_multipart_form url form expected s =
      internal_multipart_form (codes "POST") url form expected s

  unfoldable pub internal_put_multipart_form :
      Text → Result Message (Text × Text) → Expected → AuthorizationInHeaderSetter → Sent
  unfolding internal_multipart_form
  internal_put_multipart_form url form expected s =
      internal_multipart_form (codes "PUT") url form expected s
