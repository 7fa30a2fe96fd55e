-- ===== src/Client/Sending.antt =====
-- http.go: sending a request through the shared client and decoding its response. net/http, the
-- encoders and the decoders are parameters.
use http_governance_client.Common.{
  ℕ, zero, suc, ◌+◌, ◌-◌, ◌*◌, ◌/◌, ◌%◌, ◌^◌, ◌≤◌, ◌<◌, ◌≡◌, ◌≢◌, ◌↔◌, refl, sym, ap, ◌∙◌, Bool,
  true, false, not, ◌&&◌, ◌||◌, Option, none, some, arith, ℤ, pos, negsuc, pos_part, neg_part, ◌<ℤ◌,
  ◌≤ℤ◌, ◌+ℤ◌, ◌-ℤ◌, ◌*ℤ◌, leb_ℤ, ltb_ℤ, eqb_ℤ, eqb_ℤ_iff, IsInt64, max_int64, min_int64, wrap64,
  wrap64_eq, add64, sub64, mul64, add64_eq, sub64_eq, mul64_eq, sub_saturated, +ℤ_parts, -ℤ_parts,
  eq_of_parts, if◌then◌else◌, ◌⊎◌, inl, inr, List, [], ◌∷◌, ◌++◌, map, any, All, length, is_empty,
  Bool-cases, Option-cases, ltb, leb, ◌==◌, Result, ok, err, ◌>>=◌, ◌>>◌, fail_if, dec_lt,
  Result-cases, value_or, IsOk, IsOk-first,
}
use http_governance_client.Common.Text.{
  Text, codes, text_eq, text_eq_iff, text_eq_refl, text_eq_sound, trim_space, trim_space_idem,
  to_lower, to_upper, to_upper_idem, to_lower_idem, equal_fold,
}
use http_governance_client.Common.Number.{
  parse_int, format_int, parse_int-format_int, trim_space-format_int, is_empty-format_int,
}
pub mod Helpers
pub mod Closes
use http_governance_client.Common.Text.{contains}
use http_governance_client.Types.Message.{Header, get, set}

abbrev pub protobuf_content_type : Text
protobuf_content_type = codes "application/x-protobuf"

-- An error by its message.
abbrev pub Message : Type 0
Message = Text

-- A pointer that is not nil: whether it is a proto.Message.
pub record Target : Type 0 where
  pub is_proto : Bool

-- What expectedPtr is: nil, a pointer to decode into, or a *ResponsePtr with its two fields.
pub data Expected : Type 0 where
  nil : Expected
  pointer : Target → Expected
  response_ptr : Option Target → Option Target → Expected

abbrev pub first_of : Option Target → Option Target → Option Target
first_of (some t) other = some t
first_of none other = other

-- ResponsePtr.target, or the pointer itself.
unfoldable pub target : Expected → Option Target
target nil = none
target (pointer t) = some t
target (response_ptr expected except) = first_of expected except

-- A response: the body is none for nil, and what io.ReadAll makes of it.
pub record HttpResponse : Type 0 where
  pub status_code : ℤ
  pub header : Header
  pub body : Option (Result Message Text)

pub data Format : Type 0 where
  protobuf json : Format

-- What a call leaves: the error, the status code that a *ResponsePtr gets, what was decoded with
-- which format, and whether a body was closed.
pub record Handled : Type 0 where
  pub error : Option Message
  pub status_code : Option ℤ
  pub decoded : Option (Format × Text)
  pub closed : Bool

abbrev pub recorded_status : Expected → ℤ → Option ℤ
recorded_status nil status = none
recorded_status (pointer t) status = none
recorded_status (response_ptr expected except) status = some status

-- proto.Unmarshal and json.Unmarshal: the error, if any.
pub record Decoders : Type 0 where
  pub unmarshal_proto : Text → Option Message
  pub unmarshal_json : Text → Option Message

abbrev pub prefixed : Text → Option Message → Option Message
prefixed p none = none
prefixed p (some e) = some (p ++ e)

-- The body that was read, into a target.
unfoldable pub decode_body :
    Decoders → Header → Text → Target → Option Message × Option (Format × Text)
unfolding contains
decode_body d header raw t =
    if contains (get header (codes "Content-Type")) protobuf_content_type && t.is_proto
    then (
      prefixed (codes "unmarshalling proto response body: ") (d.unmarshal_proto raw),
      some (protobuf, raw),
    )
    else if is_empty raw
    then (none, none)
    else (d.unmarshal_json raw, some (json, raw))

-- After the status code: the body is read and closed, or drained and closed where there is no target.
abbrev pub handled_into :
    Decoders → HttpResponse → Option ℤ → Option Target → Option (Result Message Text) → Handled
handled_into d resp status none none = record {
  error = none;
  status_code = status;
  decoded = none;
  closed = false;
}
handled_into d resp status none (some body) = record {
  error = none;
  status_code = status;
  decoded = none;
  closed = true;
}
handled_into d resp status (some t) none = record {
  error = some (codes "response body empty, status: " ++ format_int resp.status_code);
  status_code = status;
  decoded = none;
  closed = false;
}
handled_into d resp status (some t) (some (err e)) = record {
  error = some (codes "reading response body: " ++ e);
  status_code = status;
  decoded = none;
  closed = true;
}
handled_into d resp status (some t) (some (ok raw)) =
    let (error, decoded) = decode_body d resp.header raw t in
    record { error = error; status_code = status; decoded = decoded; closed = true }

unfoldable pub resp_handler : Decoders → Option HttpResponse → Expected → Handled
unfolding target decode_body
resp_handler d none expected = record {
  error = some (codes "response empty");
  status_code = none;
  decoded = none;
  closed = false;
}
resp_handler d (some resp) expected =
    handled_into d resp (recorded_status expected resp.status_code) (target expected) resp.body

-- What the helpers set of a request.
pub record HttpRequest : Type 0 where
  pub method : Text
  pub url : Text
  pub header : Header
  pub body : Option Text

-- http.Client.Do, http.NewRequestWithContext and json.Marshal of a body that is there. A request that
-- NewRequestWithContext accepts has the given method, address and body and no header.
pub record Library : Type 0 where
  pub send : HttpRequest → Result Message HttpResponse
  pub bad_request : Text → Text → Option Message
  pub decoders : Decoders

-- The requests that were sent, and what was made of the response.
pub record Sent : Type 0 where
  pub requests : List HttpRequest
  pub handled : Handled

abbrev pub failed_before : Message → Sent
failed_before e = record {
  requests = [];
  handled = record { error = some e; status_code = none; decoded = none; closed = false };
}

abbrev pub wants_proto : Option Target → Bool
wants_proto none = false
wants_proto (some t) = t.is_proto

abbrev pub after_do : Library → Expected → Result Message HttpResponse → Handled
after_do l expected (err e) = record {
  error = some e;
  status_code = none;
  decoded = none;
  closed = false;
}
after_do l expected (ok resp) = resp_handler l.decoders (some resp) expected

-- The header Accept of a request for a proto.Message.
unfoldable pub accepting : Expected → HttpRequest → HttpRequest
unfolding target
accepting expected req =
    if wants_proto (target expected)
    then record req { header = set req.header (codes "Accept") protobuf_content_type }
    else req

unfoldable pub do_ : Library → HttpRequest → Expected → Sent
unfolding accepting resp_handler
do_ l req expected =
    let sent = accepting expected req in
    record { requests = sent ∷ []; handled = after_do l expected (l.send sent) }

-- RequestHeaderSetter, which changes the header of the request or fails.
abbrev pub RequestHeaderSetter : Type 0
RequestHeaderSetter = HttpRequest → Result Message Header

unfoldable pub apply_request_header_setter :
    Option RequestHeaderSetter → HttpRequest → Result Message HttpRequest
apply_request_header_setter none req = ok req
apply_request_header_setter (some set_headers) req = do
  header ← set_headers req
  ok (record req { header = header })

-- getBodyReader: none is nil, otherwise what json.Marshal makes of the body.
unfoldable pub get_body_reader : Option (Result Message Text) → Result Message (Option Text)
get_body_reader none = ok none
get_body_reader (some (ok s)) = ok (some s)
get_body_reader (some (err e)) = err e

abbrev no_header : Header
no_header name = []

-- http.NewRequestWithContext
abbrev pub new_request_by : Option Message → Text → Text → Option Text → Result Message HttpRequest
new_request_by none method url body =
    ok (record { method = method; url = url; header = no_header; body = body })
new_request_by (some e) method url body = err e

abbrev pub new_request : Library → Text → Text → Option Text → Result Message HttpRequest
new_request l method url body = new_request_by (l.bad_request method url) method url body
