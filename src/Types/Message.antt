-- ===== src/Types/Message.antt =====
-- What the package reads and writes of net/http messages, contexts and errors. Times are nanoseconds
-- since the Unix epoch.
use http_governance_client.Common.{
  ℕ, Bool, true, false, Option, none, some, ℤ, if◌then◌else◌, List, [], ◌∷◌,
}
use http_governance_client.Common.Text.{Text, codes, text_eq}
use http_governance_client.Types.Policy.{RetryPolicy, RetryConfigScope, RequestClass}

-- http.Header by canonical name: the values of a name, none if it is absent.
abbrev pub Header : Type 0
Header = Text → List Text

abbrev first_value : List Text → Text
first_value [] = []
first_value (v ∷ vs) = v

abbrev pub get : Header → Text → Text
get h name = first_value (h name)

abbrev pub set : Header → Text → Text → Header
set h name value j = if text_eq name j then value ∷ [] else h j

abbrev pub del : Header → Text → Header
del h name j = if text_eq name j then [] else h j

abbrev pub header_retry_attempt : Text
header_retry_attempt = codes "X-Retry-Attempt"

abbrev pub header_no_more_retry : Text
header_no_more_retry = codes "X-No-More-Retry"

abbrev pub header_request_deadline : Text
header_request_deadline = codes "X-Request-Deadline"

abbrev pub header_retry_reason : Text
header_retry_reason = codes "X-Retry-Reason"

abbrev pub header_retry_after : Text
header_retry_after = codes "Retry-After"

-- What the package reads of a url.URL; `hostname` and `printed` are its Hostname() and String().
pub record Url : Type 0 where
  pub host : Text
  pub hostname : Text
  pub path : Text
  pub printed : Text

-- The values that this package keeps in a context, and its deadline.
pub record Context : Type 0 where
  pub no_more_retry : Bool
  pub request_class : Option RequestClass
  pub retry_policy : Option RetryPolicy
  pub scope : Option RetryConfigScope
  pub deadline : Option ℤ

-- What errors.Is and errors.As find in the chain of an error, and its text.
pub record GoError : Type 0 where
  pub canceled : Bool
  pub deadline_exceeded : Bool
  pub certificate : Bool
  pub unexpected_eof : Bool
  pub connection_refused : Bool
  pub connection_reset : Bool
  pub broken_pipe : Bool
  pub platform : Bool  -- isRetryablePlatformError: WSAECONNREFUSED on Windows, else false
  pub dns : Option (Bool × Bool)  -- IsTimeout and IsTemporary of a net.DNSError
  pub net : Option Bool  -- Timeout() of a net.Error
  pub text : Text

abbrev no_error : GoError
no_error = record {
  canceled = false;
  deadline_exceeded = false;
  certificate = false;
  unexpected_eof = false;
  connection_refused = false;
  connection_reset = false;
  broken_pipe = false;
  platform = false;
  dns = none;
  net = none;
  text = [];
}

-- context.DeadlineExceeded, which is a net.Error that times out, and context.Canceled
abbrev pub deadline_exceeded_error : GoError
deadline_exceeded_error = record no_error {
  deadline_exceeded = true;
  net = some true;
  text = codes "context deadline exceeded";
}

abbrev pub canceled_error : GoError
canceled_error = record no_error { canceled = true; text = codes "context canceled" }

-- `has_body` is false where Body is nil.
pub record Response : Type 0 where
  pub status_code : ℤ
  pub header : Header
  pub has_body : Bool

-- `get_body` is the GetBody function, `none` for nil; its answer before an attempt is nil or an error.
pub record Request : Type 0 where
  pub method : Text
  pub url : Option Url
  pub header : Header
  pub context : Context
  pub has_body : Bool
  pub get_body : Option (ℕ → Option GoError)
  pub content_length : ℤ
