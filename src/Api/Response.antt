-- ===== src/Api/Response.antt =====
-- The responses of the handlers: status, the two headers that the code sets, and the JSON body.
use pulse_stream.Common.{ℕ, Text, String, Option, none, Result, ok, err}
use pulse_stream.Api.Errors.{ApiError, parts, retry_after}

-- `EventStatusResponse`.
pub record EventStatusResponse : Type 0 where
  pub event_id : Text
  pub source : Text
  pub event_type : Text
  pub status : String
  pub accepted_at : Text
  pub processed_at : Option Text

pub data Body : Type 0 where
  accepted_body : Text → String → Body
  status_body : EventStatusResponse → Body
  error_body : String → Text → Body

pub record Response : Type 0 where
  pub status : ℕ
  pub replayed : Option String
  pub retry_after : Option ℕ
  pub body : Body

-- `ApiError::into_response`.
unfoldable pub error_response : ApiError → Response
unfolding parts retry_after
error_response e =
    let p = parts e in
    record {
      status = p.status;
      replayed = none;
      retry_after = retry_after e;
      body = error_body p.error_code p.message;
    }

-- What axum sends for a handler's result.
unfoldable pub into_response : Result Response ApiError → Response
unfolding error_response
into_response (ok r) = r
into_response (err e) = error_response e
