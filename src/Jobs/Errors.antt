-- ===== src/Jobs/Errors.antt =====
-- app/core/errors.py
use webintel.Prelude.{ℕ, Bool, false, List, [], Option, none, some, Text, String, map}
use webintel.Url.Errors.{Message}

-- A message is a text of its own, or that of a URL error.
pub data ErrorMessage : Type 0 where
  literal : String → ErrorMessage
  of_url : Message → ErrorMessage

-- A dictionary of `details`; a location is a list of names and positions.
pub data Location : Type 0 where
  name : Text → Location
  position : ℕ → Location

pub record ErrorDetail : Type 0 where
  pub location : List Location
  pub message : Text
  pub type : Text

pub record AppError : Type 0 where
  pub code : String
  pub message : ErrorMessage
  pub status_code : ℕ
  pub details : List ErrorDetail

-- `details or []`
abbrev details_or : Option (List ErrorDetail) → List ErrorDetail
details_or none = []
details_or (some details) = details

-- AppError.__init__
abbrev pub new_app_error : String → ErrorMessage → ℕ → Option (List ErrorDetail) → AppError
new_app_error code message status_code details = record {
  code = code;
  message = message;
  status_code = status_code;
  details = details_or details;
}

-- What a route may raise: an AppError, which `handle_app_error` answers, or another exception.
pub data RouteError : Type 0 where
  app_error : AppError → RouteError
  uncaught_value_error integrity_error : RouteError

pub record ErrorPayload : Type 0 where
  pub success : Bool
  pub code : String
  pub message : ErrorMessage
  pub details : List ErrorDetail

abbrev pub error_payload : AppError → ErrorPayload
error_payload error = record {
  success = false;
  code = error.code;
  message = error.message;
  details = error.details;
}

pub record JsonResponse : Type 0 where
  pub status_code : ℕ
  pub content : ErrorPayload

abbrev pub handle_app_error : AppError → JsonResponse
handle_app_error error = record { status_code = error.status_code; content = error_payload error }

-- An item of `error.errors()` of pydantic
pub record ValidationItem : Type 0 where
  pub loc : List Location
  pub msg : Text
  pub type : Text

unfoldable pub handle_validation_error : List ValidationItem → JsonResponse
handle_validation_error errors =
    let details =
      map
        (λ (item : ValidationItem). record {
          location = item.loc;
          message = item.msg;
          type = item.type;
        })
        errors in
    let error =
      new_app_error "VALIDATION_ERROR" (literal "Request validation failed") 422 (some details) in
    record { status_code = error.status_code; content = error_payload error }
