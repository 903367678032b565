-- ===== src/Auth/Error.antt =====
-- server/src/auth/error.rs, and the causes that `details` are printed from.
use month_erdmko_de.Base.{Option, none, some, String}
use month_erdmko_de.Base.Result.{Result}

pub data AuthErrorKind : Type 0 where
  validation conflict unauthorized internal : AuthErrorKind

-- What a failing call reports: a constraint of the schema, or whatever the environment does
-- to it (a busy or full database, a lost connection, a bad reply), by the text of its `Debug` form.
pub data Cause : Type 0 where
  constraint_violation : Cause
  invalid_column : Cause
  fault : String → Cause

pub record AuthError : Type 0 where
  pub kind : AuthErrorKind
  pub code : String
  pub message : String
  pub details : Option Cause

abbrev pub AuthResult : Type 0 → Type 0
AuthResult A = Result AuthError A

abbrev pub validation_error : String → AuthError
validation_error message = record {
  kind = validation;
  code = "AUTH_VALIDATION_ERROR";
  message = message;
  details = none;
}

abbrev pub conflict_error : String → String → AuthError
conflict_error code message = record {
  kind = conflict;
  code = code;
  message = message;
  details = none;
}

abbrev pub unauthorized_error : String → String → AuthError
unauthorized_error code message = record {
  kind = unauthorized;
  code = code;
  message = message;
  details = none;
}

abbrev pub internal_error : String → Cause → AuthError
internal_error message details = record {
  kind = internal;
  code = "INTERNAL_ERROR";
  message = message;
  details = some details;
}
