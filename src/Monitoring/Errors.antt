-- ===== src/Monitoring/Errors.antt =====
-- monitoring/error-handling.ts: error classes, `createAppError` and `isTransientError`. A thrown
-- value is its message and its optional `retryable` mark.
use app_intent_system_orches.Base.{
  ℕ, String, Bool, true, false, Option, none, some, List, [], ◌∷◌, any, to_lower_case,
  text_includes, if◌then◌else◌,
}

pub data ErrorSeverity : Type 0 where
  low medium high critical : ErrorSeverity

pub data ErrorType : Type 0 where
  validation authentication authorization not_found rate_limit external_api database timeout
        conflict internal :
      ErrorType

pub record Thrown : Type 0 where
  pub message : String
  pub retryable : Option Bool

pub record AppError : Type 0 where
  pub thrown : Thrown
  pub type : ErrorType
  pub status_code : ℕ
  pub severity : ErrorSeverity

pub record Options : Type 0 where
  pub retryable : Option Bool

-- options?.retryable ?? false
abbrev retryable_or_false : Option Options → Bool
retryable_or_false none = false
retryable_or_false (some o) = elim o.retryable [ none ↦ false | some b ↦ b ]

unfoldable pub create_app_error : String → ErrorType → ℕ → ErrorSeverity → Option Options → AppError
create_app_error message type status_code severity options = record {
  thrown = record { message = message; retryable = some (retryable_or_false options) };
  type = type;
  status_code = status_code;
  severity = severity;
}

-- The fragments of a message that mark a failure as transient, test by test.
abbrev pub network_marks : List String
network_marks = "econnrefused" ∷ "enotfound" ∷ "etimedout" ∷ []

abbrev pub http_marks : List String
http_marks = "500" ∷ "502" ∷ "503" ∷ "504" ∷ []

abbrev pub rate_marks : List String
rate_marks = "429" ∷ "rate limit" ∷ []

abbrev pub timeout_marks : List String
timeout_marks = "timeout" ∷ "timed out" ∷ []

unfoldable pub is_transient_error : Thrown → Bool
is_transient_error error =
    let message = to_lower_case error.message in
    if any (text_includes message) network_marks
    then true
    else if any (text_includes message) http_marks
    then true
    else if any (text_includes message) rate_marks
    then true
    else if any (text_includes message) timeout_marks
    then true
    else false
