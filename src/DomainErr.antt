-- ===== src/DomainErr.antt =====
-- internal/domainerr: the closed catalog of error codes, and the errors that carry them.
-- Methods are not called on nil errors, so no error here is nil.
use go_lab_netconf.Base.{
  Bytes, String, Bool, true, false, List, [], ◌∷◌, ◌++◌, map, Option, none, some, str_eq,
  if◌then◌else◌,
}

abbrev pub Code : Type 0
Code = String

pub record Entry : Type 0 where
  pub code : Code
  pub retryable : Bool

abbrev entry : Code → Bool → Entry
entry code retryable = record { code = code; retryable = retryable }

abbrev pub catalog : List Entry
catalog =
    entry "validation_failed" false
    ∷ entry "unknown_field" false
    ∷ entry "reserved_key" false
    ∷ entry "immutable_field" false
    ∷ entry "revision_mismatch" true
    ∷ entry "not_found" false
    ∷ entry "lock_denied" true
    ∷ entry "not_writable" false
    ∷ entry "wait_timeout" true
    ∷ entry "store_wiped" false
    ∷ entry "unauthorized" false
    ∷ entry "forbidden" false
    ∷ entry "origin_not_allowed" false
    ∷ entry "tls_unsupported" false
    ∷ entry "callhome_unsupported" false
    ∷ entry "candidate_dirty" true
    ∷ []

pub codes : List Code
codes = map (λ e. e.code) catalog

retryable_in : List Entry → Code → Bool
retryable_in [] code = false
retryable_in (e ∷ es) code = if str_eq e.code code then e.retryable else retryable_in es code

unfoldable pub retryable : Code → Bool
unfolding retryable_in
retryable = retryable_in catalog

pub record FieldViolation : Type 0 where
  pub path : Bytes
  pub code : String
  pub message : String

pub record Error : Type 0 where
  pub code : Code
  pub message : String
  pub retryable : Bool
  pub field_violations : List FieldViolation
  pub current_revision : String
  pub remediation : String

-- `New`
abbrev pub new_error : Code → String → Error
new_error code message = record {
  code = code;
  message = message;
  retryable = retryable code;
  field_violations = [];
  current_revision = "";
  remediation = "";
}

abbrev pub with_remediation : Error → String → Error
with_remediation e s = record e { remediation = s }

abbrev pub with_revision : Error → String → Error
with_revision e rev = record e { current_revision = rev }

abbrev pub with_violations : Error → List FieldViolation → Error
with_violations e v = record e { field_violations = e.field_violations ++ v }

-- Go's `error`: a domain error, or another error with its text.
pub data AnyError : Type 0 where
  domain : Error → AnyError
  other : String → AnyError

-- `As`
abbrev pub as_error : AnyError → Option Error
as_error (domain e) = some e
as_error (other s) = none

abbrev pub validation_failed : String → List FieldViolation → AnyError
validation_failed message v = domain (with_violations (new_error "validation_failed" message) v)

abbrev pub not_found : String → AnyError
not_found message = domain (new_error "not_found" message)

abbrev pub lock_denied : String → AnyError
lock_denied message = domain (new_error "lock_denied" message)

abbrev pub not_writable : String → AnyError
not_writable message = domain (new_error "not_writable" message)

abbrev pub candidate_dirty : String → AnyError
candidate_dirty message = domain (new_error "candidate_dirty" message)

abbrev pub unauthorized : String → AnyError
unauthorized message = domain (new_error "unauthorized" message)
