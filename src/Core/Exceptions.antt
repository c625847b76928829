-- ===== src/Core/Exceptions.antt =====
-- src/core/exceptions.py: the application's errors, and what a handler answers with: a value, or an
-- exception. Beside the application's errors there are the framework's `HTTPException` and the
-- `IntegrityError` by which the database refuses a second row under a unique value.
use kryvaracode.Common.{ℕ, String, Bool, ◌==◌, Option, none, some, [], ◌∷◌, ◌++◌, if◌then◌else◌}
use kryvaracode.Common.Dict.{Dict}

pub data ErrorClass : Type 0 where
  app_error not_found conflict unauthorized forbidden : ErrorClass
  validation_failed rate_limit service_unavailable : ErrorClass

unfoldable pub status_code : ErrorClass → ℕ
status_code app_error = 500
status_code not_found = 404
status_code conflict = 409
status_code unauthorized = 401
status_code forbidden = 403
status_code validation_failed = 422
status_code rate_limit = 429
status_code service_unavailable = 503

unfoldable pub error_code : ErrorClass → String
error_code app_error = "internal_error"
error_code not_found = "not_found"
error_code conflict = "conflict"
error_code unauthorized = "unauthorized"
error_code forbidden = "forbidden"
error_code validation_failed = "validation_failed"
error_code rate_limit = "rate_limit_exceeded"
error_code service_unavailable = "service_unavailable"

-- The docstring of each class, which stands in for a missing detail.
unfoldable pub doc : ErrorClass → String
doc app_error = "Base class for all KRYVARACODE application errors."
doc not_found = "The requested resource does not exist."
doc conflict = "The request conflicts with the current state of the resource."
doc unauthorized = "Authentication is missing or the credentials are invalid."
doc forbidden = "The authenticated user lacks permission for this action."
doc validation_failed = "The request payload failed semantic validation."
doc rate_limit = "The client exceeded its allowed request rate."
doc service_unavailable = "A downstream dependency (DB, MLflow, MinIO) is unavailable."

pub record AppError : Type 0 where
  pub class : ErrorClass
  pub detail : String
  pub code : String
  pub extra : Dict (Dict String)

-- `a or b` of an optional text
abbrev pub or_else : Option String → String → String
or_else none b = b
or_else (some a) b = if a == "" then b else a

-- `AppError.__init__`: no docstring is empty, so the last alternative is not reached.
unfoldable pub new_error :
    ErrorClass → Option String → Option String → Dict (Dict String) → AppError
unfolding doc error_code
new_error class detail code extra = record {
  class = class;
  detail = or_else detail (doc class);
  code = or_else code (error_code class);
  extra = extra;
}

pub data Field : Type 0 where
  text : String → Field
  number : ℕ → Field
  object : Dict (Dict String) → Field

-- `AppError.to_dict`
unfoldable pub to_dict : AppError → Dict Field
unfolding status_code
to_dict e =
    let payload =
      ("detail", text e.detail)
      ∷ ("error_code", text e.code)
      ∷ ("status_code", number (status_code e.class))
      ∷ [] in
    elim e.extra [ [] ↦ payload | x ∷ more ↦ payload ++ ("extra", object (x ∷ more)) ∷ [] ]

pub data Exception : Type 0 where
  app : AppError → Exception
  http : ℕ → String → Exception
  integrity_error : Exception

-- `raise NotFoundError("…")` and its siblings
abbrev pub raise_app : ErrorClass → String → Exception
raise_app class detail = app (new_error class (some detail) none [])

pub data Result {ℓ} (A : Type ℓ) : Type ℓ where
  ok : A → Result A
  raised : Exception → Result A

abbrev pub is_ok {ℓ} : {A : Type ℓ} → Result A → Bool
is_ok (ok _) = Bool.true
is_ok (raised _) = Bool.false
