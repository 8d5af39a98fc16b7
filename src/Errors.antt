-- ===== src/Errors.antt =====
-- internal/server/handlers.go and internal/server/error_codes.go: the errors that services return,
-- and the status and the codes that a handler writes for each.
-- The text of a message is not modelled. Of an error that is no `apiError` the model keeps which
-- of the errors that the code tells apart it is.
pub mod Laws
use grns.Base.{
  ℕ, ◌≡◌, Bool, true, false, Option, none, some, if◌then◌else◌, ◌==◌, nat_eq, ltb, String, not,
}

-- Errors that are no `apiError`: the store's, those that SQLite reports and that
-- `isUniqueConstraint`, `isForeignKeyConstraint` and `isInvalidSearchQuery` recognise, those of
-- a malformed value, and those of which nothing is asked but that they are errors.
pub data Failure : Type 0 where
  task_not_found project_mismatch invalid_task_id id_required prefix_required : Failure
  no_unique_id unique_constraint foreign_key_constraint invalid_search : Failure
  value_required value_invalid check_constraint invalid_credentials other : Failure

-- type apiError; `cause` is what `fmt.Errorf` built, so never an `apiError` in this code.
pub record ApiError : Type 0 where
  pub status : ℕ
  pub code : String
  pub err_code : ℕ

-- An `error`: one of the above, or one wrapped by `fmt.Errorf` with %w, which `errors.As` and
-- `errors.Is` look through.
pub data Error : Type 0 where
  plain : Failure → Error
  api : ApiError → Error
  wrap : Error → Error

-- errors.As with an apiError for its target.
unfoldable pub as_api : Error → Option ApiError
as_api (plain f) = none
as_api (api e) = some e
as_api (wrap e) = as_api e

-- errors.Is with one of the failures for its target.
unfoldable pub root : Error → Option Failure
root (plain f) = some f
root (api e) = none
root (wrap e) = root e

abbrev pub code_invalid_argument : ℕ
code_invalid_argument = 1000

abbrev pub code_invalid_query : ℕ
code_invalid_query = 1003

abbrev pub code_invalid_id : ℕ
code_invalid_id = 1004

abbrev pub code_invalid_status : ℕ
code_invalid_status = 1005

abbrev pub code_invalid_type : ℕ
code_invalid_type = 1006

abbrev pub code_invalid_priority : ℕ
code_invalid_priority = 1007

abbrev pub code_invalid_label : ℕ
code_invalid_label = 1008

abbrev pub code_missing_required : ℕ
code_missing_required = 1009

abbrev pub code_invalid_time_filter : ℕ
code_invalid_time_filter = 1010

abbrev pub code_invalid_import_mode : ℕ
code_invalid_import_mode = 1011

abbrev pub code_invalid_dependency : ℕ
code_invalid_dependency = 1012

abbrev pub code_invalid_parent_id : ℕ
code_invalid_parent_id = 1013

abbrev pub code_task_not_found : ℕ
code_task_not_found = 2001

abbrev pub code_task_id_exists : ℕ
code_task_id_exists = 2101

abbrev pub code_conflict : ℕ
code_conflict = 2102

unfoldable pub default_error_code_by_status : ℕ → ℕ
default_error_code_by_status status =
    if status == 400
    then 1000
    else if status == 401
    then 3001
    else if status == 403
    then 3002
    else if status == 404
    then 2001
    else if status == 409
    then 2102
    else if status == 429
    then 3003
    else if status == 500
    then 4001
    else if status == 501
    then 4005
    else 0

-- An error that already is an `apiError` with a status keeps its own status and codes.
keep_existing : Option ApiError → ApiError → Error
keep_existing none new = api new
keep_existing (some existing) new = if not (existing.status == 0) then api existing else api new

unfoldable pub make_api_error : ℕ → String → ℕ → Error → Error
unfolding keep_existing as_api
make_api_error status code err_code err =
    keep_existing (as_api err) (record { status = status; code = code; err_code = err_code })

unfoldable pub bad_request_code : Error → ℕ → Error
unfolding make_api_error
bad_request_code err code = make_api_error 400 "invalid_argument" code err

unfoldable pub bad_request : Error → Error
unfolding bad_request_code
bad_request err = bad_request_code err code_invalid_argument

unfoldable pub not_found_code : Error → ℕ → Error
unfolding make_api_error
not_found_code err code = make_api_error 404 "not_found" code err

unfoldable pub conflict_code : Error → ℕ → Error
unfolding make_api_error
conflict_code err code = make_api_error 409 "conflict" code err

unfoldable pub internal_error : Error → Error
unfolding make_api_error
internal_error err = make_api_error 500 "internal" 4001 err

unfoldable pub store_failure : Error → Error
unfolding make_api_error
store_failure err = make_api_error 500 "internal" 4002 err

status_or_500 : Option ApiError → ℕ
status_or_500 none = 500
status_or_500 (some e) = e.status

unfoldable pub http_status_from_error : Error → ℕ
unfolding status_or_500 as_api
http_status_from_error err = status_or_500 (as_api err)

numeric_or_default : ℕ → Option ApiError → ℕ
unfolding default_error_code_by_status
numeric_or_default status none = default_error_code_by_status status
numeric_or_default status (some e) =
    if ltb 0 e.err_code then e.err_code else default_error_code_by_status status

unfoldable pub error_numeric_code : ℕ → Error → ℕ
unfolding numeric_or_default as_api
error_numeric_code status err = numeric_or_default status (as_api err)

-- What `writeServiceError` puts into the response: the status and the numeric code.
unfoldable pub write_service_error : Error → ℕ × ℕ
unfolding http_status_from_error error_numeric_code
write_service_error err =
    let status = http_status_from_error err in (status, error_numeric_code status err)

unfoldable pub is_unique_constraint : Error → Bool
unfolding root
is_unique_constraint err = elim (root err) [ some unique_constraint ↦ true | _ ↦ false ]

unfoldable pub is_foreign_key_constraint : Error → Bool
unfolding root
is_foreign_key_constraint err = elim (root err) [ some foreign_key_constraint ↦ true | _ ↦ false ]

unfoldable pub is_project_mismatch : Error → Bool
unfolding root
is_project_mismatch err = elim (root err) [ some project_mismatch ↦ true | _ ↦ false ]

unfoldable pub is_task_not_found : Error → Bool
unfolding root
is_task_not_found err = elim (root err) [ some task_not_found ↦ true | _ ↦ false ]

-- A Go pair (T, error).
pub data Result {ℓ} (A : Type ℓ) : Type ℓ where
  ok : A → Result A
  err : Error → Result A

-- `if err != nil { return f(err) }`
abbrev pub map_err {ℓ} : {A : Type ℓ} → (Error → Error) → Result A → Result A
map_err f (ok a) = ok a
map_err f (err e) = err (f e)

-- The statements after `if err != nil { return err }`.
infixl 5 ◌>>=◌ ◌>>◌
abbrev pub ◌>>=◌ {ℓ μ} : {T : Type ℓ} {U : Type μ} → Result T → (T → Result U) → Result U
ok value >>= rest = rest value
err failure >>= rest = err failure

-- The result, if there is one, has the property.
abbrev pub IfOk {ℓ κ} : {A : Type ℓ} → (A → Type κ) → Result A → Type κ
IfOk P (ok a) = P a
IfOk P (err e) = Unit

-- An early return of an error, unless the test holds.
abbrev pub guard : Bool → Error → Result (Unit {0})
guard test failure = if test then ok tt else err failure

abbrev pub ◌>>◌ {μ} : {U : Type μ} → Result (Unit {0}) → Result U → Result U
checked >> rest = checked >>= λ nothing. rest
