-- ===== src/Errors.antt =====
-- src/ams/errors.py, and the exceptions of Python that the modelled code raises or catches.
use accumulative_matrix_swee.Prelude.{◌≡◌, refl, ◌⊎◌, inl, inr, Bool, true, false}

pub data ErrorCategory : Type 0 where
  preflight «package» integrity capability plan resource io backend numeric : ErrorCategory
  transaction deadline cancelled internal : ErrorCategory

pub data ErrorCode : Type 0 where
  preflight_no_backing preflight_no_working_set unsupported_op invalid_package : ErrorCode
  integrity_failure signature_failure capability_mismatch plan_invalid : ErrorCode
  reservation_lost broker_violation io_failure backend_failure numeric_failure : ErrorCode
  transaction_failure deadline_exceeded cancelled internal_invariant : ErrorCode

-- `_CATEGORY_BY_CODE`
unfoldable pub category : ErrorCode → ErrorCategory
category preflight_no_backing = preflight
category preflight_no_working_set = preflight
category unsupported_op = capability
category invalid_package = «package»
category integrity_failure = integrity
category signature_failure = integrity
category capability_mismatch = capability
category plan_invalid = plan
category reservation_lost = resource
category broker_violation = resource
category io_failure = io
category backend_failure = backend
category numeric_failure = numeric
category transaction_failure = transaction
category deadline_exceeded = deadline
category ErrorCode.cancelled = ErrorCategory.cancelled
category internal_invariant = internal

-- What a call may raise: an `AmsError` with its code and its `retriable` flag, or one of Python's
-- own exceptions. `diverged` is none of the code: it marks a loop that would go on where the model's
-- fuel is used up.
pub data Exception : Type 0 where
  ams : ErrorCode → Bool → Exception
  os_error overflow_error value_error key_error recursion_error diverged : Exception

pub data Result {ℓ} (A : Type ℓ) : Type ℓ where
  err : Exception → Result A
  ok : A → Result A

-- `raise AmsError(code, …)`, and the same with `retriable=True`.
abbrev pub raise {ℓ} : {A : Type ℓ} → ErrorCode → Result A
raise code = err (ams code false)

abbrev pub raise_retriable {ℓ} : {A : Type ℓ} → ErrorCode → Result A
raise_retriable code = err (ams code true)

-- Statements in sequence: what was raised ends the block.
infixl 5 ◌>>=◌
abbrev pub ◌>>=◌ {κ ℓ} : {B : Type κ} {A : Type ℓ} → Result B → (B → Result A) → Result A
err raised >>= next = err raised
ok value >>= next = next value

infixl 5 ◌>>◌
abbrev pub ◌>>◌ {κ ℓ} : {B : Type κ} {A : Type ℓ} → Result B → Result A → Result A
first >> rest = first >>= λ _. rest

-- `if condition: raise AmsError(code, …)`
abbrev pub raise_if : Bool → ErrorCode → Result (Unit {0})
raise_if true code = raise code
raise_if false code = ok tt

abbrev pub is_ok {ℓ} : {A : Type ℓ} → Result A → Bool
is_ok (ok _) = true
is_ok (err _) = false

-- `except AmsError: raise` with `except OSError → raise AmsError(code, …, retriable=True)`.
abbrev pub translate_os_error {ℓ} : {A : Type ℓ} → ErrorCode → Result A → Result A
translate_os_error code (err os_error) = raise_retriable code
translate_os_error code r = r

pub Result-cases {ℓ} :
    {A : Type ℓ} (r : Result A) → ((a : A) × (r ≡ ok a)) ⊎ ((e : Exception) × (r ≡ err e))
Result-cases (ok a) = inl (a, refl)
Result-cases (err e) = inr (e, refl)

-- A block that returned went through its first statement.
pub >>=-eq-ok {κ ℓ} :
    {B : Type κ} {A : Type ℓ} (first : Result B) (next : B → Result A) {result : A}
    → (first >>= next) ≡ ok result
    → (value : B) × (first ≡ ok value) × (next value ≡ ok result)
>>=-eq-ok (err raised) next returned = absurd (cc)
>>=-eq-ok (ok value) next returned = (value, refl, returned)

pub ok-injective {ℓ} : {A : Type ℓ} {a b : A} → ok a ≡ ok b → a ≡ b
ok-injective h = cc
