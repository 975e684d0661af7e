-- ===== src/Error.antt =====
-- Errors and fallible results (crates/model/src/error.rs).
mod Tests
use imaged.Base.{
  ℕ, ◌++◌, ◌≡◌, ◌<◌, ◌≤◌, ◌∙◌, refl, sym, arith, Bool, true, false, Option, none, some,
}
use imaged.Text.{Text, text, decimal}

pub data AppError : Type 0 where
  not_found invalid_argument already_exists failed_precondition internal database : Text → AppError

pub data Result {ℓ} (A : Type ℓ) : Type ℓ where
  ok : A → Result A
  err : AppError → Result A

infixl 5 ◌>>=◌
-- The operator `?` inside a `do` block.
abbrev pub ◌>>=◌ {ℓ κ} : {A : Type ℓ} {B : Type κ} → Result A → (A → Result B) → Result B
err failure >>= next = err failure
ok value >>= next = next value

-- `ok_or_else`.
abbrev pub ok_or {ℓ} : {A : Type ℓ} → Option A → AppError → Result A
ok_or none e = err e
ok_or (some a) e = ok a

infixl 5 ◌>>◌
abbrev pub ◌>>◌ {ℓ} : {B : Type ℓ} → Result (Unit {0}) → Result B → Result B
first >> second = first >>= λ _. second

-- `if !b { return Err(e) }`.
abbrev pub ensure : Bool → AppError → Result (Unit {0})
ensure true e = ok tt
ensure false e = err e

abbrev pub is_ok {ℓ} : {A : Type ℓ} → Result A → Bool
is_ok (ok a) = true
is_ok (err e) = false

-- `sqlx::error::ErrorKind`, with SQLite's own message.
pub data DatabaseError : Type 0 where
  unique_violation foreign_key_violation not_null_violation check_violation other :
      Text → DatabaseError

-- `sqlx::Error`, with what the messages show of an inner error.
pub data SqlxError : Type 0 where
  row_not_found pool_timed_out pool_closed worker_crashed begin_failed : SqlxError
  invalid_save_point_statement unknown : SqlxError
  column_not_found io tls protocol argument type_not_found encode decode : Text → SqlxError
  configuration migrate any_driver_error : Text → SqlxError
  column_index_out_of_bounds : ℕ → ℕ → SqlxError
  column_decode : Text → Text → SqlxError
  database_error : DatabaseError → SqlxError

from_database : DatabaseError → AppError
from_database (unique_violation m) = already_exists m
from_database (foreign_key_violation m) = failed_precondition (text "foreign key violation: " ++ m)
from_database (not_null_violation m) = invalid_argument m
from_database (check_violation m) = invalid_argument m
from_database (other m) = database m

unfoldable pub from_sqlx : SqlxError → AppError
unfolding from_database
from_sqlx row_not_found = not_found (text "record not found")
from_sqlx (column_not_found name) = internal (text "column not found: " ++ name)
from_sqlx (column_index_out_of_bounds index len) = internal (
    text "column index out of bounds: "
    ++ (decimal index ++ (text " (len: " ++ (decimal len ++ text ")"))))
from_sqlx pool_timed_out = database (text "database pool timed out - server under heavy load")
from_sqlx pool_closed = internal (text "database pool was closed")
from_sqlx (database_error e) = from_database e
from_sqlx (io e) = database (text "IO error: " ++ e)
from_sqlx (tls e) = internal (text "TLS error: " ++ e)
from_sqlx (protocol e) = internal (text "protocol error: " ++ e)
from_sqlx (argument e) = invalid_argument e
from_sqlx (type_not_found name) = internal (text "type not found: " ++ name)
from_sqlx (column_decode index source) =
    internal (text "decode error at index " ++ (index ++ (text ": " ++ source)))
from_sqlx (encode e) = internal (text "encode error: " ++ e)
from_sqlx (decode e) = internal (text "decode error: " ++ e)
from_sqlx (configuration e) = internal (text "config error: " ++ e)
from_sqlx (migrate e) = internal (text "migration error: " ++ e)
from_sqlx worker_crashed = internal (text "internal worker crashed")
from_sqlx begin_failed = database (text "failed to start transaction")
from_sqlx invalid_save_point_statement = internal (text "invalid savepoint")
from_sqlx (any_driver_error e) = internal (text "driver error: " ++ e)
from_sqlx unknown = internal (text "an unexpected database error occurred")

-- `as_status_code`, an HTTP status.
unfoldable pub as_status_code : AppError → ℕ
as_status_code (not_found m) = 404
as_status_code (invalid_argument m) = 400
as_status_code (already_exists m) = 400
as_status_code (failed_precondition m) = 412
as_status_code (internal m) = 500
as_status_code (database m) = 500

abbrev hidden : Text
hidden = text "An internal server error occurred"

-- The status of the response, and the message in its body.
unfoldable pub into_response : AppError → ℕ × Text
into_response (not_found m) = (404, m)
into_response (invalid_argument m) = (400, m)
into_response (failed_precondition m) = (412, m)
into_response (internal m) = (500, hidden)
into_response (already_exists m) = (400, m)
into_response (database m) = (500, hidden)

pub ok_injective {ℓ} : {A : Type ℓ} (a b : A) → ok a ≡ ok b → a ≡ b
ok_injective a b h = cc

-- What follows a passed test has its result.
pub ensure_ok {ℓ} :
    {A : Type ℓ} (b : Bool) (e : AppError) (m : Result A) {a : A}
    → (ensure b e >>= λ _. m) ≡ ok a
    → (b ≡ true) × (m ≡ ok a)
ensure_ok true e m h = (refl, h)
ensure_ok false e m h = cc

-- What follows a result has the result of the whole.
pub bind_ok {ℓ κ} :
    {A : Type ℓ} {B : Type κ} (r : Result A) (next : A → Result B) (b : B)
    → (r >>= next) ≡ ok b
    → (a : A) × (r ≡ ok a) × (next a ≡ ok b)
bind_ok (err e) next b h = cc
bind_ok (ok a) next b h = (a, refl, h)

-- `to_string`.
unfoldable pub display : AppError → Text
display (not_found m) = text "not found: " ++ m
display (invalid_argument m) = text "invalid argument: " ++ m
display (already_exists m) = text "already exists: " ++ m
display (failed_precondition m) = text "failed precondition: " ++ m
display (internal m) = text "internal: " ++ m
display (database m) = text "database: " ++ m

abbrev pub message_of : AppError → Text
message_of (not_found m) = m
message_of (invalid_argument m) = m
message_of (already_exists m) = m
message_of (failed_precondition m) = m
message_of (internal m) = m
message_of (database m) = m

-- A response bears the status code of its error. With a code below 500 it shows the error's
-- message, and otherwise the same text for every error, which tells nothing of the cause.
pub into_response_lem :
    (e f : AppError)
    → ((into_response e).0 ≡ as_status_code e)
      × (as_status_code e < 500 → (into_response e).1 ≡ message_of e)
      × (500 ≤ as_status_code e
          → 500 ≤ as_status_code f
          → (into_response e).1 ≡ (into_response f).1)
unfolding into_response as_status_code
into_response_lem e f = (status e, shown e, covered e f)
  where
    status : (e : AppError) → (into_response e).0 ≡ as_status_code e
    status (not_found m) = refl
    status (invalid_argument m) = refl
    status (already_exists m) = refl
    status (failed_precondition m) = refl
    status (internal m) = refl
    status (database m) = refl

    shown : (e : AppError) → as_status_code e < 500 → (into_response e).1 ≡ message_of e
    shown (not_found m) h = refl
    shown (invalid_argument m) h = refl
    shown (already_exists m) h = refl
    shown (failed_precondition m) h = refl
    shown (internal m) h = ground arith
    shown (database m) h = ground arith

    body : (e : AppError) → 500 ≤ as_status_code e → (into_response e).1 ≡ hidden
    body (not_found m) h = ground arith
    body (invalid_argument m) h = ground arith
    body (already_exists m) h = ground arith
    body (failed_precondition m) h = ground arith
    body (internal m) h = refl
    body (database m) h = refl

    covered :
        (e f : AppError)
        → 500 ≤ as_status_code e
        → 500 ≤ as_status_code f
        → (into_response e).1 ≡ (into_response f).1
    covered e f h k = body e h ∙ sym (body f k)
