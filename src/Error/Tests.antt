-- ===== src/Error/Tests.antt =====
-- The responses to two errors.
use imaged.Base.{◌≡◌, ◌<◌, ◌≤◌}
use imaged.Text.{text}
use imaged.Error.{
  AppError, not_found, database, as_status_code, into_response, message_of, into_response_lem,
}

abbrev missing : AppError
missing = not_found (text "record not found")

abbrev busy : AppError
busy = database (text "database is locked")

into_response_lem_example :
    ((into_response missing).0 ≡ as_status_code missing)
    × (as_status_code missing < 500 → (into_response missing).1 ≡ message_of missing)
    × (500 ≤ as_status_code missing
        → 500 ≤ as_status_code busy
        → (into_response missing).1 ≡ (into_response busy).1)
into_response_lem_example = into_response_lem missing busy
