-- ===== src/Store/Scripts.antt =====
-- The script runs of a host in a task, and their output, of which only a head and a tail are kept
-- (crates/core/src/repository/task.rs).
-- A text is its UTF-8 bytes, so the length of one is its number of bytes.
pub mod Append
pub mod Kept
pub mod Listing
pub mod Recorded
mod Tests
use imaged.Base.{
  ℕ, zero, suc, ◌+◌, ◌-◌, Bool, true, false, not, ◌&&◌, Option, none, some, List, [], ◌∷◌, ◌++◌,
  ◌==◌, ltb, leb, if◌then◌else◌, map, any, keep, find, update_where, length, take, drop, is_some,
}
use imaged.Base.Int.{ℤ}
use imaged.Text.{Text, text, decimal}
use imaged.Error.{
  Result, ok, err, AppError, invalid_argument, from_sqlx, database_error, unique_violation,
  foreign_key_violation,
}
use imaged.Store.{ScriptRunRow, ChunkRow, Db, is_row}

-- `SCRIPT_OUTPUT_HEAD_BYTES` and `SCRIPT_OUTPUT_TAIL_BYTES`.
abbrev pub script_output_head_bytes : ℕ
script_output_head_bytes = 65536

abbrev pub script_output_tail_bytes : ℕ
script_output_tail_bytes = 262144

abbrev pub is_run : ℕ → ℕ → ℕ → ScriptRunRow → Bool
is_run task_id host_id position s =
    s.task_id == task_id && (s.host_id == host_id && s.position == position)

abbrev pub is_open_run : ℕ → ℕ → ℕ → ScriptRunRow → Bool
is_open_run task_id host_id position s =
    is_run task_id host_id position s && not (is_some s.finished_at)

abbrev pub is_chunk : ℕ → ℕ → ℕ → ChunkRow → Bool
is_chunk task_id host_id position c =
    c.task_id == task_id && (c.host_id == host_id && c.position == position)

no_running_script : ℕ → ℕ → ℕ → AppError
no_running_script task_id host_id position = invalid_argument (
    text "script "
    ++ decimal position
    ++ text " of task "
    ++ decimal task_id
    ++ text " is not running on host "
    ++ decimal host_id)

-- The bytes that go on a character.
abbrev pub is_continuation : ℕ → Bool
is_continuation b = leb 128 b && ltb b 192

abbrev pub continuations : Text → ℕ
continuations [] = 0
continuations (b ∷ bs) = let more = continuations bs in if is_continuation b then suc more else 0

-- The first character boundary from `index` on; the beginning and the end of a text are boundaries.
unfoldable pub ceil_char_boundary : Text → ℕ → ℕ
ceil_char_boundary text index =
    let i = if leb index (length text) then index else length text in
    if i == 0 then 0 else i + continuations (drop i text)

keep_tail : ℕ → Text → List (ℕ × Text)
unfolding ceil_char_boundary
keep_tail rest_start [] = []
keep_tail rest_start (b ∷ bs) =
    let rest = b ∷ bs in
    let skip = ceil_char_boundary rest (length rest - script_output_tail_bytes) in
    (rest_start + skip, drop skip rest) ∷ []

unfoldable pub kept_output : ℕ → Text → List (ℕ × Text)
unfolding keep_tail ceil_char_boundary
kept_output start text =
    let cut = ceil_char_boundary text (script_output_head_bytes - start) in
    if ltb start script_output_head_bytes
    then (start, take cut text) ∷ keep_tail (start + cut) (drop cut text)
    else keep_tail start text

unfoldable pub chunk_row : ℕ → ℕ → ℕ → ℕ × Text → ChunkRow
chunk_row task_id host_id position c = record {
  task_id = task_id;
  host_id = host_id;
  position = position;
  start = c.0;
  text = c.1;
}

-- `start >= head_end AND start + length(text) <= tail_start`, of which the tail's start may be
-- negative.
abbrev pub is_middle : ℕ → ChunkRow → Bool
is_middle total c =
    leb script_output_head_bytes c.start
    && leb (c.start + length c.text + script_output_tail_bytes) total

-- The statements of `append_script_output` once the run is known, of which `before` bytes are
-- written: its primary key lets a chunk begin where none does.
store_output : ℕ → ℕ → ℕ → ℕ → Text → List ChunkRow → List ChunkRow
unfolding kept_output chunk_row
store_output task_id host_id position before output chunks =
    keep (λ c. not (is_chunk task_id host_id position c && is_middle (before + length output) c))
      (chunks ++ map (chunk_row task_id host_id position) (kept_output before output))

-- Whether a chunk to be inserted begins where a chunk of the run does.
abbrev is_taken : ℕ → ℕ → ℕ → List ChunkRow → List (ℕ × Text) → Bool
is_taken task_id host_id position chunks new =
    any (λ k. any (λ c. is_chunk task_id host_id position c && c.start == k.0) chunks) new

append_to : Text → ℕ → ℕ → ℕ → Text → Db → Option ScriptRunRow → Result (Unit {0}) × Db
unfolding store_output kept_output no_running_script
append_to unique task_id host_id position output db none =
    (err (no_running_script task_id host_id position), db)
append_to unique task_id host_id position output db (some run) =
    if is_taken task_id host_id position db.script_run_output (kept_output run.output_bytes output)
    then (err (from_sqlx (database_error (unique_violation unique))), db)
    else (
      ok tt,
      record db {
        script_runs =
            update_where (is_open_run task_id host_id position)
              (λ s. record s { output_bytes = s.output_bytes + length output }) db.script_runs;
        script_run_output =
            store_output task_id host_id position run.output_bytes output db.script_run_output;
      },
    )

-- `unique` is the message of SQLite's constraint error.
unfoldable pub append_script_output : Text → ℕ → ℕ → ℕ → Text → Db → Result (Unit {0}) × Db
unfolding append_to
append_script_output unique task_id host_id position output db =
    append_to unique task_id host_id position output db
      (find (is_open_run task_id host_id position) db.script_runs)

-- Runs from `position` on are deleted, and their output with them; the new run refers to a row of
-- `task_hosts`, or fails with `foreign`.
unfoldable pub start_script_run : Text → ℕ → ℕ → ℕ → ℕ → Text → Db → Result (Unit {0}) × Db
start_script_run foreign now task_id host_id position script_name db =
    if not (any (is_row task_id host_id) db.task_hosts)
    then (err (from_sqlx (database_error (foreign_key_violation foreign))), db)
    else (
      ok tt,
      record db {
        script_runs =
            keep
              (λ s. not (s.task_id == task_id && (s.host_id == host_id && leb position s.position)))
              db.script_runs
            ++ record {
              task_id = task_id;
              host_id = host_id;
              position = position;
              script_name = script_name;
              exit_code = none;
              output_bytes = 0;
              started_at = now;
              finished_at = none;
            }
              ∷ [];
        script_run_output =
            keep
              (λ c. not (c.task_id == task_id && (c.host_id == host_id && leb position c.position)))
              db.script_run_output;
      },
    )

unfoldable pub finish_script_run : ℕ → ℕ → ℕ → ℕ → Option ℤ → Db → Result (Unit {0}) × Db
unfolding no_running_script
finish_script_run now task_id host_id position exit_code db =
    if any (is_open_run task_id host_id position) db.script_runs
    then (
      ok tt,
      record db {
        script_runs =
            update_where (is_open_run task_id host_id position)
              (λ s. record s { exit_code = exit_code; finished_at = some now }) db.script_runs;
      },
    )
    else (err (no_running_script task_id host_id position), db)
