-- ===== src/Store/Scripts/Listing.antt =====
-- Reading the script runs of a host in a task, each with its output put together again
-- (`get_script_runs` and `assemble_output` in crates/core/src/repository/task.rs).
use imaged.Base.{
  ℕ, ◌+◌, ◌-◌, not, ◌&&◌, Option, List, [], ◌∷◌, ◌++◌, ◌==◌, ltb, if◌then◌else◌, map, keep, length,
  drop,
}
use imaged.Base.Int.{ℤ}
use imaged.Base.Sorting.{sort_by}
use imaged.Text.{Text, text, decimal}
use imaged.Store.{ScriptRunRow, ChunkRow, Db}
use imaged.Store.Scripts.{
  script_output_head_bytes, script_output_tail_bytes, is_chunk, ceil_char_boundary,
}

pub record ScriptRun : Type 0 where
  pub position : ℕ
  pub script_name : Text
  pub output : Text
  pub exit_code : Option ℤ
  pub started_at : ℕ
  pub finished_at : Option ℕ

abbrev concat : List ChunkRow → Text
concat [] = []
concat (c ∷ cs) = c.text ++ concat cs

-- The UTF-8 bytes of an ellipsis.
abbrev ellipsis : Text
ellipsis = 226 ∷ 128 ∷ 166 ∷ []

omission : ℕ → Text
omission n =
    text "\n["
    ++ ellipsis
    ++ text " "
    ++ decimal n
    ++ text " bytes of output omitted "
    ++ ellipsis
    ++ text "]\n"

-- The omission is printed if the tail begins behind the end of the head.
abbrev joined_tail : Text → ℕ → Text → ℕ → Text
unfolding omission
joined_tail output tail_start tail skip =
    (if ltb (length output) (tail_start + skip)
      then output ++ omission (tail_start + skip - length output)
      else output)
    ++ drop skip tail

assemble_tail : Text → List ChunkRow → Text
unfolding joined_tail ceil_char_boundary
assemble_tail output [] = output
assemble_tail output (c ∷ cs) =
    let tail = concat (c ∷ cs) in
    joined_tail output c.start tail
      (ceil_char_boundary tail (length tail - script_output_tail_bytes))

unfoldable pub assemble_output : List ChunkRow → Text
unfolding assemble_tail
assemble_output chunks =
    assemble_tail (concat (keep (λ c. ltb c.start script_output_head_bytes) chunks))
      (keep (λ c. not (ltb c.start script_output_head_bytes)) chunks)

chunks_of : ℕ → ℕ → ℕ → Db → List ChunkRow
chunks_of task_id host_id position db =
    sort_by (λ c. c.start) (keep (is_chunk task_id host_id position) db.script_run_output)

script_run : Db → ScriptRunRow → ScriptRun
unfolding assemble_output chunks_of
script_run db s = record {
  position = s.position;
  script_name = s.script_name;
  output = assemble_output (chunks_of s.task_id s.host_id s.position db);
  exit_code = s.exit_code;
  started_at = s.started_at;
  finished_at = s.finished_at;
}

unfoldable pub get_script_runs : ℕ → ℕ → Db → List ScriptRun
unfolding script_run
get_script_runs task_id host_id db = map (script_run db) (
    sort_by (λ s. s.position)
      (keep (λ s. s.task_id == task_id && s.host_id == host_id) db.script_runs))

-- The names and values of a host's inputs; a map from them has the last value of a name.
unfoldable pub get_inputs : ℕ → ℕ → Db → List (Text × Text)
get_inputs task_id host_id db =
    map (λ i. (i.name, i.value))
      (keep (λ i. i.task_id == task_id && i.host_id == host_id) db.task_host_inputs)
