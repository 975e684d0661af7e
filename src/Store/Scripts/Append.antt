-- ===== src/Store/Scripts/Append.antt =====
-- What starting a script and appending to its output does to the chunks of the run.
use imaged.Base.{
  ℕ, ◌+◌, ◌≤◌, ◌<◌, ◌≡◌, refl, ◌∙◌, arith, true, false, not, ◌&&◌, some, List, [], ◌∷◌, ◌++◌, ◌==◌,
  ltb, leb, map, any, keep, find, length, All, Bool-cases, inl, inr,
}
use imaged.Text.{Text}
use imaged.Error.{ok}
use imaged.Store.{ScriptRunRow, ChunkRow, Db, is_row}
use imaged.Store.Scripts.{
  is_open_run, is_chunk, kept_output, chunk_row, is_middle, store_output, is_taken, append_to,
  append_script_output, start_script_run,
}
use imaged.Base.Sublists.{All_mono, All-append, All-map, All-keep, any-keep, any-append}
use imaged.Store.Scripts.Kept.{
  IsUtf8, Protected, holds_byte, holds_byte_of, kept_output-holds, kept_output-starts,
}

any-chunk_row :
    (t h p i : ℕ) (ks : List (ℕ × Text))
    → any (holds_byte_of t h p i) (map (chunk_row t h p) ks) ≡ any (holds_byte i) ks
unfolding chunk_row
any-chunk_row t h p i [] = refl
any-chunk_row t h p i (k ∷ ks) = ground (arith, any-chunk_row t h p i ks)

-- The chunks of a run of which `total` bytes are written: each begins within them, and together
-- they hold every protected byte.
pub record IsKept (t h p total : ℕ) (chunks : List ChunkRow) : Type 0 where
  pub begins : All (λ c. is_chunk t h p c ≡ true → c.start < total) chunks
  pub covers : (i : ℕ) → Protected total i → any (holds_byte_of t h p i) chunks ≡ true

covers-new :
    (t h p before i : ℕ) (output : Text) (chunks : List ChunkRow)
    → IsUtf8 output
    → IsKept t h p before chunks
    → Protected (before + length output) i
    → any (holds_byte_of t h p i) (chunks ++ map (chunk_row t h p) (kept_output before output))
      ≡ true
covers-new t h p before i output chunks u v protected =
    any-append (holds_byte_of t h p i) chunks (map (chunk_row t h p) (kept_output before output))
    ∙ elim (Bool-cases (ltb i before)) [
      | inl old ↦
          let held = v.covers i (ground (arith, old), ground (arith, old, protected)) in
          rw held refl
      | inr fresh ↦
          let held = kept_output-holds before i output u (ground (arith, fresh)) protected in
          rw (any-chunk_row t h p i (kept_output before output), held) (ground arith)
    ]

store_output-IsKept :
    (t h p before : ℕ) (output : Text) (chunks : List ChunkRow)
    → IsUtf8 output
    → 0 < length output
    → IsKept t h p before chunks
    → IsKept t h p (before + length output) (store_output t h p before output chunks)
unfolding store_output chunk_row
store_output-IsKept t h p before output chunks u z v =
    let total = before + length output in
    let new = map (chunk_row t h p) (kept_output before output) in
    let within = λ (c : ChunkRow). is_chunk t h p c ≡ true → c.start < total in
    record {
      begins =
          All-keep within (λ c. not (is_chunk t h p c && is_middle total c)) (chunks ++ new)
            (All-append within chunks new (All_mono chunks (λ c b e. omega (arith, b e)) v.begins) (
              All-map within (chunk_row t h p) (kept_output before output) (
                All_mono (kept_output before output) (λ k s e. s.1)
                  (kept_output-starts before output u z))));
      covers = λ i protected.
          any-keep (holds_byte_of t h p i) (λ c. not (is_chunk t h p c && is_middle total c))
            (chunks ++ new) (λ c e. ground (arith, protected))
            (covers-new t h p before i output chunks u v protected);
    }

fresh_start :
    (t h p before start : ℕ) (chunks : List ChunkRow)
    → All (λ c. is_chunk t h p c ≡ true → c.start < before) chunks
    → before ≤ start
    → any (λ c. is_chunk t h p c && c.start == start) chunks ≡ false
fresh_start t h p before start [] v a = refl
fresh_start t h p before start (c ∷ cs) v a =
    ground (arith, v.0, fresh_start t h p before start cs v.1 a)

none_taken :
    (t h p before total : ℕ) (chunks : List ChunkRow) (new : List (ℕ × Text))
    → All (λ c. is_chunk t h p c ≡ true → c.start < before) chunks
    → All (λ k. (before ≤ k.0) × (k.0 < total)) new
    → is_taken t h p chunks new ≡ false
none_taken t h p before total chunks [] v w = refl
none_taken t h p before total chunks (k ∷ ks) v w =
    rw (fresh_start t h p before k.0 chunks v w.0.0) (none_taken t h p before total chunks ks v w.1)

-- If each stored chunk of an open run begins within the output so far, and each position in the head
-- and in the tail of that, the tail's first three bytes aside, lies within a stored chunk, then
-- appending output that is not empty succeeds, and the same holds of the longer output.
pub append_script_output-IsKept :
    (unique : Text) (t h p : ℕ) (output : Text) (run : ScriptRunRow) (db : Db)
    → find (is_open_run t h p) db.script_runs ≡ some run
    → IsUtf8 output
    → 0 < length output
    → IsKept t h p run.output_bytes db.script_run_output
    → ((append_script_output unique t h p output db).0 ≡ ok tt)
      × IsKept t h p
          (run.output_bytes + length output)
          (append_script_output unique t h p output db).1.script_run_output
unfolding append_script_output
append_script_output-IsKept unique t h p output run db found u z v =
    let before = run.output_bytes in
    let free =
      none_taken t h p before (before + length output) db.script_run_output
        (kept_output before output) v.begins (kept_output-starts before output u z) in
    rw (found, append_to)
      (rw free (refl, store_output-IsKept t h p before output db.script_run_output u z v))

All_of_keep :
    (t h p : ℕ) (chunks : List ChunkRow)
    → All
        (λ c. is_chunk t h p c ≡ true → c.start < 0)
        (keep (λ c. not (c.task_id == t && (c.host_id == h && leb p c.position))) chunks)
All_of_keep t h p [] = tt
All_of_keep t h p (c ∷ cs) =
    elim (Bool-cases (not (c.task_id == t && (c.host_id == h && leb p c.position)))) [
      | inl kept ↦ rw kept ((λ e. ground (arith, kept, e)), All_of_keep t h p cs)
      | inr gone ↦ rw gone (All_of_keep t h p cs)
    ]

find-append_keep :
    (t h p : ℕ) (new : ScriptRunRow) (runs : List ScriptRunRow)
    → is_open_run t h p new ≡ true
    → find
        (is_open_run t h p)
        (keep (λ s. not (s.task_id == t && (s.host_id == h && leb p s.position))) runs ++ new ∷ [])
      ≡ some new
find-append_keep t h p new [] e = rw e refl
find-append_keep t h p new (s ∷ runs) e =
    elim (Bool-cases (not (s.task_id == t && (s.host_id == h && leb p s.position)))) [
      | inl kept ↦
          let other : is_open_run t h p s ≡ false = ground (arith, kept) in
          rw (kept, other) (find-append_keep t h p new runs e)
      | inr gone ↦ rw gone (find-append_keep t h p new runs e)
    ]

-- Starting a script on a host of the task succeeds, whatever ran at its position before: its run
-- is open, nothing of its output is written, and none of an earlier run's output is left.
pub start_script_run-IsKept :
    (foreign : Text) (now t h p : ℕ) (name : Text) (db : Db)
    → any (is_row t h) db.task_hosts ≡ true
    → ((start_script_run foreign now t h p name db).0 ≡ ok tt)
      × (run : ScriptRunRow) × (find
            (is_open_run t h p)
            (start_script_run foreign now t h p name db).1.script_runs
          ≡ some run)
      × (run.output_bytes ≡ 0)
      × IsKept t h p 0 (start_script_run foreign now t h p name db).1.script_run_output
unfolding start_script_run
start_script_run-IsKept foreign now t h p name db e = rw e (
  refl,
  _,
  find-append_keep t h p _ db.script_runs (ground arith),
  refl,
  record {
    begins = All_of_keep t h p db.script_run_output;
    covers = λ i protected. ground (arith, protected);
  },
)
