-- ===== src/Store/Scripts/Recorded.antt =====
-- What is recorded of a script's output, one piece after the other (`append` in
-- crates/core/src/service/script_output.rs).
use imaged.Base.{
  ℕ, ◌+◌, ◌≡◌, refl, sym, ap, arith, true, some, List, [], ◌∷◌, length, any, find, All,
  update_where, Bool-cases, inl, inr,
}
use mathlib.Core.Path.{subst}
use mathlib.Core.Option.{some-injective}
use imaged.Text.{Text}
use imaged.Error.{Result, ok, err}
use imaged.Store.{ScriptRunRow, Db, is_row}
use imaged.Store.Scripts.{
  is_open_run, is_taken, kept_output, append_to, append_script_output, start_script_run,
}
use imaged.Store.Scripts.Kept.{IsUtf8}
use imaged.Store.Scripts.Append.{IsKept, append_script_output-IsKept, start_script_run-IsKept}

module _ (unique : Text) (t h p : ℕ) where
  -- `append`: an empty piece is not passed on.
  unfoldable pub append : Text → Db → Result (Unit {0}) × Db
  append [] db = (ok tt, db)
  append (b ∷ bs) db = append_script_output unique t h p (b ∷ bs) db

  -- The pieces in their order, up to the first that fails.
  unfoldable pub append_all : List Text → Db → Result (Unit {0}) × Db
  unfolding append
  append_all [] db = (ok tt, db)
  append_all (piece ∷ pieces) db =
      let (result, left) = append piece db in
      elim result [ ok done ↦ append_all pieces left | err e ↦ (err e, left) ]

-- How many bytes are written.
abbrev pub length_all : List Text → ℕ
length_all [] = 0
length_all (piece ∷ pieces) = length piece + length_all pieces

abbrev counted : ℕ → ScriptRunRow → ScriptRunRow
counted n s = record s { output_bytes = s.output_bytes + n }

find-counted :
    (t h p n : ℕ) (run : ScriptRunRow) (runs : List ScriptRunRow)
    → find (is_open_run t h p) runs ≡ some run
    → find (is_open_run t h p) (update_where (is_open_run t h p) (counted n) runs)
      ≡ some (counted n run)
find-counted t h p n run [] e = cc
find-counted t h p n run (s ∷ runs) e = elim (Bool-cases (is_open_run t h p s)) [
  | inl here ↦
      rw here (rw here (ap (λ x. some (counted n x)) (some-injective s run (rw here at e))))
  | inr there ↦ rw there (rw there (find-counted t h p n run runs (rw there at e)))
]

module _ (unique : Text) (t h p : ℕ) where
  -- The run stays open, and counts what was appended.
  append_script_output-counted :
      (output : Text) (run : ScriptRunRow) (db : Db)
      → find (is_open_run t h p) db.script_runs ≡ some run
      → (append_script_output unique t h p output db).0 ≡ ok tt
      → find (is_open_run t h p) (append_script_output unique t h p output db).1.script_runs
        ≡ some (counted (length output) run)
  unfolding append_script_output
  append_script_output-counted output run db found done =
      let taken = is_taken t h p db.script_run_output (kept_output run.output_bytes output) in
      elim (Bool-cases taken) [
        | inl e ↦ let q = rw (found, append_to, e) at done in cc
        | inr e ↦
            rw (found, append_to, e) (find-counted t h p (length output) run db.script_runs found)
      ]

  append_all-IsKept :
      (pieces : List Text) (run : ScriptRunRow) (db : Db)
      → find (is_open_run t h p) db.script_runs ≡ some run
      → All IsUtf8 pieces
      → IsKept t h p run.output_bytes db.script_run_output
      → ((append_all unique t h p pieces db).0 ≡ ok tt)
        × IsKept t h p
            (run.output_bytes + length_all pieces)
            (append_all unique t h p pieces db).1.script_run_output
  unfolding append_all
  append_all-IsKept [] run db found u v =
      let e : run.output_bytes ≡ run.output_bytes + 0 = omega arith in
      (refl, subst (λ n. IsKept t h p n db.script_run_output) e v)
  append_all-IsKept ([] ∷ pieces) run db found u v =
      let (done, kept) = append_all-IsKept pieces run db found u.1 v in
      let e : run.output_bytes + length_all pieces ≡ run.output_bytes + (0 + length_all pieces) =
        omega arith in
      (
        done,
        subst (λ n. IsKept t h p n (append_all unique t h p pieces db).1.script_run_output) e kept,
      )
  append_all-IsKept ((b ∷ bs) ∷ pieces) run db found u v =
      let piece : Text = b ∷ bs in
      let (done, kept) =
        append_script_output-IsKept unique t h p piece run db found u.0 (omega arith) v in
      let left = (append_script_output unique t h p piece db).1 in
      let (done', kept') =
        append_all-IsKept pieces (counted (length piece) run) left
          (append_script_output-counted piece run db found done) u.1 kept in
      let e : run.output_bytes + length piece + length_all pieces
          ≡ run.output_bytes + (length piece + length_all pieces) =
        omega arith in
      rw (done, append_all)
        (
          done',
          subst (λ n. IsKept t h p n (append_all unique t h p pieces left).1.script_run_output) e
              kept',
        )

  -- A script is started on a host of its task, and the pieces of its output, which may be empty,
  -- are appended in their order. Then every piece is accepted. Each stored chunk of the run begins
  -- within the bytes of all pieces, and each position in the head and in the tail of these, the
  -- tail's first three bytes aside, lies within a stored chunk.
  pub append_all-start_script_run :
      (foreign : Text) (now : ℕ) (name : Text) (pieces : List Text) (db : Db)
      → any (is_row t h) db.task_hosts ≡ true
      → All IsUtf8 pieces
      → ((append_all unique t h p pieces (start_script_run foreign now t h p name db).1).0 ≡ ok tt)
        × IsKept t h p
            (length_all pieces)
            (append_all unique t h p pieces
              (start_script_run foreign now t h p name db).1).1.script_run_output
  append_all-start_script_run foreign now name pieces db there u =
      let begun = (start_script_run foreign now t h p name db).1 in
      let (_, run, open_run, empty, kept) =
        start_script_run-IsKept foreign now t h p name db there in
      let (done, kept') =
        append_all-IsKept pieces run begun open_run u
          (subst (λ n. IsKept t h p n begun.script_run_output) (sym empty) kept) in
      let e : run.output_bytes + length_all pieces ≡ length_all pieces = omega (arith, empty) in
      (
        done,
        subst (λ n. IsKept t h p n (append_all unique t h p pieces begun).1.script_run_output) e
            kept',
      )
