-- ===== src/Store/Scripts/Tests.antt =====
-- The laboratory's script prints three bytes, and another script starts.
use imaged.Base.{zero, suc, ◌≡◌, refl, arith, some, [], ◌∷◌, find}
use imaged.Text.{Text, text}
use imaged.Error.{ok}
use imaged.Store.{ScriptRunRow}
use imaged.Store.Tests.{lab}
use imaged.Store.Scripts.{is_open_run, start_script_run}
use imaged.Store.Scripts.Kept.{IsUtf8}
use imaged.Store.Scripts.Append.{IsKept, start_script_run-IsKept}
use imaged.Store.Scripts.Recorded.{append_all, append_all-start_script_run}

-- Three letters, "set".
abbrev printed : Text
printed = 115 ∷ 101 ∷ 116 ∷ []

printed-IsUtf8 : IsUtf8 printed
printed-IsUtf8 zero = omega arith
printed-IsUtf8 (suc zero) = omega arith
printed-IsUtf8 (suc (suc zero)) = omega arith
printed-IsUtf8 (suc (suc (suc zero))) = omega arith
printed-IsUtf8 (suc (suc (suc (suc n)))) = omega arith

empty-IsUtf8 : IsUtf8 []
empty-IsUtf8 zero = omega arith
empty-IsUtf8 (suc n) = omega arith

-- What the laboratory's second script prints comes in three pieces, one of which is empty.
append_all-start_script_run_example :
    ((append_all
        (text "UNIQUE")
        1
        7
        1
        (printed ∷ [] ∷ printed ∷ [])
        (start_script_run (text "FOREIGN KEY") 125 1 7 1 (text "reboot") lab).1).0
      ≡ ok tt)
    × IsKept 1 7 1 6
        (append_all
          (text "UNIQUE")
          1
          7
          1
          (printed ∷ [] ∷ printed ∷ [])
          (start_script_run
            (text "FOREIGN KEY")
            125
            1
            7
            1
            (text "reboot")
            lab).1).1.script_run_output
append_all-start_script_run_example =
    append_all-start_script_run (text "UNIQUE") 1 7 1 (text "FOREIGN KEY") 125 (text "reboot")
      (printed ∷ [] ∷ printed ∷ []) lab refl (printed-IsUtf8, (empty-IsUtf8, (printed-IsUtf8, tt)))

start_script_run-IsKept_example :
    ((start_script_run (text "FOREIGN KEY") 125 1 7 1 (text "reboot") lab).0 ≡ ok tt)
    × (run : ScriptRunRow) × (find
          (is_open_run 1 7 1)
          (start_script_run (text "FOREIGN KEY") 125 1 7 1 (text "reboot") lab).1.script_runs
        ≡ some run)
    × (run.output_bytes ≡ 0)
    × IsKept 1 7 1 0
        (start_script_run (text "FOREIGN KEY") 125 1 7 1 (text "reboot") lab).1.script_run_output
start_script_run-IsKept_example =
    start_script_run-IsKept (text "FOREIGN KEY") 125 1 7 1 (text "reboot") lab refl
