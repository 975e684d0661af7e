-- ===== src/Progress/Tests.antt =====
-- Two hosts that report for different tasks.
use imaged.Base.{ℕ, ◌≡◌, refl, none, [], ◌∷◌}
use imaged.Base.Assoc.{get}
use imaged.Progress.{HostProgress, Snapshot, finishing, grouped}
use imaged.Progress.Grouped.{shown, multicast_shown, if_of, if_multicast_of, grouped_lem}

abbrev reporting : ℕ → HostProgress ℕ
reporting task_id = record { task_id = task_id; fraction = 1; stage = finishing }

abbrev board : Snapshot ℕ
board = record { hosts = (1, reporting 10) ∷ (3, reporting 11) ∷ []; multicast = none }

grouped_lem_example :
    (shown 11 3 (grouped board) ≡ if_of 11 (get 3 board.hosts) none)
    × (multicast_shown 11 (grouped board) ≡ if_multicast_of 11 board.multicast)
unfolding get
grouped_lem_example = grouped_lem board 11 3 (refl, (refl, tt))
