-- ===== src/Task/Aggregate.antt =====
-- What the status of a task says of its hosts (`aggregate_state`).
use imaged.Base.{
  Bool, true, not, ◌&&◌, ◌||◌, ◌≡◌, ◌≢◌, ◌↔◌, refl, List, [], ◌∷◌, arith, any, all, All, ap, sym,
  ◌∙◌,
}
use imaged.Task.{
  TaskState, pending, running, done, failed, cancelled, partial, is_state, is_active, aggregate,
  aggregate_some,
}

-- Some host of the list is in a state that the test accepts.
abbrev pub Some : (TaskState → Bool) → List TaskState → Type 0
Some p ss = any p ss ≡ true

abbrev pub Every : (TaskState → Bool) → List TaskState → Type 0
Every p ss = all p ss ≡ true

not-all-any :
    (p : TaskState → Bool) (ss : List TaskState) → all p ss ≡ not (any (λ s. not (p s)) ss)
not-all-any p [] = refl
not-all-any p (s ∷ ss) = ground (arith, not-all-any p ss)

-- A host of a task is in one of the five states that a row can have.
abbrev pub IsRowState : TaskState → Type 0
IsRowState s = s ≢ partial

-- An independent reading of the statuses: the meaning of each, over the states of the hosts.
abbrev pub Means : TaskState → List TaskState → Type 0
Means pending ss = (ss ≢ []) × Every (λ s. is_state s pending) ss
Means running ss = Some is_active ss × Some (λ s. not (is_state s pending)) ss
Means done ss = (ss ≢ []) × Every (λ s. is_state s done) ss
Means failed ss =
    Every (λ s. is_state s failed || is_state s cancelled) ss × Some (λ s. is_state s failed) ss
Means cancelled ss = Every (λ s. is_state s cancelled) ss
Means partial ss =
    Every (λ s. not (is_active s)) ss
    × Some (λ s. is_state s done) ss
    × Some (λ s. not (is_state s done)) ss

-- Whether a host of the list is in the state `t`.
abbrev in_state : TaskState → List TaskState → Bool
in_state t ss = any (λ s. is_state s t) ss

-- On the states of rows every test is decided by which states occur.
abbrev splits : (TaskState → Bool) → List TaskState → Bool
splits p ss =
    (p pending && in_state pending ss)
    || ((p running && in_state running ss)
        || ((p done && in_state done ss)
            || ((p failed && in_state failed ss) || (p cancelled && in_state cancelled ss))))

any_one :
    (p : TaskState → Bool) (s : TaskState) (b : Bool) (ss : List TaskState)
    → IsRowState s
    → b ≡ splits p ss
    → (p s || b) ≡ splits p (s ∷ ss)
any_one p pending b ss h e = ground arith
any_one p running b ss h e = ground arith
any_one p done b ss h e = ground arith
any_one p failed b ss h e = ground arith
any_one p cancelled b ss h e = ground arith
any_one p partial b ss h e = absurd (h refl)

any-splits :
    (p : TaskState → Bool) (ss : List TaskState) → All IsRowState ss → any p ss ≡ splits p ss
any-splits p [] h = ground arith
any-splits p (s ∷ ss) h = any_one p s (any p ss) ss h.0 (any-splits p ss h.1)

all-splits :
    (p : TaskState → Bool) (ss : List TaskState)
    → All IsRowState ss
    → all p ss ≡ not (splits (λ s. not (p s)) ss)
all-splits p ss h = not-all-any p ss ∙ ap not (any-splits (λ s. not (p s)) ss h)

some_state :
    (s : TaskState) (ss : List TaskState)
    → All IsRowState (s ∷ ss)
    → splits (λ _. true) (s ∷ ss) ≡ true
some_state s ss h = sym (any-splits (λ _. true) (s ∷ ss) h)

-- The meanings over a list that is not empty.
abbrev MeansSome : TaskState → List TaskState → Type 0
MeansSome pending ss = Every (λ s. is_state s pending) ss
MeansSome running ss = Some is_active ss × Some (λ s. not (is_state s pending)) ss
MeansSome done ss = Every (λ s. is_state s done) ss
MeansSome failed ss =
    Every (λ s. is_state s failed || is_state s cancelled) ss × Some (λ s. is_state s failed) ss
MeansSome cancelled ss = Every (λ s. is_state s cancelled) ss
MeansSome partial ss =
    Every (λ s. not (is_active s)) ss
    × Some (λ s. is_state s done) ss
    × Some (λ s. not (is_state s done)) ss

module _ (l : List TaskState) (rows : All IsRowState l)
    (some_row : splits (λ _. true) l ≡ true) where
  -- Every test of the code and of the meanings, by which states occur.
  tests :
      (any is_active l ≡ splits is_active l)
      × (any (λ s. not (is_state s pending)) l ≡ splits (λ s. not (is_state s pending)) l)
      × (any (λ s. not (is_state s done)) l ≡ splits (λ s. not (is_state s done)) l)
      × (all (λ s. is_state s pending) l ≡ not (splits (λ s. not (is_state s pending)) l))
      × (all (λ s. is_state s done) l ≡ not (splits (λ s. not (is_state s done)) l))
      × (all (λ s. is_state s cancelled) l ≡ not (splits (λ s. not (is_state s cancelled)) l))
      × (all (λ s. not (is_active s)) l ≡ not (splits (λ s. not (not (is_active s))) l))
      × (all (λ s. is_state s failed || is_state s cancelled) l
          ≡ not (splits (λ s. not (is_state s failed || is_state s cancelled)) l))
  tests = (
    any-splits _ l rows,
    any-splits _ l rows,
    any-splits _ l rows,
    all-splits _ l rows,
    all-splits _ l rows,
    all-splits _ l rows,
    all-splits _ l rows,
    all-splits _ l rows,
  )

  aggregate_some-MeansSome : (t : TaskState) → aggregate_some l ≡ t → MeansSome t l
  unfolding aggregate_some
  aggregate_some-MeansSome pending e = ground (arith, tests)
  aggregate_some-MeansSome _ e = ground (arith, tests)

  MeansSome-aggregate_some : (t : TaskState) → MeansSome t l → aggregate_some l ≡ t
  unfolding aggregate_some
  MeansSome-aggregate_some pending e = ground (arith, tests)
  MeansSome-aggregate_some _ e = ground (arith, tests)

MeansSome-Means : (t s : TaskState) (ss : List TaskState) → MeansSome t (s ∷ ss) ↔ Means t (s ∷ ss)
MeansSome-Means pending s ss = (λ h. (λ e. cc, h), λ h. h.1)
MeansSome-Means running s ss = (λ h. h, λ h. h)
MeansSome-Means done s ss = (λ h. (λ e. cc, h), λ h. h.1)
MeansSome-Means failed s ss = (λ h. h, λ h. h)
MeansSome-Means cancelled s ss = (λ h. h, λ h. h)
MeansSome-Means partial s ss = (λ h. h, λ h. h)

Means-nil : (t : TaskState) → Means t [] → cancelled ≡ t
Means-nil pending h = absurd (h.0 refl)
Means-nil running h = cc
Means-nil done h = absurd (h.0 refl)
Means-nil failed h = cc
Means-nil cancelled h = refl
Means-nil partial h = cc

nil-Means : (t : TaskState) → cancelled ≡ t → Means t []
nil-Means pending e = cc
nil-Means running e = cc
nil-Means done e = cc
nil-Means failed e = cc
nil-Means cancelled e = refl
nil-Means partial e = cc

-- The status of a task, whose hosts are each in one of the five states of a row, is `t` exactly
-- if `t`'s meaning holds of the hosts' states.
pub aggregate-Means :
    (ss : List TaskState) (t : TaskState) → All IsRowState ss → (aggregate ss ≡ t) ↔ Means t ss
unfolding aggregate
aggregate-Means [] t rows = (nil-Means t, Means-nil t)
aggregate-Means (s ∷ ss) t rows =
    let one = some_state s ss rows in
    let (to, from) = MeansSome-Means t s ss in
    (
      λ e. to (aggregate_some-MeansSome (s ∷ ss) rows one t e),
      λ m. MeansSome-aggregate_some (s ∷ ss) rows one t (from m),
    )
