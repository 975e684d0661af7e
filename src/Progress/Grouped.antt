-- ===== src/Progress/Grouped.antt =====
-- How a snapshot's reports are grouped by task.
use mathlib.Core.Path.{subst}
use imaged.Base.{
  ==→eq, ℕ, Option, none, some, [], ◌∷◌, ◌≡◌, refl, arith, ◌∙◌, ap, ◌==◌, if◌then◌else◌, Bool-cases,
  inl, inr,
}
use imaged.Base.Assoc.{Assoc, get, insert, get-insert}
use imaged.Progress.{
  HostProgress, MulticastProgress, TaskProgress, Snapshot, or_new, modify, add_hosts, add_multicast,
  grouped,
}

-- The keys of a map are distinct.
abbrev pub Distinct : {V : Type 0} → Assoc V → Type 0
Distinct [] = Unit
Distinct ((k, v) ∷ m) = (get k m ≡ none) × Distinct m

module _ {F : Type 0} where
  -- What the groups show of a host under a task, and of a task's multicast.
  abbrev hosts_of : Option (TaskProgress F) → Assoc (HostProgress F)
  hosts_of none = []
  hosts_of (some t) = t.hosts

  abbrev multicast_in : Option (TaskProgress F) → Option (MulticastProgress F)
  multicast_in none = none
  multicast_in (some t) = t.multicast

  abbrev pub shown : ℕ → ℕ → Assoc (TaskProgress F) → Option (HostProgress F)
  shown t h m = get h (hosts_of (get t m))

  abbrev pub multicast_shown : ℕ → Assoc (TaskProgress F) → Option (MulticastProgress F)
  multicast_shown t m = multicast_in (get t m)

  abbrev pub if_of : ℕ → Option (HostProgress F) → Option (HostProgress F) → Option (HostProgress F)
  if_of t none other = other
  if_of t (some p) other = if p.task_id == t then some p else other

  abbrev pub if_multicast_of : ℕ → Option (MulticastProgress F) → Option (MulticastProgress F)
  if_multicast_of t none = none
  if_multicast_of t (some m) = if m.task_id == t then some m else none

  hosts_or_new : (t : ℕ) (o : Option (TaskProgress F)) → (or_new t o).hosts ≡ hosts_of o
  unfolding or_new
  hosts_or_new t none = refl
  hosts_or_new t (some x) = refl

  multicast_or_new : (t : ℕ) (o : Option (TaskProgress F)) → (or_new t o).multicast ≡ multicast_in o
  unfolding or_new
  multicast_or_new t none = refl
  multicast_or_new t (some x) = refl

  shown-add :
      (t h j : ℕ) (p : HostProgress F) (m : Assoc (TaskProgress F))
      → shown t h (modify p.task_id (λ x. record x { hosts = insert j p x.hosts }) m)
        ≡ (if j == h then if_of t (some p) (shown t h m) else shown t h m)
  unfolding modify
  shown-add t h j p m =
      let x = or_new p.task_id (get p.task_id m) in
      let new_entry : TaskProgress F = record x { hosts = insert j p x.hosts } in
      elim (Bool-cases (p.task_id == t)) [
        | inl same ↦
            let e = ==→eq p.task_id t same in
            ap (λ o. get h (hosts_of o)) (get-insert p.task_id t new_entry m)
            ∙ rw same (
                get-insert j h p x.hosts
                ∙ ap (λ a. if j == h then some p else get h a)
                    (hosts_or_new p.task_id (get p.task_id m) ∙ ap (λ k. hosts_of (get k m)) e))
        | inr other ↦
            ap (λ o. get h (hosts_of o)) (get-insert p.task_id t new_entry m)
            ∙ rw other (ground arith)
      ]

  multicast_shown-add :
      (t j : ℕ) (p : HostProgress F) (m : Assoc (TaskProgress F))
      → multicast_shown t (modify p.task_id (λ x. record x { hosts = insert j p x.hosts }) m)
        ≡ multicast_shown t m
  unfolding modify
  multicast_shown-add t j p m =
      let x = or_new p.task_id (get p.task_id m) in
      let new_entry : TaskProgress F = record x { hosts = insert j p x.hosts } in
      elim (Bool-cases (p.task_id == t)) [
        | inl same ↦
            let e = ==→eq p.task_id t same in
            ap multicast_in (get-insert p.task_id t new_entry m)
            ∙ rw same
                (multicast_or_new p.task_id (get p.task_id m) ∙ ap (λ k. multicast_in (get k m)) e)
        | inr other ↦ ap multicast_in (get-insert p.task_id t new_entry m) ∙ rw other refl
      ]

  multicast_shown-add_hosts :
      (t : ℕ) (hosts : Assoc (HostProgress F)) (m : Assoc (TaskProgress F))
      → multicast_shown t (add_hosts hosts m) ≡ multicast_shown t m
  unfolding add_hosts
  multicast_shown-add_hosts t [] m = refl
  multicast_shown-add_hosts t ((j, p) ∷ hosts) m =
      multicast_shown-add_hosts t hosts _ ∙ multicast_shown-add t j p m

  shown-add_hosts :
      (t h : ℕ) (hosts : Assoc (HostProgress F)) (m : Assoc (TaskProgress F))
      → Distinct hosts
      → shown t h (add_hosts hosts m) ≡ if_of t (get h hosts) (shown t h m)
  unfolding add_hosts get
  shown-add_hosts t h [] m d = refl
  shown-add_hosts t h ((j, p) ∷ hosts) m d =
      let next = modify p.task_id (λ x. record x { hosts = insert j p x.hosts }) m in
      let rest = shown-add_hosts t h hosts next d.1 in
      let step = shown-add t h j p m in
      elim (Bool-cases (j == h)) [
        | inl same ↦
            let gone : get h hosts ≡ none = subst (λ k. get k hosts ≡ none) (==→eq j h same) d.0 in
            rest ∙ ap (λ o. if_of t o (shown t h next)) gone ∙ step ∙ rw same refl
        | inr other ↦
            let unchanged : shown t h next ≡ shown t h m = step ∙ rw other refl in
            rest ∙ ap (if_of t (get h hosts)) unchanged ∙ rw other refl
      ]

  -- The multicast is put under its task and leaves the hosts as they are.
  added_multicast :
      (t h : ℕ) (o : Option (MulticastProgress F)) (m : Assoc (TaskProgress F))
      → multicast_shown t m ≡ none
      → (shown t h (add_multicast o m) ≡ shown t h m)
        × (multicast_shown t (add_multicast o m) ≡ if_multicast_of t o)
  unfolding add_multicast modify
  added_multicast t h none m e = (refl, e)
  added_multicast t h (some c) m e =
      let x = or_new c.task_id (get c.task_id m) in
      let new_entry : TaskProgress F = record x { multicast = some c } in
      let after = get-insert c.task_id t new_entry m in
      elim (Bool-cases (c.task_id == t)) [
        | inl same ↦
            let k = ==→eq c.task_id t same in
            (
              ap (λ o. get h (hosts_of o)) after
                  ∙ rw same (
                      ap (get h) (
                        hosts_or_new c.task_id (get c.task_id m) ∙ ap (λ i. hosts_of (get i m)) k)),
              ap multicast_in after ∙ rw same refl,
            )
        | inr elsewhere ↦ (
          ap (λ o. get h (hosts_of o)) after ∙ rw elsewhere refl,
          ap multicast_in after ∙ rw elsewhere e,
        )
      ]

  -- Where each host reports once, a snapshot shows a host under a task exactly if its report is for
  -- that task, with that report, and the multicast under its own task only.
  pub grouped_lem :
      (s : Snapshot F) (t h : ℕ)
      → Distinct s.hosts
      → (shown t h (grouped s) ≡ if_of t (get h s.hosts) none)
        × (multicast_shown t (grouped s) ≡ if_multicast_of t s.multicast)
  unfolding grouped get
  grouped_lem s t h d =
      let m = add_hosts s.hosts [] in
      let added = added_multicast t h s.multicast m (multicast_shown-add_hosts t s.hosts []) in
      (added.0 ∙ shown-add_hosts t h s.hosts [] d, added.1)
