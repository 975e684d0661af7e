-- ===== src/Agent/Reports/Settled.antt =====
-- An agent that did not hear the answer reports again (crates/api/agent/src/task.rs).
use mathlib.Core.List.{Memᴰ}
use mathlib.Core.Path.{subst}
use imaged.Base.{
  ℕ, Bool, true, false, Option, none, some, List, All, [], ◌∷◌, ◌==◌, ==→eq, any, find, keep,
  update_where, is_some, ◌≡◌, sym, ap, ◌∙◌, inl, inr, arith, Bool-cases, Option-cases,
}
use imaged.Text.{Text}
use imaged.Error.{Result, ok, err, ◌>>=◌, bind_ok, ok_injective, from_sqlx, row_not_found}
use imaged.Task.{Task, TaskState, hosts_in}
use imaged.Store.{TaskRow, TaskHostRow, HostRow, Db, of_task}
use imaged.Store.Views.{to_task, joined}
use imaged.Store.Queries.{get_next}
use imaged.Store.Queries
use imaged.Store.Queries.Next.{get_next-Offers}
use imaged.Store.Hosts.{Host, get_by_mac}
use imaged.Store.Hosts
use imaged.Agent.{with_id}
use imaged.Agent.Reports
use imaged.Agent.Reports.Rows.{
  unsettled, settled_as, shows, Settles, with_id-settled, update_where-settled, any-settled_as,
  find-is_some, shows-joined,
}

-- The host of an address is in the table of hosts.
one-known :
    (p : HostRow → Bool) (hosts : List HostRow) (db : Db) (host : Host)
    → Hosts.one (find p hosts) db ≡ ok host
    → is_some (find (λ h. h.id == host.id) hosts) ≡ true
unfolding Hosts.one
one-known p hosts db host e = elim (Option-cases (find p hosts)) [
  | inl n ↦ absurd (missing (rw n at e))
  | inr (row, f) ↦
      let id : row.id ≡ host.id = found row (rw f at e) in
      find-is_some p (λ h. h.id == host.id) hosts row f (ground arith)
]
  where
    missing : ◌≡◌ {A = Result Host} (err (from_sqlx row_not_found)) (ok host) → ⊥
    missing q = cc

    found : (row : HostRow) → Hosts.one (some row) db ≡ ok host → row.id ≡ host.id
    found row q = ap (λ h. h.id) (ok_injective _ host q)

get_by_mac-known :
    (quoted : Text → Text) (mac : Text) (db : Db) (host : Host)
    → get_by_mac quoted mac db ≡ ok host
    → is_some (find (λ h. h.id == host.id) db.hosts) ≡ true
unfolding Hosts.get_by_mac
get_by_mac-known quoted mac db host e =
    let (address, _, f) =
      bind_ok (imaged.Mac.canonical_mac quoted mac)
        (λ address. Hosts.one (find (Hosts.has_mac address) db.hosts) db) host e in
    one-known (Hosts.has_mac address) db.hosts db host f

mem-find :
    {A : Type 0} (p : A → Bool) (l : List A) (a : A)
    → Memᴰ a l
    → p a ≡ true
    → (b : A) × (find p l ≡ some b) × (p b ≡ true)
mem-find p [] a m h = elim m [ ]
mem-find p (b ∷ l) a (Memᴰ.head e) h =
    let here : p b ≡ true = subst (λ x. p x ≡ true) e h in (b, ground arith, here)
mem-find p (b ∷ l) a (Memᴰ.tail m) h = elim (Bool-cases (p b)) [
  | inl here ↦ (b, ground arith, here)
  | inr there ↦ let (c, found, k) = mem-find p l a m h in (c, ground arith, k)
]

task_in : Result (Option (Task × ℕ)) → Option Task
task_in (ok (some (t, host_id))) = some t
task_in _ = none

host_in : Result (Option (Task × ℕ)) → Option ℕ
host_in (ok (some (t, host_id))) = some host_id
host_in _ = none

unless_next-some :
    (mac : Text) (task_id : ℕ) (outcome : TaskState) (id : ℕ) (o : Option Task) (db : Db) (t : Task)
    (host_id : ℕ)
    → Reports.unless_next mac task_id outcome id o db ≡ ok (some (t, host_id))
    → (o ≡ some t) × (id ≡ host_id)
unfolding task_in host_in
unless_next-some mac task_id outcome id (some u) db t host_id e =
    let same : some id ≡ some host_id = ap host_in e in (ap task_in e, cc)
unless_next-some mac task_id outcome id none db t host_id e =
    let (b, _, f) =
      bind_ok (Reports.has_in outcome id (Queries.get task_id db))
        (Reports.settled_already mac task_id) (some (t, host_id)) e in
    absurd (never b f)
  where
    never : (b : Bool) → Reports.settled_already mac task_id b ≡ ok (some (t, host_id)) → ⊥
    never true q = cc
    never false q = cc

with_id-some :
    (task_id : ℕ) (o : Option Task) (t : Task)
    → with_id task_id o ≡ some t
    → (o ≡ some t) × (t.id ≡ task_id)
with_id-some task_id none t e = cc
with_id-some task_id (some u) t e = elim (Bool-cases (u.id == task_id)) [
  | inl h ↦ let same = rw h at e in let id : u.id ≡ t.id = ap id_of same in (same, ground arith)
  | inr h ↦ absurd (never (rw h at e))
]
  where
    id_of : Option Task → ℕ
    id_of none = 0
    id_of (some t) = t.id

    never : ◌≡◌ {A = Option Task} none (some t) → ⊥
    never q = cc

-- What a report settles: the task that is next for the host of the address.
pub record IsNext (quoted : Text → Text) (mac : Text) (task_id : ℕ) (db : Db) (t : Task)
    (host_id : ℕ) : Type 0 where
  pub host : Host
  pub known : get_by_mac quoted mac db ≡ ok host
  pub same : host.id ≡ host_id
  pub next : get_next host_id db ≡ some t
  pub id : t.id ≡ task_id

pub task_to_settle-IsNext :
    (quoted : Text → Text) (mac : Text) (task_id : ℕ) (outcome : TaskState) (db : Db) (t : Task)
    (host_id : ℕ)
    → Reports.task_to_settle quoted mac task_id outcome db ≡ ok (some (t, host_id))
    → IsNext quoted mac task_id db t host_id
unfolding Reports.task_to_settle
task_to_settle-IsNext quoted mac task_id outcome db t host_id e =
    let (host, known, f) =
      bind_ok (get_by_mac quoted mac db)
        (λ (host : Host).
          Reports.unless_next mac task_id outcome host.id (with_id task_id (get_next host.id db))
            db)
        (some (t, host_id)) e in
    let (found, same) =
      unless_next-some mac task_id outcome host.id (with_id task_id (get_next host.id db)) db t
        host_id f in
    let (next, id) = with_id-some task_id (get_next host.id db) t found in
    record {
      host = host;
      known = known;
      same = same;
      next = ap (λ n. get_next n db) (sym same) ∙ next;
      id = id;
    }

-- A database in which the rows of a task on a host have been settled, and whose addresses, hosts
-- and tasks are the same.
pub record IsSettled (quoted : Text → Text) (mac : Text) (task_id : ℕ) (outcome : TaskState)
    (host_id : ℕ) (db d : Db) : Type 0 where
  pub f : TaskHostRow → TaskHostRow
  pub settles : Settles outcome f
  pub rows : d.task_hosts ≡ update_where (unsettled task_id host_id) f db.task_hosts
  pub hosts : d.hosts ≡ db.hosts
  pub tasks : d.tasks ≡ db.tasks
  pub address : get_by_mac quoted mac d ≡ get_by_mac quoted mac db

hosts_in-settled :
    (outcome : TaskState) (task_id host_id : ℕ) (d : Db) (row : TaskRow)
    → row.id ≡ task_id
    → is_some (find (λ h. h.id == host_id) d.hosts) ≡ true
    → any (settled_as outcome task_id host_id) d.task_hosts ≡ true
    → any (λ id. id == host_id) (hosts_in outcome (to_task d row)) ≡ true
unfolding hosts_in to_task
hosts_in-settled outcome task_id host_id d row id known settled =
    ap (λ n. shows outcome host_id (joined d.hosts (keep (of_task n) d.task_hosts))) id
    ∙ shows-joined outcome task_id host_id d.hosts d.task_hosts known settled

unless_next-none :
    (mac : Text) (task_id host_id : ℕ) (outcome : TaskState) (d : Db) (row : TaskRow)
    → with_id task_id (get_next host_id d) ≡ none
    → find (λ t. t.id == task_id) d.tasks ≡ some row
    → any (λ id. id == host_id) (hosts_in outcome (to_task d row)) ≡ true
    → Reports.unless_next mac task_id outcome host_id (with_id task_id (get_next host_id d)) d
      ≡ ok none
unfolding Queries.get Queries.fetch_one
unless_next-none mac task_id host_id outcome d row idle found shown =
    ap (λ o. Reports.unless_next mac task_id outcome host_id o d) idle
    ∙ ap
        (λ o.
          Reports.has_in outcome host_id (Queries.fetch_one d o)
          >>= Reports.settled_already mac task_id)
        found
    ∙ ap (Reports.settled_already mac task_id) shown

pub settled_again :
    (quoted : Text → Text) (mac : Text) (task_id : ℕ) (outcome : TaskState) (db d : Db) (t : Task)
    (host_id : ℕ)
    → IsNext quoted mac task_id db t host_id
    → IsSettled quoted mac task_id outcome host_id db d
    → Reports.task_to_settle quoted mac task_id outcome d ≡ ok none
unfolding Reports.task_to_settle to_task
settled_again quoted mac task_id outcome db d t host_id n s =
    let (r, row, o, same) = get_next-Offers host_id db t n.next in
    let id : t.id ≡ row.id = ap (λ (x : Task). x.id) same in
    let task = o.same_id in
    let host = o.host in
    let open_ = o.active in
    let this = n.id in
    let (row', found, id') = mem-find (λ t. t.id == task_id) db.tasks row o.task (ground arith) in
    let idle = with_id-settled task_id host_id d (
      subst (All (λ r. unsettled task_id host_id r ≡ false)) (sym s.rows)
        (update_where-settled outcome s.f task_id host_id db.task_hosts s.settles)) in
    let settled =
      ap (any (settled_as outcome task_id host_id)) s.rows
      ∙ any-settled_as outcome s.f task_id host_id db.task_hosts s.settles r o.row (ground arith) in
    let known =
      ap (λ hosts. is_some (find (λ h. h.id == host_id) hosts)) s.hosts
      ∙ ap (λ k. is_some (find (λ h. h.id == k) db.hosts)) (sym n.same)
      ∙ get_by_mac-known quoted mac db n.host n.known in
    let shown =
      hosts_in-settled outcome task_id host_id d row' (==→eq row'.id task_id id') known settled in
    let last =
      unless_next-none mac task_id host_id outcome d row' idle
        (ap (find (λ t. t.id == task_id)) s.tasks ∙ found) shown in
    ap
      (◌>>= λ (host : Host).
        Reports.unless_next mac task_id outcome host.id (with_id task_id (get_next host.id d)) d)
      (s.address ∙ n.known)
    ∙ subst
        (λ k.
          Reports.unless_next mac task_id outcome k (with_id task_id (get_next k d)) d ≡ ok none)
        (sym n.same) last
