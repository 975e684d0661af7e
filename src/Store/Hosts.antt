-- ===== src/Store/Hosts.antt =====
-- The hosts and their partitions (crates/core/src/repository/host.rs,
-- crates/core/src/domain/host.rs). A size that is stored `as i64` and read `as u64` keeps its
-- bits, and is the number that was stored.
pub mod Known
mod Tests
use imaged.Base.{
  ℕ, Bool, true, false, not, ◌&&◌, ◌||◌, Option, none, some, List, [], ◌∷◌, ◌++◌, ◌==◌, ltb, leb,
  ◌+◌, if◌then◌else◌, map, any, keep, find, elem, update_where, is_some,
}
use imaged.Base.Assoc.{Assoc}
use imaged.Base.Assoc
use imaged.Base.Sorting.{sort_by, sort_by_text}
use imaged.Text.{Text, text, decimal}
use imaged.Error.{
  Result, ok, err, AppError, invalid_argument, failed_precondition, ◌>>=◌, ◌>>◌, ensure, ok_or,
  from_sqlx, row_not_found, database_error, unique_violation, foreign_key_violation,
}
use imaged.Mac.{canonical_mac}
use imaged.Store.{HostRow, HostPartitionRow, GroupHostRow, Db}

pub record HostPartition : Type 0 where
  pub number : ℕ
  pub partuuid : Text
  pub partlabel : Option Text
  pub label : Option Text
  pub uuid : Option Text
  pub fstype : Option Text
  pub size_bytes : ℕ

-- `std::result::Result<u64, String>`.
pub data DiskReport : Type 0 where
  size_of_disk : ℕ → DiskReport
  no_disk : Text → DiskReport

pub record Host : Type 0 where
  pub id : ℕ
  pub name : Text
  pub mac_address : Text
  pub disk : DiskReport
  pub ip : Option Text
  pub partitions : List HostPartition

-- `Host::usable_disk`.
abbrev pub usable_disk : Host → Result ℕ
usable_disk h = elim h.disk [
  | size_of_disk size ↦ ok size
  | no_disk reason ↦
      err
        (failed_precondition (text "host " ++ (h.name ++ (text " has no usable disk: " ++ reason))))
]

abbrev lower : ℕ → ℕ
lower c = if leb 65 c && leb c 90 then c + 32 else c

-- `eq_ignore_ascii_case`.
abbrev eq_ignore_ascii_case : Text → Text → Bool
eq_ignore_ascii_case [] [] = true
eq_ignore_ascii_case (a ∷ as_) (b ∷ bs) = (lower a == lower b) && eq_ignore_ascii_case as_ bs
eq_ignore_ascii_case _ _ = false

-- `Host::partition`.
abbrev pub partition_by_uuid : Text → Host → Result HostPartition
partition_by_uuid partuuid h =
    ok_or (find (λ p. eq_ignore_ascii_case p.partuuid partuuid) h.partitions)
      (failed_precondition (text "host " ++ (h.name ++ (text " has no partition " ++ partuuid))))

abbrev pub is_same_text : Text → Text → Bool
is_same_text [] [] = true
is_same_text (a ∷ as_) (b ∷ bs) = (a == b) && is_same_text as_ bs
is_same_text _ _ = false

abbrev disk_of : HostRow → DiskReport
disk_of h = elim h.disk_error [
  | some reason ↦ no_disk reason
  | none ↦ size_of_disk h.disk_size_bytes
]

abbrev pub into_host : HostRow → List HostPartition → Host
into_host h partitions = record {
  id = h.id;
  name = h.name;
  mac_address = h.mac;
  disk = disk_of h;
  ip = h.ip;
  partitions = partitions;
}

abbrev pub partition_of_host_row : HostPartitionRow → HostPartition
partition_of_host_row p = record {
  number = p.number;
  partuuid = p.partuuid;
  partlabel = p.partlabel;
  label = p.label;
  uuid = p.uuid;
  fstype = p.fstype;
  size_bytes = p.size_bytes;
}

-- `WHERE host_id IN … ORDER BY host_id, number`.
abbrev pub partition_rows_of : List ℕ → Db → List HostPartitionRow
partition_rows_of ids db =
    sort_by (λ p. p.host_id)
      (sort_by (λ p. p.number) (keep (λ p. elem p.host_id ids) db.host_partitions))

unfoldable pub load_partitions : List ℕ → Db → Assoc (List HostPartition)
load_partitions ids db =
    Assoc.push_all (λ p. p.host_id) partition_of_host_row (partition_rows_of ids db) []

unfoldable pub into_hosts : List HostRow → Assoc (List HostPartition) → List Host
into_hosts [] partitions = []
into_hosts (h ∷ hs) partitions =
    into_host h (Assoc.or_default (Assoc.get h.id partitions))
    ∷ into_hosts hs (Assoc.remove h.id partitions)

unfoldable pub assemble : List HostRow → Db → List Host
unfolding load_partitions into_hosts
assemble rows db = into_hosts rows (load_partitions (map (λ h. h.id) rows) db)

-- `assemble(vec![row]).remove(0)`, after `fetch_one`.
unfoldable pub one : Option HostRow → Db → Result Host
unfolding load_partitions
one none db = err (from_sqlx row_not_found)
one (some h) db =
    ok (into_host h (Assoc.or_default (Assoc.get h.id (load_partitions (h.id ∷ []) db))))

abbrev pub has_mac : Text → HostRow → Bool
has_mac mac h = is_same_text h.mac mac

abbrev pub size_of_report : DiskReport → ℕ
size_of_report (size_of_disk size) = size
size_of_report (no_disk reason) = 0

abbrev pub error_of_report : DiskReport → Option Text
error_of_report (size_of_disk size) = none
error_of_report (no_disk reason) = some reason

-- `mac.replace(':', "-")`.
abbrev name_of_mac : Text → Text
name_of_mac mac = map (λ c. if c == 58 then 45 else c) mac

-- `DO UPDATE SET …`.
abbrev pub updated_row : DiskReport → Option Text → HostRow → HostRow
updated_row disk ip h = record h {
  disk_size_bytes = size_of_report disk;
  disk_error = error_of_report disk;
  ip = ip;
}

abbrev pub inserted_row : ℕ → Text → DiskReport → Option Text → HostRow
inserted_row id mac disk ip = record {
  id = id;
  mac = mac;
  name = name_of_mac mac;
  disk_size_bytes = size_of_report disk;
  disk_error = error_of_report disk;
  ip = ip;
}

-- `INSERT … ON CONFLICT(mac) DO UPDATE`; `id` is the one that AUTOINCREMENT gives to a row that is
-- inserted.
unfoldable pub upsert_rows : ℕ → Text → DiskReport → Option Text → List HostRow → List HostRow
upsert_rows id mac disk ip hosts =
    if any (has_mac mac) hosts
    then update_where (has_mac mac) (updated_row disk ip) hosts
    else hosts ++ inserted_row id mac disk ip ∷ []

abbrev pub is_of_host : Option HostRow → HostPartitionRow → Bool
is_of_host none p = false
is_of_host (some h) p = p.host_id == h.id

-- The transaction of `upsert_host`.
unfoldable pub upserted : ℕ → Text → DiskReport → Option Text → Db → Db
unfolding upsert_rows
upserted id mac disk ip db =
    let hosts = upsert_rows id mac disk ip db.hosts in
    record db {
      hosts = hosts;
      host_partitions =
          if is_some (error_of_report disk)
          then keep (λ p. not (is_of_host (find (has_mac mac) hosts) p)) db.host_partitions
          else db.host_partitions;
    }

-- The statement returns `ip` as a text that is not null: `null_ip` is what the driver makes of a
-- null. The row itself keeps its null.
abbrev pub returned : Option Text → Host → Host
returned null_ip h = record h { ip = elim h.ip [ none ↦ null_ip | some ip ↦ some ip ] }

reported : Option Text → ℕ → DiskReport → Option Text → Db → Result Text → Result Host × Db
unfolding upserted one
reported null_ip id disk ip db (err e) = (err e, db)
reported null_ip id disk ip db (ok mac) =
    let updated = upserted id mac disk ip db in
    (one (find (has_mac mac) updated.hosts) updated >>= λ h. ok (returned null_ip h), updated)

module _ (quoted : Text → Text) where
  unfoldable pub upsert_host :
      Option Text → ℕ → Text → DiskReport → Option Text → Db → Result Host × Db
  unfolding reported
  upsert_host null_ip id mac disk ip db = reported null_ip id disk ip db (canonical_mac quoted mac)

  unfoldable pub get_by_mac : Text → Db → Result Host
  unfolding one
  get_by_mac mac db = canonical_mac quoted mac >>= λ mac. one (find (has_mac mac) db.hosts) db

-- `UPDATE hosts SET name = ? WHERE id = ?`, with the row after it.
unfoldable pub rename_host : ℕ → Text → Db → Result Host × Db
unfolding one
rename_host id name db =
    let updated = record db {
      hosts = update_where (λ h. h.id == id) (λ h. record h { name = name }) db.hosts;
    } in
    (one (find (λ h. h.id == id) updated.hosts) updated, updated)

-- A host is in a group once, by the primary key of `group_hosts`.
abbrev in_group : Option ℕ → Db → HostRow → Bool
in_group none db h = true
in_group (some group_id) db h =
    any (λ g. g.host_id == h.id && g.group_id == group_id) db.group_hosts

-- `ORDER BY name`.
unfoldable pub get_all_hosts : Option ℕ → Db → List Host
unfolding assemble
get_all_hosts group_id db =
    assemble (sort_by_text (λ h. h.name) (keep (in_group group_id db) db.hosts)) db

-- The deletion, with the rows of other tables that go with the host.
unfoldable pub delete_host : ℕ → Db → Db
delete_host id db = record db {
  hosts = keep (λ h. not (h.id == id)) db.hosts;
  host_partitions = keep (λ p. not (p.host_id == id)) db.host_partitions;
  group_hosts = keep (λ g. not (g.host_id == id)) db.group_hosts;
  task_hosts = keep (λ r. not (r.host_id == id)) db.task_hosts;
  task_host_inputs = keep (λ i. not (i.host_id == id)) db.task_host_inputs;
  script_runs = keep (λ s. not (s.host_id == id)) db.script_runs;
  script_run_output = keep (λ c. not (c.host_id == id)) db.script_run_output;
}

abbrev host_partition_row : ℕ → HostPartition → HostPartitionRow
host_partition_row id p = record {
  host_id = id;
  number = p.number;
  partuuid = p.partuuid;
  partlabel = p.partlabel;
  label = p.label;
  uuid = p.uuid;
  fstype = p.fstype;
  size_bytes = p.size_bytes;
}

abbrev too_large : HostPartition → AppError
too_large p = invalid_argument (
    text "partition "
    ++ (decimal p.number ++ (text " size " ++ (decimal p.size_bytes ++ text " is out of range"))))

abbrev is_host_partition : ℕ → ℕ → HostPartitionRow → Bool
is_host_partition id number p = p.host_id == id && p.number == number

-- `unique` and `foreign` are the messages of the two constraints.
unfoldable pub insert_host_partitions :
    Text
    → Text
    → ℕ
    → Db
    → List HostPartition
    → List HostPartitionRow
    → Result (List HostPartitionRow)
insert_host_partitions unique foreign id db [] rows = ok rows
insert_host_partitions unique foreign id db (p ∷ ps) rows = do
  ensure (ltb p.size_bytes 9223372036854775808) (too_large p)
  ensure (not (any (is_host_partition id p.number) rows))
      (from_sqlx (database_error (unique_violation unique)))
  ensure (any (λ h. h.id == id) db.hosts)
      (from_sqlx (database_error (foreign_key_violation foreign)))
  insert_host_partitions unique foreign id db ps (rows ++ host_partition_row id p ∷ [])

abbrev with_host_partitions : Db → Result (List HostPartitionRow) → Result (Unit {0}) × Db
with_host_partitions db (err e) = (err e, db)
with_host_partitions db (ok rows) = (ok tt, record db { host_partitions = rows })

unfoldable pub set_partitions : Text → Text → ℕ → List HostPartition → Db → Result (Unit {0}) × Db
unfolding insert_host_partitions
set_partitions unique foreign id partitions db = with_host_partitions db (
    insert_host_partitions unique foreign id db partitions
      (keep (λ p. not (p.host_id == id)) db.host_partitions))
