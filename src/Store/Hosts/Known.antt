-- ===== src/Store/Hosts/Known.antt =====
-- Which host a report belongs to (crates/core/src/repository/host.rs).
use imaged.Base.{
  ℕ, Bool, true, false, not, Option, some, List, [], ◌∷◌, ◌++◌, ◌==◌, any, elem, find, update_where,
  is_some, ◌≡◌, refl, ap, ◌∙◌, arith, inl, inr, Bool-cases, ==_refl,
}
use imaged.Base.Assoc.{Assoc}
use imaged.Base.Assoc
use imaged.Base.Sublists.{keep-nothing}
use imaged.Text.{Text}
use imaged.Error.{Result, ok, ◌>>=◌}
use imaged.Mac
use imaged.Store.{HostRow, Db}
use imaged.Store.Hosts

is_same_text_refl : (a : Text) → Hosts.is_same_text a a ≡ true
is_same_text_refl [] = refl
is_same_text_refl (a ∷ as_) = rw (==_refl a) (is_same_text_refl as_)

find-update_where :
    {A : Type 0} (p : A → Bool) (f : A → A)
    → ((a : A) → p a ≡ true → p (f a) ≡ true)
    → (l : List A) → any p l ≡ true
    → (a : A) × (find p (update_where p f l) ≡ some (f a))
find-update_where p f keeps [] h = cc
find-update_where p f keeps (a ∷ l) h = elim (Bool-cases (p a)) [
  | inl e ↦ let k = keeps a e in (a, ground arith)
  | inr e ↦ let (b, updated) = find-update_where p f keeps l (ground arith) in (b, ground arith)
]

find-append_none :
    {A : Type 0} (p : A → Bool) (l : List A) (a : A)
    → any p l ≡ false
    → p a ≡ true
    → find p (l ++ a ∷ []) ≡ some a
find-append_none p [] a h k = ground arith
find-append_none p (b ∷ l) a h k = ground (arith, find-append_none p l a)

-- What a report leaves of the host that has its address.
record IsReported (disk : Hosts.DiskReport) (address : Option Text) (h : HostRow) : Type 0 where
  disk_is : Hosts.disk_of h ≡ disk
  error_is : h.disk_error ≡ Hosts.error_of_report disk
  ip_is : h.ip ≡ address

disk_of-report :
    (disk : Hosts.DiskReport) (h : HostRow)
    → h.disk_size_bytes ≡ Hosts.size_of_report disk
    → h.disk_error ≡ Hosts.error_of_report disk
    → Hosts.disk_of h ≡ disk
disk_of-report (Hosts.size_of_disk size) h e f = rw (f, e) refl
disk_of-report (Hosts.no_disk reason) h e f = rw f refl

upsert_rows-IsReported :
    (id : ℕ) (mac : Text) (disk : Hosts.DiskReport) (address : Option Text) (hosts : List HostRow)
    → (h : HostRow) × (find (Hosts.has_mac mac) (Hosts.upsert_rows id mac disk address hosts)
        ≡ some h)
      × IsReported disk address h
unfolding Hosts.upsert_rows
upsert_rows-IsReported id mac disk address hosts =
    elim (Bool-cases (any (Hosts.has_mac mac) hosts)) [
      | inl e ↦
          let (h, found) =
            find-update_where (Hosts.has_mac mac) (Hosts.updated_row disk address) (λ h k. k) hosts
              e in
          let new = Hosts.updated_row disk address h in
          rw e (
            new,
            found,
            record { disk_is = disk_of-report disk new refl refl; error_is = refl; ip_is = refl },
          )
      | inr e ↦
          let new = Hosts.inserted_row id mac disk address in
          rw e (
            new,
            find-append_none (Hosts.has_mac mac) hosts new e (is_same_text_refl mac),
            record { disk_is = disk_of-report disk new refl refl; error_is = refl; ip_is = refl },
          )
    ]

-- Partitions of a host are not kept when its disk cannot be read.
no_partitions :
    (id : ℕ) (mac : Text) (disk : Hosts.DiskReport) (address : Option Text) (db : Db) (h : HostRow)
    → is_some (Hosts.error_of_report disk) ≡ true
    → find (Hosts.has_mac mac) (Hosts.upsert_rows id mac disk address db.hosts) ≡ some h
    → Hosts.load_partitions (h.id ∷ []) (Hosts.upserted id mac disk address db) ≡ []
unfolding Hosts.upserted Hosts.load_partitions Assoc.push_all
no_partitions id mac disk address db h e found =
    rw
      (
        e,
        found,
        keep-nothing (λ p. elem p.host_id (h.id ∷ [])) (λ p. not (p.host_id == h.id))
            (λ p k. ground arith) db.host_partitions,
      )
      refl

-- What is known of a host after a report.
pub record IsKnown (report : Hosts.DiskReport) (address : Option Text) (h : Hosts.Host)
    : Type 0 where
  pub disk : h.disk ≡ report
  pub ip : h.ip ≡ address
  pub partitions : is_some (Hosts.error_of_report report) ≡ true → h.partitions ≡ []

one-IsKnown :
    (id : ℕ) (mac : Text) (disk : Hosts.DiskReport) (address : Option Text) (db : Db)
    → (h : Hosts.Host) × ◌≡◌ {A = Result Hosts.Host}
        (Hosts.one
          (find (Hosts.has_mac mac) (Hosts.upserted id mac disk address db).hosts)
          (Hosts.upserted id mac disk address db))
        (ok h)
      × IsKnown disk address h
unfolding Hosts.one Hosts.upserted Assoc.get
one-IsKnown id mac disk address db =
    let (row, found, r) = upsert_rows-IsReported id mac disk address db.hosts in
    let updated = Hosts.upserted id mac disk address db in
    let host =
      Hosts.into_host row
        (Assoc.or_default (Assoc.get row.id (Hosts.load_partitions (row.id ∷ []) updated))) in
    (
      host,
      ap (λ o. Hosts.one o (Hosts.upserted id mac disk address db)) found,
      record {
        disk = r.disk_is;
        ip = r.ip_is;
        partitions = λ e.
            ap (λ m. Assoc.or_default (Assoc.get row.id m))
              (no_partitions id mac disk address db row e found);
      },
    )

-- A report of an address that parses is stored: a lookup by any spelling of the address finds the
-- host that the report returns, but for what the driver makes of an ip that is null. The host has
-- what was reported of its disk and its ip, and no partitions when its disk could not be read.
pub get_by_mac-upsert_host :
    (quoted : Text → Text) (null_ip : Option Text) (id : ℕ) (mac other address : Text)
    (disk : Hosts.DiskReport) (ip : Option Text) (db : Db)
    → Mac.canonical_mac quoted mac ≡ ok address
    → Mac.canonical_mac quoted other ≡ ok address
    → (h : Hosts.Host) × ((Hosts.upsert_host quoted null_ip id mac disk ip db).0
        ≡ ok (Hosts.returned null_ip h))
      × (Hosts.get_by_mac quoted other (Hosts.upsert_host quoted null_ip id mac disk ip db).1
          ≡ ok h)
      × IsKnown disk ip h
unfolding Hosts.upsert_host Hosts.get_by_mac Hosts.reported
get_by_mac-upsert_host quoted null_ip id mac other address disk ip db e f =
    let (h, found, known) = one-IsKnown id address disk ip db in
    (
      h,
      ap (λ r. (Hosts.reported null_ip id disk ip db r).0) e
          ∙ ap (◌>>= λ h. ok (Hosts.returned null_ip h)) found,
      rw (e, f) found,
      known,
    )
