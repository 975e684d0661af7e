-- ===== src/Store/Hosts/Tests.antt =====
-- A laboratory in which a host reports twice, in two spellings.
use imaged.Base.{◌≡◌, refl, some, none, ◌∷◌, []}
use imaged.Text.{text}
use imaged.Error.{ok}
use imaged.Base.Assoc
use imaged.Mac.{canonical_mac, from_str, display}
use imaged.Store.{Db, HostRow, HostPartitionRow}
use imaged.Store.Tests.{lab, host}
use imaged.Store.Hosts
use imaged.Store.Hosts.Known.{IsKnown, get_by_mac-upsert_host}

abbrev root : HostPartitionRow
root = record {
  host_id = 7;
  number = 1;
  partuuid = text "0A0B";
  partlabel = none;
  label = none;
  uuid = none;
  fstype = some (text "ext4");
  size_bytes = 4096;
}

abbrev known : Db
known = record lab {
  hosts = record (host 7) { mac = text "02:ab:00:ff:10:01" } ∷ host 8 ∷ [];
  host_partitions = root ∷ [];
}

get_by_mac-upsert_host_example :
    (h : Hosts.Host) × ((Hosts.upsert_host
        (λ t. t)
        (some [])
        9
        (text "02:AB:00:FF:10:01")
        (Hosts.no_disk (text "no disk"))
        none
        known).0
      ≡ ok (Hosts.returned (some []) h))
    × (Hosts.get_by_mac
          (λ t. t)
          (text "02-ab-00-ff-10-01")
          (Hosts.upsert_host
            (λ t. t)
            (some [])
            9
            (text "02:AB:00:FF:10:01")
            (Hosts.no_disk (text "no disk"))
            none
            known).1
        ≡ ok h)
    × IsKnown (Hosts.no_disk (text "no disk")) none h
unfolding canonical_mac from_str display text
get_by_mac-upsert_host_example =
    get_by_mac-upsert_host (λ t. t) (some []) 9 (text "02:AB:00:FF:10:01")
      (text "02-ab-00-ff-10-01") (text "02:ab:00:ff:10:01") (Hosts.no_disk (text "no disk")) none
      known refl refl

-- Deleting a host takes its partitions and its rows of tasks with it.
deleted : Hosts.delete_host 7 known ≡ record known {
  hosts = host 8 ∷ [];
  host_partitions = [];
  task_hosts = record (imaged.Store.Tests.waiting 8) { host_id = 8 } ∷ [];
  script_runs = [];
}
unfolding Hosts.delete_host
deleted = refl

-- Renaming reads the row back, and the listing has its partitions.
abbrev renamed : Db
renamed = (Hosts.rename_host 7 (text "Atlas") known).1

listed :
    Hosts.get_all_hosts none renamed
    ≡ Hosts.into_host
        (record (host 7) { mac = text "02:ab:00:ff:10:01"; name = text "Atlas" })
        (Hosts.partition_of_host_row root ∷ [])
      ∷ Hosts.into_host (host 8) []
      ∷ []
unfolding Hosts.get_all_hosts Hosts.rename_host Hosts.assemble Hosts.into_hosts
    Hosts.load_partitions Assoc.push_all text Assoc.get Assoc.insert Assoc.remove
listed = refl
