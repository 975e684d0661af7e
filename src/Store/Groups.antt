-- ===== src/Store/Groups.antt =====
-- The groups of hosts (crates/core/src/repository/group.rs).
use imaged.Base.{
  ℕ, suc, not, ◌&&◌, Option, none, some, List, [], ◌∷◌, ◌++◌, ◌==◌, any, find, keep, map,
  update_where,
}
use imaged.Base.Sorting.{sort_by_text}
use imaged.Text.{Text}
use imaged.Error.{
  Result, ok, err, ◌>>◌, ensure, from_sqlx, row_not_found, database_error, unique_violation,
  foreign_key_violation,
}
use imaged.Store.{GroupRow, Db}

pub record Group : Type 0 where
  pub id : ℕ
  pub name : Text

abbrev group_of : GroupRow → Group
group_of g = record { id = g.id; name = g.name }

-- The insertions into `group_hosts`, with the messages of its constraints.
unfoldable pub add_members : Text → Text → ℕ → List ℕ → Db → Result Db
add_members unique foreign group_id [] db = ok db
add_members unique foreign group_id (host_id ∷ host_ids) db = do
  ensure (not (any (λ g. g.group_id == group_id && g.host_id == host_id) db.group_hosts))
      (from_sqlx (database_error (unique_violation unique)))
  ensure (any (λ h. h.id == host_id) db.hosts && any (λ g. g.id == group_id) db.groups)
      (from_sqlx (database_error (foreign_key_violation foreign)))
  add_members unique foreign group_id host_ids (record db {
    group_hosts = db.group_hosts ++ record { group_id = group_id; host_id = host_id } ∷ [];
  })

abbrev committed_group : Group → Db → Result Db → Result Group × Db
committed_group g db (err e) = (err e, db)
committed_group g db (ok d) = (ok g, d)

unfoldable pub create_group : Text → Text → Text → List ℕ → Db → Result Group × Db
unfolding add_members
create_group unique foreign name host_ids db =
    let id = db.next_group_id in
    committed_group (record { id = id; name = name }) db
      (add_members unique foreign id host_ids (record db {
        next_group_id = suc id;
        groups = db.groups ++ record { id = id; name = name } ∷ [];
      }))

abbrev found_group : Option GroupRow → Result Group
found_group none = err (from_sqlx row_not_found)
found_group (some g) = ok (group_of g)

unfoldable pub rename_group : ℕ → Text → Db → Result Group × Db
rename_group id name db =
    let updated = record db {
      groups = update_where (λ g. g.id == id) (λ g. record g { name = name }) db.groups;
    } in
    (found_group (find (λ g. g.id == id) updated.groups), updated)

unfoldable pub get_all_groups : Db → List Group
get_all_groups db = map group_of (sort_by_text (λ g. g.name) db.groups)

unfoldable pub delete_group : ℕ → Db → Db
delete_group id db = record db {
  groups = keep (λ g. not (g.id == id)) db.groups;
  group_hosts = keep (λ g. not (g.group_id == id)) db.group_hosts;
}

abbrev replaced_members : Text → Text → ℕ → List ℕ → Db → Result Group → Result Group × Db
replaced_members unique foreign id host_ids db (err e) = (err e, db)
replaced_members unique foreign id host_ids db (ok g) = committed_group g db (
    add_members unique foreign id host_ids
      (record db { group_hosts = keep (λ g. not (g.group_id == id)) db.group_hosts }))

unfoldable pub update_group_members : Text → Text → ℕ → List ℕ → Db → Result Group × Db
unfolding add_members
update_group_members unique foreign id host_ids db =
    replaced_members unique foreign id host_ids db (found_group (find (λ g. g.id == id) db.groups))
