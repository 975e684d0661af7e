-- ===== src/Store/Catalog/Links/Linked.antt =====
-- What is read of an image's scripts after they have been set
-- (crates/core/src/repository/script.rs).
use imaged.Base.{
  ℕ, suc, Bool, true, false, not, ◌&&◌, Option, some, List, All, [], ◌∷◌, ◌++◌, ◌==◌, ==_refl,
  ==→eq, any, elem, find, keep, map, ltb, ◌≡◌, refl, sym, ap, ◌∙◌, arith, inl, inr, Bool-cases,
}
use imaged.Base.Assoc.{Assoc}
use imaged.Base.Sorting.{insert_by, sort_by}
use imaged.Base.Sublists.{keep-append, keep-nothing, find-holds}
use imaged.Error.{Result, ok, err, ensure_ok, bind_ok, ok_injective}
use imaged.Script.{ScriptInput}
use imaged.Store.{ScriptRow, ImageScriptRow, Db}
use imaged.Store.Catalog
use imaged.Store.Catalog.Links

-- The rows of the scripts, from a position on.
numbered : ℕ → ℕ → List (ℕ × Option ℕ) → List ImageScriptRow
numbered image_id position [] = []
numbered image_id position ((id, root) ∷ rest) =
    Links.image_script image_id position id root ∷ numbered image_id (suc position) rest

abbrev Known : List ScriptRow → ℕ × Option ℕ → Type 0
Known scripts link = any (λ s. s.id == link.0) scripts ≡ true

link_rows-numbered :
    (image_id : ℕ) (scripts : List ScriptRow) (position : ℕ) (earlier : List ℕ)
    (links : List (ℕ × Option ℕ)) (rows : List ImageScriptRow)
    → Links.link_rows image_id scripts position earlier links ≡ ok rows
    → (rows ≡ numbered image_id position links) × All (Known scripts) links
unfolding Links.link_rows numbered
link_rows-numbered image_id scripts position earlier [] rows e = (sym (ok_injective [] rows e), tt)
link_rows-numbered image_id scripts position earlier ((id, root) ∷ rest) rows e =
    let (_, e1) = ensure_ok (not (elem id earlier)) (Links.listed_twice id) _ e in
    let (known, e2) = ensure_ok (any (λ s. s.id == id) scripts) (Catalog.no_script id) _ e1 in
    let (later, e3, e4) =
      bind_ok (Links.link_rows image_id scripts (suc position) (id ∷ earlier) rest) _ rows e2 in
    let (same, all_known) =
      link_rows-numbered image_id scripts (suc position) (id ∷ earlier) rest later e3 in
    (
      sym (ok_injective _ rows e4) ∙ ap (◌∷◌ (Links.image_script image_id position id root)) same,
      (known, all_known),
    )

keep-numbered :
    (image_id position : ℕ) (links : List (ℕ × Option ℕ))
    → keep (λ s. s.image_id == image_id) (numbered image_id position links)
      ≡ numbered image_id position links
unfolding numbered
keep-numbered image_id position [] = refl
keep-numbered image_id position ((id, root) ∷ rest) = rw (==_refl image_id) (
    ap (◌∷◌ (Links.image_script image_id position id root))
      (keep-numbered image_id (suc position) rest))

insert_by-numbered :
    (image_id position id : ℕ) (root : Option ℕ) (rest : List (ℕ × Option ℕ))
    → insert_by
        (λ s. s.position)
        (Links.image_script image_id position id root)
        (numbered image_id (suc position) rest)
      ≡ Links.image_script image_id position id root ∷ numbered image_id (suc position) rest
unfolding numbered
insert_by-numbered image_id position id root [] = refl
insert_by-numbered image_id position id root ((j, r) ∷ rest) =
    let after : ltb (suc position) position ≡ false = ground arith in rw after refl

sort_by-numbered :
    (image_id position : ℕ) (links : List (ℕ × Option ℕ))
    → sort_by (λ s. s.position) (numbered image_id position links)
      ≡ numbered image_id position links
unfolding numbered
sort_by-numbered image_id position [] = refl
sort_by-numbered image_id position ((id, root) ∷ rest) =
    ap (insert_by (λ s. s.position) (Links.image_script image_id position id root))
      (sort_by-numbered image_id (suc position) rest)
    ∙ insert_by-numbered image_id position id root rest

abbrev link_of : ScriptRow × Option ℕ → ℕ × Option ℕ
link_of (r, root) = (r.id, root)

find-any : {A : Type 0} (p : A → Bool) (l : List A) → any p l ≡ true → (a : A) × (find p l ≡ some a)
find-any p [] h = cc
find-any p (a ∷ l) h = elim (Bool-cases (p a)) [
  | inl e ↦ (a, ground arith)
  | inr e ↦ let (b, f) = find-any p l (ground arith) in (b, ground arith)
]

join_scripts-numbered :
    (scripts : List ScriptRow) (image_id position : ℕ) (links : List (ℕ × Option ℕ))
    → All (Known scripts) links
    → map link_of (Links.join_scripts scripts (numbered image_id position links)) ≡ links
unfolding Links.join_scripts numbered
join_scripts-numbered scripts image_id position [] v = refl
join_scripts-numbered scripts image_id position ((id, root) ∷ rest) v =
    let (r, found) = find-any (λ s. s.id == id) scripts v.0 in
    let same = ==→eq r.id id (find-holds (λ s. s.id == id) scripts r found) in
    ap
      (λ o. map link_of (
        Links.join_script o root
          (Links.join_scripts scripts (numbered image_id (suc position) rest))))
      found
    ∙ ap
        (λ n.
          (n, root)
          ∷ map link_of (Links.join_scripts scripts (numbered image_id (suc position) rest)))
        same
    ∙ ap (◌∷◌ (id, root)) (join_scripts-numbered scripts image_id (suc position) rest v.1)

abbrev pub link_in : Catalog.ImageScript → ℕ × Option ℕ
link_in s = (s.script.id, s.root_partition)

zip_roots-into_scripts :
    (rows : List (ScriptRow × Option ℕ)) (inputs : Assoc (List ScriptInput))
    → map link_in
        (Links.zip_roots (Catalog.into_scripts (map (λ r. r.0) rows) inputs) (map (λ r. r.1) rows))
      ≡ map link_of rows
unfolding Catalog.into_scripts
zip_roots-into_scripts [] inputs = refl
zip_roots-into_scripts ((r, root) ∷ rows) inputs =
    ap (◌∷◌ (r.id, root)) (zip_roots-into_scripts rows _)

get_for_image-link_scripts :
    (image_id : ℕ) (links : List (ℕ × Option ℕ)) (db d : Db)
    → Links.link_scripts image_id links db ≡ ok d
    → map link_in (Links.get_for_image image_id d) ≡ links
unfolding Links.link_scripts Links.get_for_image Catalog.assemble_scripts
get_for_image-link_scripts image_id links db d e =
    let (_, e1) =
      ensure_ok (any (λ i. i.id == image_id && not i.deleted) db.images)
        (Links.no_image_row image_id) _ e in
    let (rows, e2, e3) = bind_ok (Links.link_rows image_id db.scripts 0 [] links) _ d e1 in
    let (same, known) = link_rows-numbered image_id db.scripts 0 [] links rows e2 in
    let others = keep (λ s. not (s.image_id == image_id)) db.image_scripts in
    let own : keep (λ s. s.image_id == image_id) (others ++ rows) ≡ numbered image_id 0 links =
      keep-append (λ s. s.image_id == image_id) others rows
      ∙ ap (◌++ keep (λ s. s.image_id == image_id) rows) (
          keep-nothing (λ s. s.image_id == image_id) (λ s. not (s.image_id == image_id))
            (λ s h. ground arith) db.image_scripts)
      ∙ ap (keep (λ s. s.image_id == image_id)) same
      ∙ keep-numbered image_id 0 links in
    let joined : List (ScriptRow × Option ℕ) =
      Links.join_scripts db.scripts
        (sort_by (λ s. s.position) (keep (λ s. s.image_id == image_id) (others ++ rows))) in
    ap (λ x. map link_in (Links.get_for_image image_id x)) (sym (ok_injective _ d e3))
    ∙ zip_roots-into_scripts joined _
    ∙ ap (λ l. map link_of (Links.join_scripts db.scripts (sort_by (λ s. s.position) l))) own
    ∙ ap (λ l. map link_of (Links.join_scripts db.scripts l)) (sort_by-numbered image_id 0 links)
    ∙ join_scripts-numbered db.scripts image_id 0 links known

-- What is read of an image's scripts after they have been set without an error is the scripts that
-- were given, in their order, each with the root partition that was kept for it.
pub get_for_image-set_for_image :
    (image_id : ℕ) (script_ids : List ℕ) (db : Db)
    → (Links.set_for_image image_id script_ids db).0 ≡ ok tt
    → map link_in (Links.get_for_image image_id (Links.set_for_image image_id script_ids db).1)
      ≡ Links.kept_roots image_id script_ids db
unfolding Links.set_for_image
get_for_image-set_for_image image_id script_ids db =
    go (Links.link_scripts image_id (Links.kept_roots image_id script_ids db) db) refl
  where
    go :
        (r : Result Db)
        → Links.link_scripts image_id (Links.kept_roots image_id script_ids db) db ≡ r
        → (Links.done_or_kept db r).0 ≡ ok tt
        → map link_in (Links.get_for_image image_id (Links.done_or_kept db r).1)
          ≡ Links.kept_roots image_id script_ids db
    go (err x) e h = cc
    go (ok d) e h =
        get_for_image-link_scripts image_id (Links.kept_roots image_id script_ids db) db d e
