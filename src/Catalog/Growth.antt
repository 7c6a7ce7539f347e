-- ===== src/Catalog/Growth.antt =====
-- packages/ingest/src/pipeline/update-catalog.ts: the sets of known chunks only grow.
use wtfoc.Prelude.{
  ◌==◌, String, true, List, [], ◌∷◌, ◌≡◌, includes, or_else, text_has_eq, inl, inr, is_some,
  Bool-cases,
}
use wtfoc.Prelude.Dict
use wtfoc.Prelude.Dict.{Dict}
use wtfoc.Schema.{Chunk, DocumentCatalog, truthy}
use wtfoc.Catalog.{rename_document, get_document}
use wtfoc.Catalog.Known.{includes-collect_dedup}
use wtfoc.Catalog.Update.{
  DedupSets, build_dedup_sets_from_catalog, update_version, update_one, update_catalog_from_chunks,
  document_options, handle_renames, empty_sets,
}
use wtfoc.Catalog.Kept.{
  Grows, Grows-refl, Grows-trans, update_document-Grows, archive_document-Grows,
  rename_document-Grows,
}

update_one-Grows :
    (now : String) (types : List String) (c : DocumentCatalog) (id : String) (chunks : List Chunk)
    → Grows c (update_one now types c id chunks).0
unfolding update_one update_version
update_one-Grows now types c id [] = Grows-refl c
update_one-Grows now types c id (first ∷ rest) =
    elim (Bool-cases (truthy first.document_version_id)) [
      | inr missing ↦ rw missing (Grows-refl c)
      | inl given ↦ rw given (elim (Bool-cases (first.source_type == "tombstone")) [
        | inl gone ↦ rw gone (archive_document-Grows now c id)
        | inr here ↦ rw here (
            update_document-Grows now c (
              document_options id (or_else first.document_version_id "") (first ∷ rest) first
                types))
      ])
    ]

update_catalog-Grows :
    (now : String) (types : List String) (c : DocumentCatalog) (pending : Dict String (List Chunk))
    → Grows c (update_catalog_from_chunks now types c pending).0
unfolding update_catalog_from_chunks
update_catalog-Grows now types c [] = Grows-refl c
update_catalog-Grows now types c ((id, chunks) ∷ pending) =
    Grows-trans (update_one-Grows now types c id chunks)
      (update_catalog-Grows now types (update_one now types c id chunks).0 pending)

handle_renames-Grows :
    (now : String) (c : DocumentCatalog) (renames : List String) (old_id : String → String)
    → Grows c (handle_renames now c renames old_id).0
unfolding handle_renames
handle_renames-Grows now c [] old_id = Grows-refl c
handle_renames-Grows now c (old_path ∷ renames) old_id =
    let renamed = rename_document now c (old_id old_path) in
    elim (Bool-cases (is_some (get_document c (old_id old_path)))) [
      | inl known ↦ rw known (
          Grows-trans (rename_document-Grows now c (old_id old_path))
            (handle_renames-Grows now renamed renames old_id))
      | inr unknown ↦ rw unknown (handle_renames-Grows now c renames old_id)
    ]

-- The catalog once the pending chunks are taken in and the renamed documents archived.
abbrev pub catalog_after :
    String
    → List String
    → DocumentCatalog
    → Dict String (List Chunk)
    → List String
    → (String → String)
    → DocumentCatalog
catalog_after now types c pending renames old_id =
    (handle_renames now (update_catalog_from_chunks now types c pending).0 renames old_id).0

abbrev pub sets_after :
    String
    → List String
    → DocumentCatalog
    → Dict String (List Chunk)
    → List String
    → (String → String)
    → DedupSets
sets_after now types c pending renames old_id =
    build_dedup_sets_from_catalog (catalog_after now types c pending renames old_id)

-- The dedup sets that `buildDedupSetsFromCatalog` takes from a catalog never get smaller by
-- `updateCatalogFromChunks` and the `handleRenames` that follows it, whatever chunks are pending and
-- whatever paths were renamed: a chunk id that the sets of the catalog hold before the two is held
-- after them, and so is a fingerprint.
pub dedup_sets_grow :
    (now : String) (types : List String) (c : DocumentCatalog) (pending : Dict String (List Chunk))
    (renames : List String) (old_id : String → String) (x : String)
    → (includes (build_dedup_sets_from_catalog c).known_chunk_ids x ≡ true
        → includes (sets_after now types c pending renames old_id).known_chunk_ids x ≡ true)
      × (includes (build_dedup_sets_from_catalog c).known_fingerprints x ≡ true
          → includes (sets_after now types c pending renames old_id).known_fingerprints x ≡ true)
unfolding build_dedup_sets_from_catalog
dedup_sets_grow now types c pending renames old_id x =
    let updated = (update_catalog_from_chunks now types c pending).0 in
    let c' = catalog_after now types c pending renames old_id in
    let g =
      Grows-trans (update_catalog-Grows now types c pending)
        (handle_renames-Grows now updated renames old_id) in
    let before = includes-collect_dedup empty_sets (Dict.values c.documents) x in
    let after = includes-collect_dedup empty_sets (Dict.values c'.documents) x in
    (
      λ h. rw after.0 (g.chunks x (rw before.0 at h)),
      λ h. rw after.1 (g.fingerprints x (rw before.1 at h)),
    )
