-- ===== src/Catalog/Update.antt =====
-- packages/ingest/src/pipeline/update-catalog.ts and the catalog half of build-dedup-sets.ts. One
-- `now` stands for the clock readings of a run: nothing reads `updatedAt` back.
use wtfoc.Prelude.{
  ℕ, ◌+◌, String, ◌&&◌, none, some, List, [], ◌∷◌, ◌==◌, map, if◌then◌else◌, includes, add_all,
  or_else, text_has_eq, length, ltb, is_some,
}
use wtfoc.Prelude.Dict
use wtfoc.Prelude.Dict.{Dict}
use wtfoc.Schema.{Chunk, CatalogEntry, DocumentCatalog, truthy, mutable_state, append_only}
use wtfoc.Catalog.{
  UpdateDocumentOptions, UpdateDocumentResult, update_document, archive_document, rename_document,
  get_document,
}

-- `docChunks.map((c) => c.contentFingerprint).filter((fp) => fp !== undefined)`
abbrev pub fingerprints : List Chunk → List String
fingerprints [] = []
fingerprints (c ∷ rest) = elim c.content_fingerprint [
  | none ↦ fingerprints rest
  | some fp ↦ fp ∷ fingerprints rest
]

abbrev pub document_options :
    String → String → List Chunk → Chunk → List String → UpdateDocumentOptions
document_options doc_id version chunks first append_only_types = record {
  document_id = doc_id;
  version_id = version;
  chunk_ids = map (λ c. c.id) chunks;
  content_fingerprints = fingerprints chunks;
  source_type = first.source_type;
  mutability = if includes append_only_types first.source_type then append_only else mutable_state;
}

abbrev counts_superseded : UpdateDocumentResult → ℕ
counts_superseded r =
    if truthy r.previous_version_id && ltb 0 (length r.superseded_chunk_ids) then 1 else 0

-- One round of the loop, once the version is known: the new catalog, and what is added to
-- `docsSuperseded`.
unfoldable pub update_version :
    String
    → List String
    → DocumentCatalog
    → String
    → List Chunk
    → Chunk
    → String
    → DocumentCatalog × ℕ
update_version now append_only_types catalog doc_id chunks first version =
    if first.source_type == "tombstone"
    then ((archive_document now catalog doc_id).0, 0)
    else let (catalog', result) =
        update_document now catalog
          (document_options doc_id version chunks first append_only_types) in
      (catalog', counts_superseded result)

-- `if (!firstChunk?.documentVersionId) continue;`
unfoldable pub update_one :
    String → List String → DocumentCatalog → String → List Chunk → DocumentCatalog × ℕ
unfolding update_version
update_one now append_only_types catalog doc_id [] = (catalog, 0)
update_one now append_only_types catalog doc_id (first ∷ rest) =
    if truthy first.document_version_id
    then update_version now append_only_types catalog doc_id (first ∷ rest) first
        (or_else first.document_version_id "")
    else (catalog, 0)

-- Returns the catalog and `docsSuperseded`.
unfoldable pub update_catalog_from_chunks :
    String → List String → DocumentCatalog → Dict String (List Chunk) → DocumentCatalog × ℕ
update_catalog_from_chunks now append_only_types catalog [] = (catalog, 0)
update_catalog_from_chunks now append_only_types catalog ((doc_id, chunks) ∷ pending) =
    let (catalog', n) = update_one now append_only_types catalog doc_id chunks in
    let (catalog'', m) = update_catalog_from_chunks now append_only_types catalog' pending in
    (catalog'', n + m)

-- `renames` holds the old paths; `${repoArg}/${oldPath}` is `old_id`.
unfoldable pub handle_renames :
    String → DocumentCatalog → List String → (String → String) → DocumentCatalog × ℕ
handle_renames now catalog [] old_id = (catalog, 0)
handle_renames now catalog (old_path ∷ renames) old_id =
    let known = is_some (get_document catalog (old_id old_path)) in
    let catalog' = if known then rename_document now catalog (old_id old_path) else catalog in
    let (catalog'', n) = handle_renames now catalog' renames old_id in
    (catalog'', (if known then 1 else 0) + n)

pub record DedupSets : Type 0 where
  pub known_fingerprints : List String
  pub known_chunk_ids : List String

unfoldable pub collect_dedup : DedupSets → List CatalogEntry → DedupSets
collect_dedup sets [] = sets
collect_dedup sets (entry ∷ rest) =
    collect_dedup
      (record {
        known_fingerprints =
            add_all sets.known_fingerprints (or_else entry.content_fingerprints []);
        known_chunk_ids =
            add_all (add_all sets.known_chunk_ids entry.chunk_ids)
              (or_else entry.superseded_chunk_ids []);
      })
      rest

abbrev pub empty_sets : DedupSets
empty_sets = record { known_fingerprints = []; known_chunk_ids = [] }

unfoldable pub build_dedup_sets_from_catalog : DocumentCatalog → DedupSets
unfolding collect_dedup
build_dedup_sets_from_catalog catalog = collect_dedup empty_sets (Dict.values catalog.documents)
