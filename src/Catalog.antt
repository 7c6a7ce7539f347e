-- ===== src/Catalog.antt =====
-- packages/ingest/src/document-catalog.ts: the lifecycle of each logical document. An operation that
-- mutates the catalog returns the new one; `now` is `new Date().toISOString()`. The object
-- `documents` is a map from ids to entries: ids that name members of `Object.prototype` are outside
-- the model, and so is the place of integer-like keys in `Object.values`.
mod Sets
pub mod Update
pub mod Versions
pub mod Repeated
pub mod History
pub mod Known
pub mod Kept
pub mod Growth
pub mod Active
mod Examples
use wtfoc.Prelude.{
  String, Bool, true, false, not, ◌&&◌, Option, none, some, List, [], ◌∷◌, ◌++◌, ◌==◌,
  if◌then◌else◌, filter, includes, add_all, or_else, text_has_eq,
}
use wtfoc.Prelude.Dict
use wtfoc.Schema.{
  LifecycleState, active, archived, superseded, Mutability, mutable_state, append_only,
  CatalogEntry, DocumentCatalog,
}

abbrev pub create_empty_catalog : String → DocumentCatalog
create_empty_catalog collection_id = record { collection_id = collection_id; documents = [] }

abbrev pub is_state : LifecycleState → LifecycleState → Bool
is_state active active = true
is_state archived archived = true
is_state superseded superseded = true
is_state _ _ = false

-- The nested loops of `getChunkIdsByState`.
collect_by_state : LifecycleState → List String → List CatalogEntry → List String
collect_by_state state ids [] = ids
collect_by_state state ids (entry ∷ rest) =
    collect_by_state state (if is_state entry.state state then add_all ids entry.chunk_ids else ids)
      rest

pub get_chunk_ids_by_state : DocumentCatalog → LifecycleState → List String
unfolding collect_by_state
get_chunk_ids_by_state catalog state = collect_by_state state [] (Dict.values catalog.documents)

-- `getActiveChunkIds` has the same loops, at the state "active".
pub get_active_chunk_ids : DocumentCatalog → List String
unfolding collect_by_state
get_active_chunk_ids catalog = collect_by_state active [] (Dict.values catalog.documents)

collect_superseded : List String → List CatalogEntry → List String
collect_superseded ids [] = ids
collect_superseded ids (entry ∷ rest) =
    collect_superseded (add_all ids (or_else entry.superseded_chunk_ids [])) rest

pub get_superseded_chunk_ids : DocumentCatalog → List String
unfolding collect_superseded
get_superseded_chunk_ids catalog = collect_superseded [] (Dict.values catalog.documents)

unfoldable pub get_document : DocumentCatalog → String → Option CatalogEntry
get_document catalog document_id = Dict.get document_id catalog.documents

pub record UpdateDocumentOptions : Type 0 where
  pub document_id : String
  pub version_id : String
  pub chunk_ids : List String
  pub content_fingerprints : List String
  pub source_type : String
  pub mutability : Mutability

pub record UpdateDocumentResult : Type 0 where
  pub superseded_chunk_ids : List String
  pub previous_version_id : Option String

abbrev pub nothing_superseded : UpdateDocumentResult
nothing_superseded = record { superseded_chunk_ids = []; previous_version_id = none }

-- `catalog.documents[id] = entry`, also for a write to the entry that stands there.
abbrev pub store : DocumentCatalog → String → CatalogEntry → DocumentCatalog
store catalog id entry = record catalog { documents = Dict.set id entry catalog.documents }

abbrev pub without : List String → List String → List String
without known ids = filter (λ id. not (includes known id)) ids

unfoldable pub create_entry : String → UpdateDocumentOptions → CatalogEntry
create_entry now options = record {
  document_id = options.document_id;
  current_version_id = options.version_id;
  previous_version_ids = [];
  chunk_ids = options.chunk_ids;
  superseded_chunk_ids = some [];
  content_fingerprints = some options.content_fingerprints;
  state = active;
  mutability = options.mutability;
  source_type = options.source_type;
  updated_at = now;
}

-- The branch for append-only documents.
unfoldable pub append_entry : String → CatalogEntry → UpdateDocumentOptions → CatalogEntry
append_entry now existing options =
    let old_fingerprints = or_else existing.content_fingerprints [] in
    record existing {
      chunk_ids = existing.chunk_ids ++ without existing.chunk_ids options.chunk_ids;
      content_fingerprints =
          some (old_fingerprints ++ without old_fingerprints options.content_fingerprints);
      current_version_id = options.version_id;
      updated_at = now;
    }

-- The branch for a new version of a mutable document.
unfoldable pub supersede_entry : String → CatalogEntry → UpdateDocumentOptions → CatalogEntry
supersede_entry now existing options = record existing {
  previous_version_ids = existing.current_version_id ∷ existing.previous_version_ids;
  current_version_id = options.version_id;
  superseded_chunk_ids = some (or_else existing.superseded_chunk_ids [] ++ existing.chunk_ids);
  chunk_ids = options.chunk_ids;
  content_fingerprints =
      some (add_all [] (or_else existing.content_fingerprints [] ++ options.content_fingerprints));
  state = active;
  updated_at = now;
}

unfoldable pub update_existing :
    String
    → DocumentCatalog
    → UpdateDocumentOptions
    → CatalogEntry
    → Mutability
    → DocumentCatalog × UpdateDocumentResult
update_existing now catalog options existing append_only =
    (store catalog options.document_id (append_entry now existing options), nothing_superseded)
update_existing now catalog options existing mutable_state =
    if existing.current_version_id == options.version_id then (catalog, nothing_superseded) else (
      store catalog options.document_id (supersede_entry now existing options),
      record {
        superseded_chunk_ids = existing.chunk_ids;
        previous_version_id = some existing.current_version_id;
      },
    )

unfoldable pub update_found :
    String
    → DocumentCatalog
    → UpdateDocumentOptions
    → Option CatalogEntry
    → DocumentCatalog × UpdateDocumentResult
update_found now catalog options none =
    (store catalog options.document_id (create_entry now options), nothing_superseded)
update_found now catalog options (some existing) =
    update_existing now catalog options existing options.mutability

unfoldable pub update_document :
    String → DocumentCatalog → UpdateDocumentOptions → DocumentCatalog × UpdateDocumentResult
unfolding update_found
update_document now catalog options =
    update_found now catalog options (get_document catalog options.document_id)

abbrev pub archived_entry : String → CatalogEntry → CatalogEntry
archived_entry now existing = record existing { state = archived; updated_at = now }

unfoldable pub archive_found :
    String → DocumentCatalog → String → Option CatalogEntry → DocumentCatalog × List String
archive_found now catalog document_id none = (catalog, [])
archive_found now catalog document_id (some existing) =
    (store catalog document_id (archived_entry now existing), existing.chunk_ids)

-- Returns the catalog and the ids of the chunks that were archived.
unfoldable pub archive_document : String → DocumentCatalog → String → DocumentCatalog × List String
unfolding archive_found
archive_document now catalog document_id =
    archive_found now catalog document_id (get_document catalog document_id)

unfoldable pub rename_found :
    String → DocumentCatalog → String → Option CatalogEntry → DocumentCatalog
rename_found now catalog old_document_id none = catalog
rename_found now catalog old_document_id (some existing) =
    store catalog old_document_id (archived_entry now existing)

unfoldable pub rename_document : String → DocumentCatalog → String → DocumentCatalog
unfolding rename_found
rename_document now catalog old_document_id =
    rename_found now catalog old_document_id (get_document catalog old_document_id)
