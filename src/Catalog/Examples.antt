-- ===== src/Catalog/Examples.antt =====
-- Tests of the catalog on a document with two versions, and the theorems at it.
use wtfoc.Prelude.{
  String, true, ◌||◌, none, some, List, [], ◌∷◌, ◌≡◌, ◌≢◌, refl, includes, text_has_eq, ==_iff,
  arith,
}
use wtfoc.Prelude.Dict
use wtfoc.Prelude.Dict.{Dict}
use wtfoc.Schema.{Chunk, active, archived, CatalogEntry, DocumentCatalog, mutable_state}
use wtfoc.Catalog.{
  UpdateDocumentOptions, create_empty_catalog, update_document, update_found, update_existing,
  archive_document, get_document, supersede_entry, get_active_chunk_ids, get_superseded_chunk_ids,
}
use wtfoc.Catalog.Update.{
  build_dedup_sets_from_catalog, update_catalog_from_chunks, update_one, update_version,
}
use wtfoc.Catalog.History.{
  Event, ingested, removed, apply_all, unseen, history, Follows, entry_tells_history,
}
use wtfoc.Catalog.Repeated.{update_document_idem}
use wtfoc.Catalog.Growth.{dedup_sets_grow, sets_after}
use wtfoc.Catalog.Active.{
  active_after_new_version, active_after_archive, active_elsewhere, kept_chunk_is_superseded,
}

abbrev first_version : CatalogEntry
first_version = record {
  document_id = "o/r/a.ts";
  current_version_id = "v1";
  previous_version_ids = [];
  chunk_ids = "c1" ∷ "c2" ∷ [];
  superseded_chunk_ids = none;
  content_fingerprints = some ("f1" ∷ []);
  state = active;
  mutability = mutable_state;
  source_type = "code";
  updated_at = "t0";
}

abbrev catalog : DocumentCatalog
catalog = record { collection_id = "col"; documents = ("o/r/a.ts", first_version) ∷ [] }

abbrev second_version : UpdateDocumentOptions
second_version = record {
  document_id = "o/r/a.ts";
  version_id = "v2";
  chunk_ids = "c3" ∷ [];
  content_fingerprints = "f1" ∷ "f3" ∷ [];
  source_type = "code";
  mutability = mutable_state;
}

abbrev same_again : UpdateDocumentOptions
same_again = record second_version { version_id = "v1" }

abbrev partly_new : UpdateDocumentOptions
partly_new = record second_version { chunk_ids = "c2" ∷ "c3" ∷ [] }

there : get_document catalog "o/r/a.ts" ≡ some first_version
unfolding get_document Dict.get
there = refl

changed : ◌≢◌ {A = String} "v1" "v2"
changed = ground (arith, ==_iff {K = String} "v1" "v2")

other_id : ◌≢◌ {A = String} "o/r/a.ts" "o/r/b.ts"
other_id = ground (arith, ==_iff {K = String} "o/r/a.ts" "o/r/b.ts")

active_after_update :
    get_active_chunk_ids (update_document "t1" catalog second_version).0 ≡ "c3" ∷ []
unfolding get_active_chunk_ids update_document update_found update_existing get_document Dict.get
    Dict.set supersede_entry
active_after_update = refl

-- The second version arrives twice, and the document is removed in between.
abbrev events : List Event
events =
    ingested "t0" same_again
    ∷ ingested "t1" second_version
    ∷ removed "t2"
    ∷ ingested "t3" second_version
    ∷ []

entry_tells_history_example :
    Follows "o/r/a.ts"
      (apply_all "o/r/a.ts" (create_empty_catalog "col") events)
      (history unseen events)
unfolding get_document Dict.get
entry_tells_history_example =
    entry_tells_history "o/r/a.ts" (create_empty_catalog "col") events
      (refl, refl, (refl, refl, (refl, refl, tt))) refl

-- The history has two versions, and its document is archived.
two_versions :
    history unseen events ≡ record { versions = second_version ∷ same_again ∷ []; state = archived }
two_versions = refl

update_document_idem_example :
    (update_document "t1" (update_document "t1" catalog second_version).0 second_version).0
    ≡ (update_document "t1" catalog second_version).0
update_document_idem_example = update_document_idem "t1" catalog second_version

active_after_new_version_example :
    includes (get_active_chunk_ids (update_document "t1" catalog second_version).0) "c3"
    ≡ (includes {A = String} ("c3" ∷ []) "c3" || active_elsewhere catalog "o/r/a.ts" "c3")
active_after_new_version_example =
    active_after_new_version "t1" catalog second_version first_version "c3" refl there refl changed

active_after_archive_example :
    (includes (get_active_chunk_ids (archive_document "t1" catalog "o/r/a.ts").0) "c1"
      ≡ active_elsewhere catalog "o/r/a.ts" "c1")
    × ((archive_document "t1" catalog "o/r/a.ts").1 ≡ "c1" ∷ "c2" ∷ [])
active_after_archive_example =
    active_after_archive "t1" catalog "o/r/a.ts" first_version "c1" refl there

kept_chunk_is_superseded_example :
    (includes (get_superseded_chunk_ids (update_document "t1" catalog partly_new).0) "c2" ≡ true)
    × (includes (get_active_chunk_ids (update_document "t1" catalog partly_new).0) "c2" ≡ true)
kept_chunk_is_superseded_example =
    kept_chunk_is_superseded "t1" catalog partly_new first_version "c2" refl there refl changed refl
      refl

abbrev chunk : Chunk
chunk = record {
  id = "c3";
  content = [];
  source_type = "code";
  source = "o/r/a.ts";
  source_url = none;
  timestamp = none;
  timestamp_kind = none;
  chunk_index = 0;
  total_chunks = 1;
  metadata = [];
  document_id = some "o/r/a.ts";
  document_version_id = some "v2";
  content_fingerprint = some "f3";
  raw_content = none;
}

abbrev pending : Dict String (List Chunk)
pending = ("o/r/a.ts", chunk ∷ []) ∷ []

-- The file was at another path before.
abbrev old_paths : String → String
old_paths path = path

dedup_sets_grow_example :
    (includes (build_dedup_sets_from_catalog catalog).known_chunk_ids "c1" ≡ true
      → includes
          (sets_after "t1" [] catalog pending ("o/r/a.ts" ∷ []) old_paths).known_chunk_ids
          "c1"
        ≡ true)
    × (includes (build_dedup_sets_from_catalog catalog).known_fingerprints "c1" ≡ true
        → includes
            (sets_after "t1" [] catalog pending ("o/r/a.ts" ∷ []) old_paths).known_fingerprints
            "c1"
          ≡ true)
dedup_sets_grow_example = dedup_sets_grow "t1" [] catalog pending ("o/r/a.ts" ∷ []) old_paths "c1"

superseded_count : (update_catalog_from_chunks "t1" [] catalog pending).1 ≡ 1
unfolding update_catalog_from_chunks update_one update_version update_document update_found
    update_existing get_document Dict.get Dict.set supersede_entry
superseded_count = refl
