-- ===== src/Pipeline/Committed.antt =====
-- packages/ingest/src/pipeline/orchestrate.ts: the state that a stream starts with, and what the catalog
-- makes of the one document that waits.
use wtfoc.Prelude.{
  ℕ, ◌<◌, String, true, false, Option, none, some, List, [], ◌∷◌, ◌==◌, ◌≡◌, ◌≢◌, refl, ap, map,
  all, includes, length, ltb, or_else, text_has_eq, arith,
}
use wtfoc.Schema.{Chunk, CatalogEntry, DocumentCatalog, truthy, mutable_state}
use wtfoc.Catalog.{get_document, supersede_entry, store}
use wtfoc.Catalog.Update.{
  build_dedup_sets_from_catalog, update_catalog_from_chunks, update_one, update_version,
  document_options,
}
use wtfoc.Catalog.Versions.{update_document-supersedes}
use wtfoc.Pipeline.{PipelineState}
use wtfoc.Pipeline.Archive.{Outside}
use wtfoc.Pipeline.Stream.{stripped}
use wtfoc.Pipeline.Batches.{concat, written, sized, Batched}
use wtfoc.Pipeline.Run.{StoredChunk, IngestOptions, initial_state, build_dedup, reuse_donors}

-- Batches that hold nothing and are all filled are none.
pub concat-none :
    (max_batch : ℕ) (bs : List (List Chunk))
    → all (sized max_batch) bs ≡ true
    → concat bs ≡ []
    → bs ≡ []
concat-none max_batch [] h e = refl
concat-none max_batch ([] ∷ bs) h e = absurd (ground arith)
concat-none max_batch ((c ∷ cs) ∷ bs) h e = absurd (cc e)

pub ids_kept : (cs : List Chunk) → map (λ c. c.id) (map stripped cs) ≡ map (λ c. c.id) cs
ids_kept [] = refl
ids_kept (c ∷ cs) = ap (λ ids. c.id ∷ ids) (ids_kept cs)

-- The catalog takes over the new version of the one document that waits.
pub update_pending :
    (now : String) (types : List String) (c : DocumentCatalog) (id version : String)
    (old : CatalogEntry) (first : Chunk) (rest : List Chunk)
    → get_document c id ≡ some old
    → old.current_version_id ≢ version
    → or_else first.document_version_id "" ≡ version
    → truthy first.document_version_id ≡ true
    → (first.source_type == "tombstone") ≡ false
    → includes types first.source_type ≡ false
    → (update_catalog_from_chunks now types c ((id, first ∷ rest) ∷ [])).0
      ≡ store c id
          (supersede_entry now old (document_options id version (first ∷ rest) first types))
unfolding update_catalog_from_chunks update_one update_version
update_pending now types c id version old first rest there changed same filled live mutable =
    let o = document_options id version (first ∷ rest) first types in
    let m : o.mutability ≡ mutable_state = rw mutable refl in
    rw filled (rw live (rw same (rw (update_document-supersedes now c o old there m changed) refl)))

-- The state with which the stream starts.
unfoldable pub started :
    Outside
    → (String → Option (List StoredChunk))
    → Option (List String)
    → IngestOptions
    → PipelineState
started w download head o = reuse_donors w o.donors (build_dedup download head (initial_state o))

pub record Ready (c : DocumentCatalog) (s : PipelineState) : Type 0 where
  pub holds : s.catalog ≡ c
  pub known : s.known_fingerprints ≡ (build_dedup_sets_from_catalog c).known_fingerprints
  pub none_pending : s.catalog_pending_chunks ≡ []
  pub none_written : written s ≡ []
  pub batched : (max_batch : ℕ) → 0 < max_batch → Batched max_batch s

pub started-Ready :
    (w : Outside) (download : String → Option (List StoredChunk)) (head : Option (List String))
    (o : IngestOptions) (catalog : DocumentCatalog)
    → o.catalog ≡ some catalog
    → o.donors ≡ none
    → ltb 0 (length catalog.documents) ≡ true
    → Ready catalog (started w download head o)
unfolding started build_dedup reuse_donors
started-Ready w download head o catalog given alone filled = rw alone (
    rw given (
      rw filled (record {
        holds = refl;
        known = refl;
        none_pending = refl;
        none_written = refl;
        batched =
            λ max_batch m. record { all_sized = refl; room = m; ingested = refl; numbered = refl };
      })))
