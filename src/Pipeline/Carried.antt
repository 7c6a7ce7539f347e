-- ===== src/Pipeline/Carried.antt =====
-- packages/ingest/src/pipeline/orchestrate.ts: the chunks that a new version of a document leaves as they
-- are.
use wtfoc.Prelude.{
  ◌<◌, String, Bool, true, false, not, ◌&&◌, Option, none, some, List, [], ◌∷◌, ◌==◌, ◌≡◌, ◌≢◌,
  refl, ap, ◌∙◌, map, all, includes, length, ltb, or_else, text_has_eq, arith, append-nil,
}
use wtfoc.Schema.{Chunk, CatalogEntry, DocumentCatalog, truthy}
use wtfoc.Catalog.{get_document, supersede_entry, store}
use wtfoc.Catalog.Update.{update_catalog_from_chunks, document_options}
use wtfoc.Catalog.Versions.{get_document-store_self, supersede_entry-Replaces}
use wtfoc.Pipeline.{PipelineState}
use wtfoc.Pipeline.Archive.{Outside}
use wtfoc.Pipeline.Stream.{stripped, process_stream}
use wtfoc.Pipeline.Batches.{concat, written}
use wtfoc.Pipeline.Written.{admitted, process_stream-FlushedInOrder}
use wtfoc.Pipeline.Pending.{pend_all, process_stream-Pends}
use wtfoc.Pipeline.Run.{
  StoredChunk, IngestOptions, streamed, finish_run, orchestrate, commit_catalog, commit_renames,
}
use wtfoc.Pipeline.Known.{
  carries, no_filters, carries-admitted, carries-fresh, carries-pending, truthy-or_else,
}
use wtfoc.Catalog.Known.{known-of_document, documents-filled}
use wtfoc.Pipeline.Committed.{concat-none, ids_kept, update_pending, started, started-Ready}

-- The new version of a document in a run whose chunks all have a known fingerprint.
record Carries (o : IngestOptions) (catalog : DocumentCatalog) (old : CatalogEntry)
    (id version : String) (first : Chunk) (rest : List Chunk) : Type 0 where
  given : o.catalog ≡ some catalog
  alone : o.donors ≡ none
  unfiltered : o.stream_options.filters ≡ no_filters
  not_renamed : o.renames ≡ []
  room : 0 < o.stream_options.max_batch
  there : get_document catalog id ≡ some old
  changed : old.current_version_id ≢ version
  named : not (id == "") && not (version == "") ≡ true
  live : (first.source_type == "tombstone") ≡ false
  mutable : includes o.append_only_types first.source_type ≡ false
  unchanged :
      all
        (carries (or_else old.content_fingerprints []) o.stream_options.max_chunk_chars id version)
        (first ∷ rest)
      ≡ true

streamed-nothing :
    (w : Outside) (download : String → Option (List StoredChunk)) (head : Option (List String))
    (o : IngestOptions) (catalog : DocumentCatalog) (old : CatalogEntry) (id version : String)
    (first : Chunk) (rest : List Chunk)
    → Carries o catalog old id version first rest
    → let t = streamed w download head o (first ∷ rest) in
      (t.flushed ≡ [])
      × (t.catalog ≡ catalog)
      × (t.catalog_pending_chunks ≡ (id, map stripped (first ∷ rest)) ∷ [])
unfolding streamed started get_document
streamed-nothing w download head o catalog old id version first rest h =
    let so = o.stream_options in
    let fps = or_else old.content_fingerprints [] in
    let cs = first ∷ rest in
    let s = started w download head o in
    let r =
      started-Ready w download head o catalog h.given h.alone
        (documents-filled id catalog.documents old h.there) in
    let b = r.batched so.max_batch h.room in
    let f = process_stream-FlushedInOrder w so s cs h.room b in
    let p = process_stream-Pends w so s cs in
    let same = carries-admitted w so fps id version cs h.unfiltered h.unchanged in
    let k : (fp : String) → includes fps fp ≡ true → includes s.known_fingerprints fp ≡ true =
      λ fp i. rw r.known (known-of_document catalog id old fp h.there i) in
    let quiet =
      carries-fresh fps s.known_fingerprints s.known_chunk_ids so.max_chunk_chars id version cs k
        h.unchanged in
    let nothing : concat (process_stream w so cs s).flushed ≡ [] =
      cc (f.in_order, same, quiet, r.none_written, append-nil (written s)) in
    (
      concat-none so.max_batch (process_stream w so cs s).flushed f.batched.all_sized nothing,
      p.same_catalog ∙ r.holds,
      p.pending
          ∙ ap (λ m. pend_all (admitted w so cs) m) r.none_pending
          ∙ ap (λ xs. pend_all xs []) same
          ∙ carries-pending fps so.max_chunk_chars id version first rest h.named h.unchanged,
    )

and_false : (a b : Bool) → (a && false && b) ≡ false
and_false true b = refl
and_false false b = refl

commit_renames-none :
    (now : String) (o : IngestOptions) (s : PipelineState)
    → o.renames ≡ []
    → commit_renames now o s ≡ (s, false)
unfolding commit_renames
commit_renames-none now o s r =
    rw r (rw (and_false (not o.is_partial_run) (truthy o.repo_arg)) refl)

finish_catalog :
    (w : Outside) (o : IngestOptions) (s : PipelineState)
    → o.renames ≡ []
    → ltb 0 (length s.catalog_pending_chunks) ≡ true
    → ((finish_run w o s).1.catalog
        ≡ (update_catalog_from_chunks w.now o.append_only_types s.catalog
            s.catalog_pending_chunks).0)
      × ((finish_run w o s).0.flushed ≡ s.flushed)
unfolding finish_run commit_catalog
finish_catalog w o s r pending =
    rw pending
      (rw (commit_renames-none w.now o (commit_catalog w.now o.append_only_types s) r) (refl, refl))

-- What a run makes of a version whose chunks are all unchanged.
pub record NothingWritten (old : CatalogEntry) (id : String) (cs : List Chunk)
    (state : PipelineState) (catalog : DocumentCatalog) : Type 0 where
  pub entry : CatalogEntry
  pub no_batch : state.flushed ≡ []
  pub stands : get_document catalog id ≡ some entry
  pub current : entry.chunk_ids ≡ map (λ c. c.id) cs
  pub retired :
      (x : String)
      → includes old.chunk_ids x ≡ true
      → includes (or_else entry.superseded_chunk_ids []) x ≡ true

carried-NothingWritten :
    (w : Outside) (download : String → Option (List StoredChunk)) (head : Option (List String))
    (o : IngestOptions) (catalog : DocumentCatalog) (old : CatalogEntry) (id version : String)
    (first : Chunk) (rest : List Chunk)
    → Carries o catalog old id version first rest
    → let (t, result) = orchestrate w download head o (first ∷ rest) in
      NothingWritten old id (first ∷ rest) t result.catalog
unfolding orchestrate
carried-NothingWritten w download head o catalog old id version first rest h =
    let cs = map stripped (first ∷ rest) in
    let t = streamed w download head o (first ∷ rest) in
    let (empty, same, waits) =
      streamed-nothing w download head o catalog old id version first rest h in
    let f = finish_catalog w o t h.not_renamed (rw waits refl) in
    let options = document_options id version cs (stripped first) o.append_only_types in
    let entry = supersede_entry w.now old options in
    let r = supersede_entry-Replaces w.now old options in
    let version_of : or_else first.document_version_id "" ≡ version =
      (text_has_eq.same_iff _ version).0 (ground (arith, h.unchanged)) in
    let filled : truthy first.document_version_id ≡ true =
      rw (truthy-or_else first.document_version_id) (rw version_of (ground (arith, h.named))) in
    let done : (finish_run w o t).1.catalog ≡ store catalog id entry =
      f.0
      ∙ rw same (
          rw waits (
            update_pending w.now o.append_only_types catalog id version old (stripped first)
              (map stripped rest) h.there h.changed version_of filled h.live h.mutable)) in
    record {
      entry = entry;
      no_batch = f.1 ∙ empty;
      stands = rw done (get_document-store_self catalog id entry);
      current = r.chunks ∙ ids_kept (first ∷ rest);
      retired = λ x known. ground (arith, r.retired x);
    }

-- If all chunks of a new version of a mutable document have fingerprints that the catalog has for it, in a
-- run without donors, filters and renames whose chunks are all of this document and need not be cut, then
-- the run writes no batch, and yet in the catalog that it answers the chunks of the document are those of
-- the new version, and all that it had are superseded.
pub orchestrate-NothingWritten :
    (w : Outside) (download : String → Option (List StoredChunk)) (head : Option (List String))
    (o : IngestOptions) (catalog : DocumentCatalog) (old : CatalogEntry) (id version : String)
    (first : Chunk) (rest : List Chunk)
    → o.catalog ≡ some catalog
    → o.donors ≡ none
    → o.stream_options.filters ≡ no_filters
    → o.renames ≡ []
    → 0 < o.stream_options.max_batch
    → get_document catalog id ≡ some old
    → old.current_version_id ≢ version
    → not (id == "") && not (version == "") ≡ true
    → (first.source_type == "tombstone") ≡ false
    → includes o.append_only_types first.source_type ≡ false
    → all
        (carries (or_else old.content_fingerprints []) o.stream_options.max_chunk_chars id version)
        (first ∷ rest)
      ≡ true
    → let (t, result) = orchestrate w download head o (first ∷ rest) in
      NothingWritten old id (first ∷ rest) t result.catalog
orchestrate-NothingWritten w download head o catalog old id version first rest g a u r m t c n l x
      f =
    carried-NothingWritten w download head o catalog old id version first rest (record {
      given = g;
      alone = a;
      unfiltered = u;
      not_renamed = r;
      room = m;
      there = t;
      changed = c;
      named = n;
      live = l;
      mutable = x;
      unchanged = f;
    })
