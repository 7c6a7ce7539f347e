-- ===== src/Lib.antt =====
-- A model of wtfoc, which ingests documents of many sources into collections and traces how they are
-- connected.
--
-- The parts and how they interact. The ingest pipeline (packages/ingest) cuts documents into chunks
-- and keeps, in the document catalog, which chunks of which document are current; a second run
-- skips what the catalog already knows. The chunks and the edges between them are stored in segments.
-- The search (packages/search) answers a trace: seeds from a vector search, then a walk along the edges
-- of the segments. The web server (apps/web/server) runs ingests and exports as jobs of a queue.
--
-- The files:
--   Prelude and its children: the shared names; `Map` and `Set` of JavaScript as lists in the order
--     of insertion (Prelude/Dict, Prelude/Members), sorting, counting, and texts as lists of UTF-16
--     code units where the program takes them apart (Prelude/Text).
--   Schema: `Chunk`, `DocumentCatalogEntry` and `DocumentCatalog` of
--     packages/common/src/schemas/chunk.ts.
--   Catalog: packages/ingest/src/document-catalog.ts (`updateDocument` is `update_document`, and so
--     on). Catalog/Update: `updateCatalogFromChunks` and `handleRenames` of
--     packages/ingest/src/pipeline/update-catalog.ts, and `buildDedupSetsFromCatalog` of
--     build-dedup-sets.ts there. Catalog/History has the calls for one document and the document's
--     history, which its entry is compared with. The other children hold the proofs.
--   Chunker: where packages/ingest/src/chunker.ts cuts a text, and its chunk ids. Chunker/Markdown:
--     `chunkMarkdown`. Chunker/Rechunk: `rechunkOversized`. The other children hold the proofs.
--   Pipeline: the data of packages/ingest/src/pipeline/types.ts, with the batches of a run as a field of its
--     state. Pipeline/Archive: raw-source-archive.ts. Pipeline/Filters and Pipeline/Stream: `processStream`.
--     Pipeline/Donors: donor-reuse.ts, source-scanner.ts and source-replay.ts. Pipeline/Cursor: persist-cursor.ts.
--     Pipeline/Run: `orchestrate` and `buildDedupSetsFromSegments`. The other children hold the proofs.
--   Jobs: the data of apps/web/server/jobs/types.ts and the state of `InMemoryJobQueue`. The methods of
--     apps/web/server/jobs/in-memory.ts are in Jobs/Operations and Jobs/Queries; Jobs/Steps has the
--     interleavings of the methods as a step relation. `#dispatch` is cut at its `await`. Jobs/Wallets has
--     a wallet's part of the queue, and Jobs/Emission the calls of the listeners. The other children hold
--     the proofs.
--   Edges: the edges that extractors find. Edges/Merge: merge.ts of packages/ingest/src/edges, and
--     `mergeOverlayEdges`. Edges/Extract: composite.ts, `loadAllOverlayEdges`, and extraction-status.ts there.
--     Edges/Grouped has the proof.
--   Store: the artifacts and revisions of packages/common/src/schemas/manifest.ts. Store/Diff:
--     `computeRevisionDiff` of packages/store/src/diff.ts, and the patch that it stands for; Store/Heads:
--     `LocalManifestStore` of packages/store/src/manifest/local.ts, where `putHead` is one step. Store/Patched and
--     Store/Conflicts have the proofs.
--   Trace: the data of packages/search/src/trace. Trace/Source: normalize-source.ts.
--     Trace/Indexing: trace/indexing.ts. Trace/Resolution: `findChunksByTarget` of
--     trace/resolution.ts. Trace/SourceIndex: `buildSourceIndex` and `resolves` of edge-resolution.ts,
--     and Trace/Analysis: `analyzeEdgeResolution` there.
--     Trace/Traversal: `followEdges` of trace/traversal.ts, and the loop over the seeds of trace.ts.
--     Trace/Chronology: trace/chronology.ts; `Date.parse` is a parameter.
--   Repository: the data of apps/web/server/db/repository.ts and the state of `InMemoryRepository`.
--     Repository/Sessions and Repository/Collections: the methods of apps/web/server/db/memory.ts,
--     the sessions, the collections and, in Repository/AuditLog, the audit log as stores that
--     share nothing.
--   RateLimit: `RateLimiter` of apps/web/server/security/rate-limit.ts.
--   Semaphore: packages/ingest/src/edges/semaphore.ts.
--
-- Bounds and fuel. Numbers are the native ones; times are milliseconds. No definition runs on a fuel
-- that the code does not have: `follow_edges` recurs on `maxHops - depth`, and the loops of the chunker on
-- the rounds that the code allows, five more than the text has characters, or on as many rounds as a number
-- has units for its digits; the others recur on their lists.
--
-- Parameters. `toLowerCase`, `Date.parse`, SHA-256, `TextEncoder`, uploads and downloads, the files of other
-- collections, the JSON texts of manifests, the arithmetic of doubles, the clock, `randomUUID` and the valibot
-- schemas of payloads are arguments of the definitions that use them; nothing is assumed of them but what a theorem names.
--
-- Not modelled: what is input and output (files, HTTP, SQL, the FOC network, the user interface, the
-- command line), what a library or a model computes (embedders, rerankers, tree-sitter, language
-- models), floating-point similarity, and of the parts above the abort signal of a trace, its
-- semantic fallback and its lineage, conclusion and insights; what a batch goes through when it is flushed
-- (packages/ingest/src/pipeline/flush-batch.ts), the check of a manifest's schema, and writes of two processes to
-- one head in between each other.
pub mod Prelude
pub mod Schema
pub mod Catalog
pub mod Jobs
pub mod Trace
pub mod Repository
pub mod Semaphore
pub mod Chunker
pub mod Pipeline
pub mod Store
pub mod Edges
pub mod RateLimit
