-- ===== src/Pipeline/Donors.antt =====
-- packages/ingest/src/source-scanner.ts, source-replay.ts and pipeline/donor-reuse.ts: sources that other
-- collections have archived. `read_index` reads the archive index of a collection, `fetch` downloads and
-- decodes a blob and is none if that fails, `read_catalog` reads the catalog of a collection.
use Prim.Native.Char.{code}
use wtfoc.Prelude.{
  ◌+◌, String, Bool, not, ◌&&◌, ◌||◌, Option, none, some, List, [], ◌∷◌, ◌++◌, ◌==◌, ◌≡◌, refl, map,
  filter, nat_beq, or_else, add_all, if◌then◌else◌, text_has_eq,
}
use wtfoc.Prelude.Dict
use wtfoc.Prelude.Dict.{Dict}
use wtfoc.Prelude.Text.{units}
use wtfoc.Schema.{Chunk, CatalogEntry, DocumentCatalog, truthy}
use wtfoc.Pipeline.{RawSourceEntry, RawSourceIndex, PipelineState}
use wtfoc.Pipeline.Archive.{Outside, is_archived, archive_raw_source, find_entries_by_source_key}

pub record SourceMatch : Type 0 where
  pub collection_name : String
  pub archive_entries : List RawSourceEntry

abbrev pub validate_donor_entry : RawSourceEntry → Bool
validate_donor_entry entry =
    truthy entry.source_key
    && not (entry.storage_id == "")
    && not (entry.document_id == "")
    && not (entry.document_version_id == "")

abbrev if_match : String → List RawSourceEntry → List SourceMatch
if_match name [] = []
if_match name (e ∷ es) = record { collection_name = name; archive_entries = e ∷ es } ∷ []

-- One round of the loop.
abbrev scan_one : (String → Option RawSourceIndex) → String → String → String → List SourceMatch
scan_one read_index source_key exclude_collection name =
    if name == exclude_collection then [] else elim (read_index name) [
      | none ↦ []
      | some index ↦
          if_match name (filter validate_donor_entry (find_entries_by_source_key index source_key))
    ]

-- Without the cache, which the run does not pass.
unfoldable pub scan_for_reusable_sources :
    (String → Option RawSourceIndex) → String → String → List String → List SourceMatch
scan_for_reusable_sources read_index source_key exclude_collection [] = []
scan_for_reusable_sources read_index source_key exclude_collection (name ∷ projects) =
    scan_one read_index source_key exclude_collection name
    ++ scan_for_reusable_sources read_index source_key exclude_collection projects

abbrev default_timestamp_kinds : Dict String String
default_timestamp_kinds =
    ("github-issue", "updated")
    ∷ ("github-pr", "updated")
    ∷ ("github-pr-comment", "updated")
    ∷ ("github-discussion", "updated")
    ∷ ("slack-message", "created")
    ∷ ("discord-message", "created")
    ∷ ("code", "committed")
    ∷ ("markdown", "committed")
    ∷ ("doc-page", "published")
    ∷ []

-- `entry.metadata?.[defaultKind]`
abbrev meta_value : RawSourceEntry → Option String → Option String
meta_value entry none = none
meta_value entry (some kind) = Dict.get kind (or_else entry.metadata [])

-- The timestamp and its kind.
unfoldable pub derive_replay_timestamp : RawSourceEntry → String × String
derive_replay_timestamp entry =
    let kind = Dict.get entry.source_type default_timestamp_kinds in
    let value = meta_value entry kind in
    if truthy value then (or_else value "", or_else kind "") else (entry.fetched_at, "ingested")

-- What follows the first slash: the parts of `split("/")` but the first, joined again.
unfoldable pub tail_parts : String → String
tail_parts String.[] = ""
tail_parts (String.◌∷◌ c s) = if nat_beq (code c) b'/' then s else tail_parts s

-- `documentId.split("/").slice(2).join("/")`, which is empty also if there is no slash.
unfoldable pub replay_path : String → String
unfolding tail_parts
replay_path document_id = tail_parts (tail_parts document_id)

unfoldable pub replay_chunk : Outside → RawSourceEntry → String → Chunk
unfolding replay_path
replay_chunk w entry content =
    let (timestamp, kind) = derive_replay_timestamp entry in
    let path = replay_path entry.document_id in
    record {
      id = w.sha (
          units entry.document_id
          ++ (units ":" ++ (units entry.document_version_id ++ (units ":0:" ++ units content))));
      content = units content;
      source_type = entry.source_type;
      source = entry.document_id;
      source_url = entry.source_url;
      timestamp = some timestamp;
      timestamp_kind = some kind;
      chunk_index = 0;
      total_chunks = 1;
      metadata = if path == "" then [] else ("filePath", path) ∷ [];
      document_id = some (entry.document_id);
      document_version_id = some (entry.document_version_id);
      content_fingerprint = some (w.sha (units content));
      raw_content = some content;
    }

-- A blob that does not download is passed over.
unfoldable pub replay_from_archive :
    Outside → (String → Option String) → List RawSourceEntry → List Chunk
replay_from_archive w fetch [] = []
replay_from_archive w fetch (entry ∷ entries) =
    let rest = replay_from_archive w fetch entries in
    elim (fetch entry.storage_id) [
      | none ↦ rest
      | some content ↦ replay_chunk w entry content ∷ rest
    ]

-- `replayedChunk.documentId` in the catalog of the donor, if that is read.
abbrev pub donor_document : Option DocumentCatalog → Chunk → Option CatalogEntry
donor_document none c = none
donor_document (some catalog) c =
    if truthy c.document_id then Dict.get (or_else c.document_id "") catalog.documents else none

abbrev pub learn_document : Option CatalogEntry → PipelineState → PipelineState
learn_document none s = s
learn_document (some entry) s = record s {
  known_fingerprints = add_all s.known_fingerprints (or_else entry.content_fingerprints []);
  known_chunk_ids = add_all s.known_chunk_ids entry.chunk_ids;
}

-- The same test as in the stream.
abbrev pub needs_archive : Chunk → PipelineState → Bool
needs_archive c s =
    truthy c.raw_content
    && truthy c.document_id
    && truthy c.document_version_id
    && not
        (is_archived s.archive_index (or_else c.document_id "") (or_else c.document_version_id ""))

unfoldable pub archive_donor : Outside → String → Chunk → PipelineState → PipelineState
unfolding archive_raw_source
archive_donor w source_key c s =
    let (index, id) =
      archive_raw_source w s.archive_index (or_else c.document_id "")
        (or_else c.document_version_id "") (or_else c.raw_content "")
        (record {
          source_type = c.source_type;
          source_url = c.source_url;
          source_key = some source_key;
          file_path = Dict.get "filePath" c.metadata;
          metadata = none;
        }) in
    record s {
      archive_index = index;
      stats = record s.stats { archived_count = s.stats.archived_count + 1 };
    }

abbrev pub count_reused : PipelineState → PipelineState
count_reused s = record s {
  stats = record s.stats { reused_from_donors = s.stats.reused_from_donors + 1 };
}

-- The body of the inner loop.
unfoldable pub reuse_chunk :
    Outside → String → Option DocumentCatalog → PipelineState → Chunk → PipelineState
unfolding archive_donor
reuse_chunk w source_key catalog s c =
    let t = if needs_archive c s then archive_donor w source_key c s else s in
    count_reused (learn_document (donor_document catalog c) t)

unfoldable pub reuse_chunks :
    Outside → String → Option DocumentCatalog → PipelineState → List Chunk → PipelineState
unfolding reuse_chunk
reuse_chunks w source_key catalog s [] = s
reuse_chunks w source_key catalog s (c ∷ cs) =
    reuse_chunks w source_key catalog (reuse_chunk w source_key catalog s c) cs

pub record DonorReuse : Type 0 where
  pub source_reuse : Bool
  pub reuse_donor_chunks : Bool
  pub is_partial_run : Bool
  pub source_key : String
  pub collection_name : String
  pub projects : List String
  pub read_index : String → Option RawSourceIndex
  pub fetch : String → Option String
  pub read_catalog : String → Option DocumentCatalog

unfoldable pub reuse_matches :
    Outside → DonorReuse → PipelineState → List SourceMatch → PipelineState
unfolding reuse_chunks replay_from_archive
reuse_matches w d s [] = s
reuse_matches w d s (m ∷ ms) =
    let catalog = if d.reuse_donor_chunks then d.read_catalog m.collection_name else none in
    reuse_matches w d
      (reuse_chunks w d.source_key catalog s (replay_from_archive w d.fetch m.archive_entries)) ms

unfoldable pub reuse_found : Outside → DonorReuse → PipelineState → List SourceMatch → PipelineState
unfolding reuse_matches
reuse_found w d s [] = s
reuse_found w d s (m ∷ ms) =
    reuse_matches w d
      (record s {
        stats = record s.stats { donor_collection_names = map (λ m. m.collection_name) (m ∷ ms) };
      })
      (m ∷ ms)

unfoldable pub reuse_donor_sources : Outside → DonorReuse → PipelineState → PipelineState
unfolding scan_for_reusable_sources reuse_found
reuse_donor_sources w d s =
    if not d.source_reuse || d.is_partial_run
    then s
    else reuse_found w d s
        (scan_for_reusable_sources d.read_index d.source_key d.collection_name d.projects)

second_slash : replay_path "acme/site/docs/a.md" ≡ "docs/a.md"
unfolding replay_path
second_slash = refl
