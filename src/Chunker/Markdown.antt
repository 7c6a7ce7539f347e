-- ===== src/Chunker/Markdown.antt =====
-- packages/ingest/src/chunker.ts: `chunkMarkdown`. The loop runs for at most as many rounds as the code
-- allows it, the length of the text and five. Where `end - chunkOverlap` is negative it is below `start`
-- in the code, and it is 0 here, which is not above `start` either.
use wtfoc.Prelude.{
  ℕ, zero, suc, ◌+◌, ◌-◌, min, String, ◌&&◌, Option, none, some, List, [], ◌∷◌, slice, length, leb,
  ltb, or_else, if◌then◌else◌,
}
use wtfoc.Prelude.Dict.{Dict}
use wtfoc.Prelude.Text.{Text}
use wtfoc.Schema.{Chunk, truthy}
use wtfoc.Chunker.{find_markdown_split_end, clamp_overlap, compute_chunk_id}

-- A number of JavaScript: one that is finite, whole and not negative, or any other.
pub data JsNumber : Type 0 where
  whole : ℕ → JsNumber
  no_whole : JsNumber

pub record MarkdownChunkerOptions : Type 0 where
  pub chunk_size : Option JsNumber
  pub chunk_overlap : Option JsNumber
  pub source : String
  pub source_url : Option String
  pub timestamp : Option String
  pub timestamp_kind : Option String
  pub metadata : Option (Dict String String)
  pub document_id : Option String
  pub document_version_id : Option String

pub data Chunked : Type 0 where
  invalid_chunk_size invalid_chunk_overlap : Chunked
  chunked : List Chunk → Chunked

-- `end` of a round, where the text does not end in the window.
abbrev pub round_end : Text → ℕ → ℕ → ℕ → ℕ → ℕ
round_end text overlap start prev_end max_end =
    let first = find_markdown_split_end text start max_end in
    let end =
      if ltb 0 overlap && leb first prev_end && ltb prev_end max_end
      then find_markdown_split_end text prev_end max_end
      else first in
    if leb end start then max_end else end

abbrev pub next_start : ℕ → ℕ → ℕ → ℕ
next_start overlap start end = if leb (end - overlap) start then end else end - overlap

-- `rawChunks`, from a round on
unfoldable pub split_rounds : ℕ → Text → ℕ → ℕ → ℕ → ℕ → List Text
split_rounds zero text size overlap start prev_end = []
split_rounds (suc rounds) text size overlap start prev_end =
    let max_end = min (start + size) (length text) in
    let end =
      if leb (length text) max_end
      then length text
      else round_end text overlap start prev_end max_end in
    let rest = split_rounds rounds text size overlap (next_start overlap start end) end in
    if leb (length text) start
    then []
    else (if leb (length text) end then slice start end text ∷ [] else slice start end text ∷ rest)

unfoldable pub split_markdown : Text → ℕ → ℕ → List Text
unfolding split_rounds
split_markdown text size overlap = split_rounds (length text + 5) text size overlap 0 0

-- An id that is falsy is not set.
abbrev if_truthy : Option String → Option String
if_truthy id = if truthy id then id else none

abbrev pub markdown_chunk : (Text → String) → MarkdownChunkerOptions → ℕ → ℕ → Text → Chunk
markdown_chunk sha o total_chunks chunk_index content = record {
  id = compute_chunk_id sha content chunk_index o.document_id o.document_version_id;
  content = content;
  source_type = "markdown";
  source = o.source;
  source_url = o.source_url;
  timestamp = o.timestamp;
  timestamp_kind = o.timestamp_kind;
  chunk_index = chunk_index;
  total_chunks = total_chunks;
  metadata = or_else o.metadata [];
  document_id = if_truthy o.document_id;
  document_version_id = if_truthy o.document_version_id;
  content_fingerprint = some (sha content);
  raw_content = none;
}

-- `pieces.map((content, i) => …)`, from an index on
abbrev pub map_from : ℕ → (ℕ → Text → Chunk) → List Text → List Chunk
map_from i f [] = []
map_from i f (t ∷ ts) = f i t ∷ map_from (suc i) f ts

abbrev pub chunk_checked : (Text → String) → Text → MarkdownChunkerOptions → ℕ → ℕ → List Chunk
chunk_checked sha markdown o size overlap =
    let raw_chunks = split_markdown markdown size (clamp_overlap overlap size) in
    map_from 0 (markdown_chunk sha o (length raw_chunks)) raw_chunks

abbrev pub check_overlap : (Text → String) → Text → MarkdownChunkerOptions → ℕ → JsNumber → Chunked
check_overlap sha markdown o size no_whole = invalid_chunk_overlap
check_overlap sha markdown o size (whole overlap) =
    chunked (chunk_checked sha markdown o size overlap)

-- A size of 0 is refused with those that are no whole numbers.
abbrev pub check_size :
    (Text → String) → Text → MarkdownChunkerOptions → JsNumber → JsNumber → Chunked
check_size sha markdown o no_whole overlap = invalid_chunk_size
check_size sha markdown o (whole zero) overlap = invalid_chunk_size
check_size sha markdown o (whole (suc n)) overlap = check_overlap sha markdown o (suc n) overlap

-- An empty text has no chunks: the loop ends before its first round.
unfoldable pub chunk_markdown : (Text → String) → Text → MarkdownChunkerOptions → Chunked
unfolding split_markdown
chunk_markdown sha markdown o =
    check_size sha markdown o (or_else o.chunk_size (whole 512)) (or_else o.chunk_overlap (whole 0))
