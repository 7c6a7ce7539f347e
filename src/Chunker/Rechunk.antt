-- ===== src/Chunker/Rechunk.antt =====
-- packages/ingest/src/chunker.ts: `rechunkOversized`, which splits the chunks that are too long.
use wtfoc.Prelude.{
  ℕ, zero, suc, ◌+◌, min, String, Option, some, List, [], ◌∷◌, ◌++◌, slice, length, leb, ltb,
  or_else, if◌then◌else◌, text_has_eq,
}
use wtfoc.Prelude.Dict
use wtfoc.Prelude.Text.{Text}
use wtfoc.Schema.{Chunk}
use wtfoc.Chunker.{find_markdown_split_end, compute_chunk_id}
use wtfoc.Chunker.Markdown.{map_from}

abbrev pub piece_end : Text → ℕ → ℕ → ℕ
piece_end text start max_end =
    let end =
      if leb (length text) max_end
      then length text
      else find_markdown_split_end text start max_end in
    if leb end start then max_end else end

-- `pieces`, from a round on
unfoldable pub split_pieces : ℕ → Text → ℕ → ℕ → List Text
split_pieces zero text limit start = []
split_pieces (suc rounds) text limit start =
    let end = piece_end text start (min (start + limit) (length text)) in
    let rest = split_pieces rounds text limit end in
    if leb (length text) start
    then []
    else (if leb (length text) end then slice start end text ∷ [] else slice start end text ∷ rest)

abbrev pub piece_chunk : (Text → String) → Chunk → ℕ → ℕ → Text → Chunk
piece_chunk sha c total_chunks i content = record c {
  id = compute_chunk_id sha content i c.document_id c.document_version_id;
  content = content;
  chunk_index = i;
  total_chunks = total_chunks;
  content_fingerprint = some (sha content);
  metadata = Dict.set "parentChunkId" c.id c.metadata;
}

unfoldable pub split_oversized : (Text → String) → ℕ → Chunk → List Chunk
unfolding split_pieces
split_oversized sha limit c =
    let pieces = split_pieces (length c.content + 5) c.content limit 0 in
    map_from 0 (piece_chunk sha c (length pieces)) pieces

-- The body of the loop over the chunks.
abbrev pub rechunk_one : (Text → String) → ℕ → Chunk → List Chunk
rechunk_one sha limit c =
    if leb (length c.content) limit then c ∷ [] else split_oversized sha limit c

abbrev pub rechunk_all : (Text → String) → ℕ → List Chunk → List Chunk
rechunk_all sha limit [] = []
rechunk_all sha limit (c ∷ cs) = rechunk_one sha limit c ++ rechunk_all sha limit cs

unfoldable pub rechunk_oversized : (Text → String) → List Chunk → Option ℕ → List Chunk
unfolding split_oversized
rechunk_oversized sha chunks max_chars =
    let limit = or_else max_chars 4000 in
    if ltb limit 1 then chunks else rechunk_all sha limit chunks
