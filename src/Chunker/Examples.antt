-- ===== src/Chunker/Examples.antt =====
-- A text of three parts, at which the theorems on chunks are run.
use wtfoc.Prelude.{String, none, some, [], ◌∷◌, ◌≡◌, refl, map, length, arith}
use wtfoc.Prelude.Text.{Text, units}
use wtfoc.Schema.{Chunk}
use wtfoc.Chunker.{find_markdown_split_end, clamp_overlap}
use wtfoc.Chunker.Markdown.{
  whole, no_whole, MarkdownChunkerOptions, invalid_chunk_size, split_markdown, chunk_markdown,
}
use wtfoc.Chunker.Covers.{CoveredBy, chunk_markdown-CoveredBy}
use wtfoc.Chunker.Rechunk.{rechunk_oversized}
use wtfoc.Chunker.Pieces.{Rechunked, rechunk_oversized-Rechunked}

abbrev no_hash : Text → String
no_hash t = "hash"

abbrev text : Text
text = units "One two. Three\n\nfour"

abbrev options : MarkdownChunkerOptions
options = record {
  chunk_size = some (whole 9);
  chunk_overlap = some (whole 2);
  source = "notes.md";
  source_url = none;
  timestamp = none;
  timestamp_kind = none;
  metadata = none;
  document_id = some "notes.md";
  document_version_id = some "v1";
}

overlapping :
    split_markdown text 9 2 ≡ units "One two." ∷ units "o. Three\n" ∷ units "e\n\nfour" ∷ []
unfolding split_markdown find_markdown_split_end
overlapping = refl

size_refused :
    chunk_markdown no_hash text (record options { chunk_size = some no_whole }) ≡ invalid_chunk_size
unfolding chunk_markdown
size_refused = refl

chunk_markdown-CoveredBy_example :
    CoveredBy text 9 (clamp_overlap 2 9) (chunk_markdown no_hash text options)
chunk_markdown-CoveredBy_example =
    chunk_markdown-CoveredBy no_hash text options 9 2 refl refl (omega arith) (omega arith)

abbrev long_chunk : Chunk
long_chunk = record {
  id = "c1";
  content = text;
  source_type = "markdown";
  source = "notes.md";
  source_url = none;
  timestamp = none;
  timestamp_kind = none;
  chunk_index = 0;
  total_chunks = 1;
  metadata = [];
  document_id = none;
  document_version_id = none;
  content_fingerprint = none;
  raw_content = none;
}

split_in_three :
    map (λ c. length c.content) (rechunk_oversized no_hash (long_chunk ∷ []) (some 9))
    ≡ 8 ∷ 6 ∷ 6 ∷ []
unfolding rechunk_oversized find_markdown_split_end
split_in_three = refl

rechunk_oversized-Rechunked_example :
    Rechunked 9 (long_chunk ∷ []) (rechunk_oversized no_hash (long_chunk ∷ []) (some 9))
rechunk_oversized-Rechunked_example =
    rechunk_oversized-Rechunked no_hash (long_chunk ∷ []) 9 (omega arith)
