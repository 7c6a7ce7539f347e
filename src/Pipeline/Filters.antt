-- ===== src/Pipeline/Filters.antt =====
-- packages/ingest/src/pipeline/process-stream.ts: `shouldIncludeChunk` and `pickArchiveMetadata`.
-- `parse_date` gives the milliseconds of a date, counted from the earliest one, and none for `NaN`.
use wtfoc.Prelude.{
  ℕ, String, Bool, true, false, not, ◌&&◌, ◌||◌, Option, none, some, List, [], ◌∷◌, ◌++◌, ◌==◌, any,
  includes, leb, filter, text_has_eq,
}
use wtfoc.Prelude.Dict
use wtfoc.Prelude.Dict.{Dict}
use wtfoc.Prelude.Text.{units, starts_with}
use wtfoc.Schema.{Chunk}
use wtfoc.Pipeline.{DocumentFilters}

-- `a ?? b`
abbrev pub or_option : Option String → Option String → Option String
or_option none b = b
or_option (some a) b = some a

-- `chunk.timestamp ?? chunk.metadata.updatedAt ?? chunk.metadata.createdAt`
abbrev pub source_time : Chunk → Option String
source_time c =
    or_option c.timestamp
      (or_option (Dict.get "updatedAt" c.metadata) (Dict.get "createdAt" c.metadata))

abbrev by_document : Option (List String) → Option String → Bool
by_document none id = true
by_document (some ids) none = true
by_document (some ids) (some id) = id == "" || includes ids id

abbrev under_path : String → String → Bool
under_path path p = path == p || starts_with (units path) (units p ++ units "/")

abbrev by_path : Option (List String) → Option String → Bool
by_path none path = true
by_path (some paths) none = false
by_path (some paths) (some path) = not (path == "") && any (under_path path) paths

abbrev since : Option ℕ → ℕ → Bool
since none ms = false
since (some time) ms = leb ms time

abbrev by_time : (String → Option ℕ) → Option ℕ → Option String → Bool
by_time parse none ts = true
by_time parse (some ms) none = false
by_time parse (some ms) (some ts) = not (ts == "") && since (parse ts) ms

unfoldable pub should_include_chunk : (String → Option ℕ) → Chunk → DocumentFilters → Bool
should_include_chunk parse c f =
    by_document f.document_ids c.document_id
    && by_path f.source_paths (Dict.get "filePath" c.metadata)
    && by_time parse f.changed_since_ms (source_time c)

abbrev is_kept_field : String × String → Bool
is_kept_field p = not (includes ("filePath" ∷ "language" ∷ "repo" ∷ []) p.0)

abbrev if_filled : Dict String String → Option (Dict String String)
if_filled [] = none
if_filled (b ∷ m) = some (b ∷ m)

-- The values are strings already.
abbrev pub pick_archive_metadata : Dict String String → Option (Dict String String)
pick_archive_metadata metadata = if_filled (filter is_kept_field metadata)
