-- ===== src/Trace/SourceIndex.antt =====
-- packages/search/src/edge-resolution.ts: the lighter index that only answers whether the target of
-- an edge resolves. A `Set` is the list of its members in the order of insertion.
pub mod Linked
pub mod Agreement
use wtfoc.Prelude.{
  String, Bool, true, false, ◌&&◌, ◌||◌, Option, none, some, List, [], ◌∷◌, ◌≡◌, any, includes, add,
}
use wtfoc.Prelude.Dict
use wtfoc.Prelude.Dict.{Dict}
use wtfoc.Prelude.Text.{Text, contains, after_slash, units_have_eq}
use wtfoc.Trace.{SegmentChunk, Segment}
use wtfoc.Trace.Source.{normalize_repo_source}
use wtfoc.Trace.Indexing.{push_at, push_repo}
use wtfoc.Trace.Resolution.{is_structured, repo_local_path}

pub record SourceIndex : Type 0 where
  pub chunk_ids : List Text
  pub by_source : Dict Text (List Text)
  pub by_repo_name : Dict Text (List Text)

-- The body of the loop over the chunks.
unfoldable pub add_source : (Text → Text) → SourceIndex → SegmentChunk → SourceIndex
add_source lower index c =
    let key = normalize_repo_source lower c.chunk.source in
    record {
      chunk_ids = add index.chunk_ids c.id;
      by_source = push_at key c.id index.by_source;
      by_repo_name = push_repo (after_slash key) c.id index.by_repo_name;
    }

unfoldable pub add_sources : (Text → Text) → SourceIndex → List SegmentChunk → SourceIndex
unfolding add_source
add_sources lower index [] = index
add_sources lower index (c ∷ cs) = add_sources lower (add_source lower index c) cs

unfoldable pub add_segment_sources : (Text → Text) → SourceIndex → List Segment → SourceIndex
unfolding add_sources
add_segment_sources lower index [] = index
add_segment_sources lower index (s ∷ ss) =
    add_segment_sources lower (add_sources lower index s.chunks) ss

abbrev pub empty_source_index : SourceIndex
empty_source_index = record { chunk_ids = []; by_source = []; by_repo_name = [] }

unfoldable pub build_source_index : (Text → Text) → List Segment → SourceIndex
unfolding add_segment_sources
build_source_index lower segments = add_segment_sources lower empty_source_index segments

-- Some source contains a text.
abbrev pub any_source : Dict Text (List Text) → Text → Bool
any_source m part = any (λ p. contains p.0 part) m

abbrev pub resolves_stripped : Option Text → SourceIndex → Bool
resolves_stripped none index = false
resolves_stripped (some path) index = any_source index.by_source path

abbrev pub resolves_renamed : Option Text → SourceIndex → Bool
resolves_renamed none index = false
resolves_renamed (some repo_key) index = Dict.has repo_key index.by_repo_name

-- The tiers in order; a `return true` ends the search.
unfoldable pub resolves : (Text → Text) → Text → SourceIndex → Bool
resolves lower target index =
    let lower_target = normalize_repo_source lower target in
    includes index.chunk_ids target
    || Dict.has lower_target index.by_source
    || (is_structured target
        && (any_source index.by_source lower_target
            || resolves_stripped (repo_local_path lower_target) index))
    || resolves_renamed (after_slash lower_target) index
