-- ===== src/Trace/SourceIndex/Agreement.antt =====
-- packages/search/src/edge-resolution.ts against packages/search/src/trace/resolution.ts: a target
-- resolves exactly when the engine finds a chunk for it.
use wtfoc.Prelude.{
  true, ◌&&◌, ◌||◌, Option, none, some, List, [], ◌∷◌, ◌≡◌, refl, sym, is_some, or_else, arith,
  includes, includes-add,
}
use wtfoc.Prelude.Dict
use wtfoc.Prelude.Dict.{Dict, has-set}
use wtfoc.Prelude.Text.{Text, after_slash, units_have_eq}
use wtfoc.Trace.{ChunkData, ChunkIndexes, SegmentChunk, Segment}
use wtfoc.Trace.Source.{normalize_repo_source}
use wtfoc.Trace.Indexing.{
  index_chunk, index_chunks, index_segments, build_chunk_indexes, empty_indexes,
}
use wtfoc.Trace.Resolution.{
  Found, is_found, known_chunks, partial_matches, or_next, is_structured, repo_local_path,
  stripped_matches, structured_matches, renamed_matches, find_direct, find_chunks_by_target,
}
use wtfoc.Trace.SourceIndex.Linked.{
  all_linked, Linked, index_segments-Linked, known_chunks-is_found, partial_matches-is_found,
}
use wtfoc.Trace.SourceIndex.{
  SourceIndex, add_source, add_sources, add_segment_sources, build_source_index, empty_source_index,
  any_source, resolves_stripped, resolves_renamed, resolves,
}

-- The two indexes are about the same chunks.
record Agrees (ix : ChunkIndexes) (index : SourceIndex) : Type 0 where
  same_ids : (t : Text) → includes index.chunk_ids t ≡ Dict.has t ix.by_id
  same_sources : index.by_source ≡ ix.by_source
  same_repos : index.by_repo_name ≡ ix.by_repo_name

add_source-Agrees :
    (lower : Text → Text) (ix : ChunkIndexes) (index : SourceIndex) (c : SegmentChunk)
    → Agrees ix index
    → Agrees (index_chunk lower ix c) (add_source lower index c)
unfolding index_chunk add_source
add_source-Agrees lower ix index c a = record {
  same_ids = λ t.
      ground
        (arith, includes-add index.chunk_ids c.id t, has-set t c.id c.chunk ix.by_id, a.same_ids t);
  same_sources = rw (a.same_sources) refl;
  same_repos = rw (a.same_repos) refl;
}

add_sources-Agrees :
    (lower : Text → Text) (ix : ChunkIndexes) (index : SourceIndex) (cs : List SegmentChunk)
    → Agrees ix index
    → Agrees (index_chunks lower ix cs) (add_sources lower index cs)
unfolding index_chunks add_sources
add_sources-Agrees lower ix index [] a = a
add_sources-Agrees lower ix index (c ∷ cs) a =
    add_sources-Agrees lower (index_chunk lower ix c) (add_source lower index c) cs
      (add_source-Agrees lower ix index c a)

add_segment_sources-Agrees :
    (lower : Text → Text) (ix : ChunkIndexes) (index : SourceIndex) (ss : List Segment)
    → Agrees ix index
    → Agrees (index_segments lower ix ss) (add_segment_sources lower index ss)
unfolding index_segments add_segment_sources
add_segment_sources-Agrees lower ix index [] a = a
add_segment_sources-Agrees lower ix index (s ∷ ss) a =
    add_segment_sources-Agrees lower (index_chunks lower ix s.chunks)
      (add_sources lower index s.chunks) ss (add_sources-Agrees lower ix index s.chunks a)

or_next-is_found : (xs ys : Found) → is_found (or_next xs ys) ≡ (is_found xs || is_found ys)
or_next-is_found [] ys = refl
or_next-is_found (x ∷ xs) ys = refl

-- An exact key that is there leads to a chunk.
at_key-is_found :
    (by_id : Dict Text ChunkData) (key : Text) (m : Dict Text (List Text))
    → all_linked by_id m ≡ true
    → is_found (known_chunks by_id (or_else (Dict.get key m) [])) ≡ Dict.has key m
unfolding Dict.get known_chunks
at_key-is_found by_id key [] l = refl
at_key-is_found by_id key ((j, ids) ∷ m) l =
    ground (arith, known_chunks-is_found by_id ids, at_key-is_found by_id key m)

module _ (ix : ChunkIndexes) (index : SourceIndex) (l : Linked ix) (a : Agrees ix index) where
  stripped-is_found :
      (path : Option Text) → is_found (stripped_matches path ix) ≡ resolves_stripped path index
  stripped-is_found none = refl
  stripped-is_found (some path) =
      rw (a.same_sources) (partial_matches-is_found ix.by_id path ix.by_source [] l.by_source)

  structured-is_found :
      (target lower_target : Text)
      → is_found (structured_matches target lower_target ix) ≡ (
          is_structured target
          && (any_source index.by_source lower_target
              || resolves_stripped (repo_local_path lower_target) index))
  structured-is_found target lower_target = ground (
    arith,
    or_next-is_found (partial_matches ix.by_id lower_target ix.by_source [])
        (stripped_matches (repo_local_path lower_target) ix),
    stripped-is_found (some lower_target),
    partial_matches-is_found ix.by_id lower_target ix.by_source [] l.by_source,
    stripped-is_found (repo_local_path lower_target),
  )

  renamed-is_found :
      (key : Option Text) → is_found (renamed_matches key ix) ≡ resolves_renamed key index
  renamed-is_found none = refl
  renamed-is_found (some key) =
      rw (a.same_repos) (at_key-is_found ix.by_id key ix.by_repo_name l.by_repo_name)

  find_direct-is_found :
      (found : Option ChunkData) (target lower_target : Text)
      → is_found (find_direct found target lower_target ix) ≡ (
          is_some found
          || Dict.has lower_target index.by_source
          || (is_structured target
              && (any_source index.by_source lower_target
                  || resolves_stripped (repo_local_path lower_target) index))
          || resolves_renamed (after_slash lower_target) index)
  find_direct-is_found (some d) target lower_target = refl
  find_direct-is_found none target lower_target =
      rw
        (
          or_next-is_found (known_chunks ix.by_id (or_else (Dict.get lower_target ix.by_source) []))
              (or_next (structured_matches target lower_target ix)
                (renamed_matches (after_slash lower_target) ix)),
          or_next-is_found (structured_matches target lower_target ix)
              (renamed_matches (after_slash lower_target) ix),
          at_key-is_found ix.by_id lower_target ix.by_source l.by_source,
          structured-is_found target lower_target,
          renamed-is_found (after_slash lower_target),
          sym (a.same_sources),
        )
        (ground arith)

-- `resolves` on the light index of some segments answers true exactly when `findChunksByTarget` on
-- the full indexes of the same segments finds a chunk, for every target and whatever `toLowerCase`
-- does.
pub resolves-find_chunks_by_target :
    (lower : Text → Text) (segments : List Segment) (target : Text)
    → resolves lower target (build_source_index lower segments)
      ≡ is_found (find_chunks_by_target lower target (build_chunk_indexes lower segments))
unfolding resolves find_chunks_by_target build_source_index build_chunk_indexes Dict.get
resolves-find_chunks_by_target lower segments target =
    let ix = index_segments lower empty_indexes segments in
    let index = add_segment_sources lower empty_source_index segments in
    let l : Linked ix =
      index_segments-Linked lower empty_indexes segments
        (record { by_source = refl; by_repo_name = refl }) in
    let a : Agrees ix index =
      add_segment_sources-Agrees lower empty_indexes empty_source_index segments
        (record { same_ids = λ t. refl; same_sources = refl; same_repos = refl }) in
    rw (a.same_ids target) (
      sym (
        find_direct-is_found ix index l a (Dict.get target ix.by_id) target
          (normalize_repo_source lower target)))
