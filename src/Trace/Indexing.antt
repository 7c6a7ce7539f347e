-- ===== src/Trace/Indexing.antt =====
-- packages/search/src/trace/indexing.ts: the indexes of chunks and of edges.
use Prim.Native.String.{◌++◌ as text_append}
use wtfoc.Prelude.{Option, none, some, List, [], ◌∷◌, ◌++◌, or_else}
use wtfoc.Prelude.Dict
use wtfoc.Prelude.Dict.{Dict}
use wtfoc.Prelude.Text.{Text, after_slash, units_have_eq}
use wtfoc.Trace.{Edge, TraversalEdge, forward, reverse, SegmentChunk, Segment, ChunkIndexes}
use wtfoc.Trace.Source.{normalize_repo_source}

-- `const list = map.get(key) ?? []; list.push(value); map.set(key, list);`
abbrev pub push_at {ℓ} : {V : Type ℓ} → Text → V → Dict Text (List V) → Dict Text (List V)
push_at key value m = Dict.set key (or_else (Dict.get key m) [] ++ value ∷ []) m

abbrev pub push_repo : Option Text → Text → Dict Text (List Text) → Dict Text (List Text)
push_repo none id m = m
push_repo (some repo_key) id m = push_at repo_key id m

-- The body of the loop over the chunks.
unfoldable pub index_chunk : (Text → Text) → ChunkIndexes → SegmentChunk → ChunkIndexes
index_chunk lower ix c =
    let key = normalize_repo_source lower c.chunk.source in
    record {
      by_id = Dict.set c.id c.chunk ix.by_id;
      by_source = push_at key c.id ix.by_source;
      by_repo_name = push_repo (after_slash key) c.id ix.by_repo_name;
    }

unfoldable pub index_chunks : (Text → Text) → ChunkIndexes → List SegmentChunk → ChunkIndexes
unfolding index_chunk
index_chunks lower ix [] = ix
index_chunks lower ix (c ∷ cs) = index_chunks lower (index_chunk lower ix c) cs

unfoldable pub index_segments : (Text → Text) → ChunkIndexes → List Segment → ChunkIndexes
unfolding index_chunks
index_segments lower ix [] = ix
index_segments lower ix (s ∷ ss) = index_segments lower (index_chunks lower ix s.chunks) ss

abbrev pub empty_indexes : ChunkIndexes
empty_indexes = record { by_id = []; by_source = []; by_repo_name = [] }

unfoldable pub build_chunk_indexes : (Text → Text) → List Segment → ChunkIndexes
unfolding index_segments
build_chunk_indexes lower segments = index_segments lower empty_indexes segments

abbrev pub reversed : Edge → Edge
reversed e = record e {
  source_id = e.target_id;
  target_id = e.source_id;
  evidence = text_append "← " e.evidence;
}

-- Each edge is indexed both ways.
unfoldable pub add_edge : Dict Text (List TraversalEdge) → Edge → Dict Text (List TraversalEdge)
add_edge index e =
    push_at e.target_id (record { edge = reversed e; walk_direction = reverse })
      (push_at e.source_id (record { edge = e; walk_direction = forward }) index)

unfoldable pub add_edges :
    Dict Text (List TraversalEdge) → List Edge → Dict Text (List TraversalEdge)
unfolding add_edge
add_edges index [] = index
add_edges index (e ∷ es) = add_edges (add_edge index e) es

unfoldable pub add_segment_edges :
    Dict Text (List TraversalEdge) → List Segment → Dict Text (List TraversalEdge)
unfolding add_edges
add_segment_edges index [] = index
add_segment_edges index (s ∷ ss) = add_segment_edges (add_edges index s.edges) ss

-- Overlay edges that are not given are none.
unfoldable pub build_edge_index : List Segment → Option (List Edge) → Dict Text (List TraversalEdge)
unfolding add_segment_edges
build_edge_index segments overlay_edges =
    add_edges (add_segment_edges [] segments) (or_else overlay_edges [])
