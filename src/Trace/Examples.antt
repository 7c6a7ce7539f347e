-- ===== src/Trace/Examples.antt =====
-- A small collection of chunks and edges, at which the theorems on traces are run.
use wtfoc.Prelude.{nat_beq, String, none, some, [], ◌∷◌, ◌≡◌, refl, List, true}
use wtfoc.Prelude.Dict
use wtfoc.Prelude.Text.{Text, units, contains, split_slash, after_slash}
use wtfoc.Trace.{TraceHop, SegmentChunk, Segment}
use wtfoc.Trace.Indexing.{build_chunk_indexes, build_edge_index}
use wtfoc.Trace.Analysis.{analyze_edge_resolution, all_edges}
use wtfoc.Trace.Analysis.Partition.{Partitioned, analyze_edge_resolution-Partitioned}
use wtfoc.Trace.Chronology.{build_chronological_hop_indices}
use wtfoc.Trace.Chronology.Order.{in_order, time_of, build_chronological_hop_indices-in_order}
use wtfoc.Trace.Chronology.Once.{build_chronological_hop_indices-once}
use wtfoc.Prelude.Counting.{count}
use wtfoc.Trace.Resolution.{is_found, find_chunks_by_target}
use wtfoc.Trace.SourceIndex.{build_source_index, resolves}
use wtfoc.Trace.SourceIndex.Agreement.{resolves-find_chunks_by_target}
use wtfoc.Trace.Traversal.{seed_hop, is_allowed_by, WalkOptions, Seed, follow_seeds, empty_walk}
use wtfoc.Trace.Resolution.Known.{AllKnown, find_chunks_by_target-AllKnown}
use wtfoc.Trace.Traversal.Steps.{follow_seeds-Hops}
use wtfoc.Trace.Traversal.Hops.{Hops}
use wtfoc.Trace.Traversal.Evidence.{AllExplained, follow_seeds-AllExplained}
use wtfoc.Trace.Traversal.Sound.{Sound, follow_seeds-Sound}

abbrev same_case : Text → Text
same_case s = s

abbrev chunk_at : String → String → SegmentChunk
chunk_at id source = record {
  id = units id;
  chunk = record {
    content = "text";
    source_type = "code";
    source = units source;
    source_url = none;
    storage_id = "blob";
    timestamp = none;
    timestamp_kind = none;
  };
}

abbrev segments : List Segment
segments =
    record {
      chunks = chunk_at "c1" "o/r#1" ∷ chunk_at "c2" "o/r#2" ∷ [];
      edges =
          record {
            type = units "closes";
            source_id = units "c1";
            target_type = "issue";
            target_id = units "old/r#2";
            evidence = "closes #2";
            confidence = 7;
          }
          ∷ [];
    }
    ∷ []

abbrev options : WalkOptions
options = record {
  lower = same_case;
  edge_index = build_edge_index segments none;
  indexes = build_chunk_indexes same_case segments;
  max_total = some 5;
  is_allowed_type = some (is_allowed_by none (some ("slack" ∷ [])));
}

abbrev seed : Seed
seed = record {
  id = units "c1";
  score = 9;
  source_type = "code";
  source = units "o/r#1";
  source_url = none;
  storage_id = "blob";
}

-- The repository was renamed: the name without its owner leads to the chunk.
renamed_is_found :
    is_found
      (find_chunks_by_target same_case (units "old/r#2") (build_chunk_indexes same_case segments))
    ≡ true
unfolding find_chunks_by_target build_chunk_indexes Dict.get Dict.set contains split_slash
    after_slash
renamed_is_found = refl

-- The walk from the first chunk reaches the second along the edge.
both_visited :
    (follow_seeds options 3 5 (seed ∷ []) empty_walk).visited ≡ units "c1" ∷ units "c2" ∷ []
unfolding follow_seeds build_chunk_indexes build_edge_index Dict.get Dict.set contains split_slash
    after_slash
both_visited = refl

resolves-find_chunks_by_target_example :
    resolves same_case (units "old/r#2") (build_source_index same_case segments)
    ≡ is_found
        (find_chunks_by_target same_case (units "old/r#2") (build_chunk_indexes same_case segments))
resolves-find_chunks_by_target_example =
    resolves-find_chunks_by_target same_case segments (units "old/r#2")

find_chunks_by_target-AllKnown_example :
    AllKnown
      (options.indexes.by_id)
      (find_chunks_by_target same_case (units "old/r#2") options.indexes)
find_chunks_by_target-AllKnown_example =
    find_chunks_by_target-AllKnown same_case (units "old/r#2") options.indexes

follow_seeds-Hops_example :
    Hops options (seed ∷ []) empty_walk (follow_seeds options 3 5 (seed ∷ []) empty_walk)
follow_seeds-Hops_example = follow_seeds-Hops options 3 5 (seed ∷ []) empty_walk refl refl

follow_seeds-Sound_example : Sound options (follow_seeds options 3 5 (seed ∷ []) empty_walk)
follow_seeds-Sound_example = follow_seeds-Sound options 3 5 (seed ∷ []) refl

follow_seeds-AllExplained_example :
    let w = follow_seeds options 3 5 (seed ∷ []) empty_walk in
    AllExplained options (seed ∷ []) w.visited w.visited w.hops
follow_seeds-AllExplained_example = follow_seeds-AllExplained options 3 5 (seed ∷ []) refl

analyze_edge_resolution-Partitioned_example :
    let stats =
      analyze_edge_resolution same_case segments (build_source_index same_case segments) [] in
    Partitioned (all_edges segments []) stats
analyze_edge_resolution-Partitioned_example =
    analyze_edge_resolution-Partitioned same_case segments (build_source_index same_case segments)
      []

abbrev dated_hop : TraceHop
dated_hop = record (seed_hop options seed) {
  chunk = record (chunk_at "c1" "o/r#1").chunk { timestamp = some "2024-01-01" };
}

abbrev two_hops : List TraceHop
two_hops = seed_hop options seed ∷ dated_hop ∷ []

build_chronological_hop_indices-once_example :
    count (λ i. nat_beq i 1) (build_chronological_hop_indices (λ ts. some 5) two_hops) ≡ 1
build_chronological_hop_indices-once_example =
    build_chronological_hop_indices-once (λ ts. some 5) two_hops 1

build_chronological_hop_indices-in_order_example :
    in_order
      (time_of (λ ts. some 5) two_hops)
      (build_chronological_hop_indices (λ ts. some 5) two_hops)
    ≡ true
build_chronological_hop_indices-in_order_example =
    build_chronological_hop_indices-in_order (λ ts. some 5) two_hops
