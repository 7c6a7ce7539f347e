-- ===== src/Edges/Examples.antt =====
-- Two extractors that agree on an edge. The doubles are read in hundredths.
use wtfoc.Prelude.{
  ℕ, ◌+◌, ◌*◌, String, none, some, List, [], ◌∷◌, ◌≡◌, refl, map, ltb, leb, if◌then◌else◌,
}
use wtfoc.Prelude.Dict
use wtfoc.Prelude.Dict.Keys.{gather}
use wtfoc.Edges.{Arithmetic, ExtractedEdge, edge_keys_have_eq}
use wtfoc.Edges.Merge.{Extracted, finish_edge, merge_edges}
use wtfoc.Edges.Grouped.{group_of, found_keys, merge_edges-group}
use wtfoc.Edges.Extract.{ExtractionStatusData, Context, pending, completed, get_contexts_to_process}

abbrev lesser : ℕ → ℕ → ℕ
lesser m n = if leb m n then m else n

abbrev greater : ℕ → ℕ → ℕ
greater m n = if leb m n then n else m

abbrev hundredths : Arithmetic ℕ
hundredths = record {
  gt = λ m n. ltb n m;
  plus = λ m n. m + n;
  times = λ m n. m * n;
  min = lesser;
  max = greater;
  count = λ n. n;
  zero = 0;
  one = 100;
  twentieth = 5;
}

abbrev edge : String → String → ℕ → ExtractedEdge ℕ
edge target evidence confidence = record {
  type = "references";
  source_id = "c1";
  target_type = "issue";
  target_id = target;
  evidence = evidence;
  confidence = confidence;
  provenance = none;
  structured_evidence = none;
}

abbrev results : List (Extracted ℕ)
results =
    record {
      extractor_name = "regex";
      edges = edge "#1" "closes #1" 80 ∷ edge "#2" "see #2" 50 ∷ [];
    }
    ∷ record { extractor_name = "llm"; edges = edge "#1" "about #1" 90 ∷ [] }
    ∷ []

boosted : map (λ e. e.confidence) (merge_edges hundredths "now" results) ≡ 95 ∷ 50 ∷ []
unfolding merge_edges finish_edge Dict.get Dict.set
boosted = refl

merge_edges-group_example :
    merge_edges hundredths "now" results
    ≡ map
        (finish_edge hundredths "now")
        (gather (group_of hundredths results) (found_keys hundredths results))
merge_edges-group_example = merge_edges-group hundredths "now" results

abbrev seen : ExtractionStatusData
seen = record {
  extractor_id = "llm";
  contexts =
      ("a", record { context_hash = "h1"; status = completed })
      ∷ ("b", record { context_hash = "h1"; status = completed })
      ∷ ("c", record { context_hash = "h1"; status = pending })
      ∷ [];
}

abbrev context : String → String → Context
context id hash = record { context_id = id; context_hash = hash; chunk_ids = [] }

still_due :
    map
      (λ c. c.context_id)
      (get_contexts_to_process
        (some seen)
        (context "a" "h1" ∷ context "b" "h2" ∷ context "c" "h1" ∷ context "d" "h1" ∷ [])
        "llm")
    ≡ "b" ∷ "c" ∷ "d" ∷ []
unfolding get_contexts_to_process Dict.get
still_due = refl
