-- ===== src/Edges/Merge.antt =====
-- packages/ingest/src/edges/merge.ts: `mergeEdges`, and `mergeOverlayEdges` of overlay-store.ts.
use Prim.Native.String.{◌++◌ as text_append}
use wtfoc.Prelude.{
  ℕ, ◌-◌, String, Option, none, some, List, [], ◌∷◌, map, length, add, if◌then◌else◌, text_has_eq,
}
use wtfoc.Prelude.Dict
use wtfoc.Prelude.Dict.{Dict}
use wtfoc.Edges.{
  Arithmetic, StructuredEvidence, ExtractedEdge, EdgeKey, edge_key, edge_keys_have_eq,
}

pub record MergedEdge (F : Type 0) : Type 0 where
  pub edge : ExtractedEdge F
  pub provenance : List String
  pub evidence_parts : List String

-- What one extractor found.
pub record Extracted (F : Type 0) : Type 0 where
  pub extractor_name : String
  pub edges : List (ExtractedEdge F)

-- `parts.join(separator)`
unfoldable pub join_with : String → List String → String
join_with separator [] = ""
join_with separator (p ∷ []) = p
join_with separator (p ∷ q ∷ ps) =
    text_append p (text_append separator (join_with separator (q ∷ ps)))

abbrev pub first_merged : {F : Type 0} → String → ExtractedEdge F → MergedEdge F
first_merged extractor_name edge = record {
  edge = edge;
  provenance = extractor_name ∷ [];
  evidence_parts = edge.evidence ∷ [];
}

abbrev pub raise_confidence : {F : Type 0} → Arithmetic F → ExtractedEdge F → F → ExtractedEdge F
raise_confidence a edge confidence =
    if a.gt confidence edge.confidence then record edge { confidence = confidence } else edge

-- The two branches on `existing`.
abbrev pub merge_into :
    {F : Type 0} → Arithmetic F → Option (MergedEdge F) → String → ExtractedEdge F → MergedEdge F
merge_into a none extractor_name edge = first_merged extractor_name edge
merge_into a (some existing) extractor_name edge = record {
  edge = raise_confidence a existing.edge edge.confidence;
  provenance = add existing.provenance extractor_name;
  evidence_parts = add existing.evidence_parts edge.evidence;
}

-- The inner loop.
unfoldable pub merge_found :
    {F : Type 0}
    → Arithmetic F
    → Dict EdgeKey (MergedEdge F)
    → String
    → List (ExtractedEdge F)
    → Dict EdgeKey (MergedEdge F)
merge_found a merged extractor_name [] = merged
merge_found a merged extractor_name (edge ∷ edges) =
    let key = edge_key edge in
    merge_found a (Dict.set key (merge_into a (Dict.get key merged) extractor_name edge) merged)
      extractor_name edges

-- The outer loop.
unfoldable pub merge_results :
    {F : Type 0}
    → Arithmetic F
    → Dict EdgeKey (MergedEdge F)
    → List (Extracted F)
    → Dict EdgeKey (MergedEdge F)
unfolding merge_found
merge_results a merged [] = merged
merge_results a merged (r ∷ results) =
    merge_results a (merge_found a merged r.extractor_name r.edges) results

abbrev pub final_confidence : {F : Type 0} → Arithmetic F → F → ℕ → F
final_confidence a confidence extractors =
    a.min a.one (a.plus confidence (a.max a.zero (a.times (a.count (extractors - 1)) a.twentieth)))

abbrev pub or_built :
    {F : Type 0} → Option (StructuredEvidence F) → StructuredEvidence F → StructuredEvidence F
or_built none built = built
or_built (some given) built = given

unfoldable pub finish_edge : {F : Type 0} → Arithmetic F → String → MergedEdge F → ExtractedEdge F
unfolding join_with
finish_edge a now m =
    let confidence = final_confidence a m.edge.confidence (length m.provenance) in
    let text = join_with " | " m.evidence_parts in
    record m.edge {
      confidence = confidence;
      evidence = text;
      provenance = some m.provenance;
      structured_evidence = some (
          or_built m.edge.structured_evidence (record {
            text = text;
            source_artifact_id = none;
            document_version_id = none;
            chunk_span = none;
            extractor = some (join_with "+" m.provenance);
            model = none;
            observed_at = some now;
            confidence = some confidence;
          }));
    }

unfoldable pub merge_edges :
    {F : Type 0} → Arithmetic F → String → List (Extracted F) → List (ExtractedEdge F)
unfolding merge_results
merge_edges a now results = map (finish_edge a now) (Dict.values (merge_results a [] results))

unfoldable pub set_edges :
    {F : Type 0}
    → Dict EdgeKey (ExtractedEdge F)
    → List (ExtractedEdge F)
    → Dict EdgeKey (ExtractedEdge F)
set_edges edges [] = edges
set_edges edges (e ∷ es) = set_edges (Dict.set (edge_key e) e edges) es

unfoldable pub merge_overlay_edges :
    {F : Type 0} → List (ExtractedEdge F) → List (ExtractedEdge F) → List (ExtractedEdge F)
unfolding set_edges
merge_overlay_edges existing new_edges = Dict.values (set_edges (set_edges [] existing) new_edges)
