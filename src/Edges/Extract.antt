-- ===== src/Edges/Extract.antt =====
-- packages/ingest/src/edges/composite.ts: `CompositeEdgeExtractor`, without an abort signal; and the contexts
-- that are still to be processed, of extraction-status.ts. An extractor that throws gives none.
use wtfoc.Prelude.{
  ◌*◌, String, Bool, true, not, Option, none, some, List, [], ◌∷◌, ◌++◌, ◌==◌, map, filter, length,
  take, ltb, includes, or_else, if◌then◌else◌, text_has_eq,
}
use wtfoc.Prelude.Dict
use wtfoc.Prelude.Dict.{Dict}
use wtfoc.Schema.{Chunk}
use wtfoc.Edges.{Arithmetic, ExtractedEdge}
use wtfoc.Edges.Merge.{Extracted, merge_edges, merge_overlay_edges}

pub record ExtractorRegistration (F : Type 0) : Type 0 where
  pub name : String
  pub extractor : List Chunk → Option (List (ExtractedEdge F))
  pub enabled : Bool

-- The state of the composite: `#extractors`, and `#names` as the names of these.
pub record Composite (F : Type 0) : Type 0 where
  pub extractors : List (ExtractorRegistration F)
  pub names : List String

abbrev pub new_composite : {F : Type 0} → Composite F
new_composite = record { extractors = []; names = [] }

-- None is the error on a name that is registered already.
unfoldable pub register :
    {F : Type 0}
    → String
    → (List Chunk → Option (List (ExtractedEdge F)))
    → Option Bool
    → Composite F
    → Option (Composite F)
register name extractor enabled c =
    if includes c.names name
    then none
    else some (record {
      extractors =
          c.extractors
          ++ record { name = name; extractor = extractor; enabled = or_else enabled true } ∷ [];
      names = c.names ++ name ∷ [];
    })

-- A failure is reported and counts as no edges.
abbrev pub run_extractor : {F : Type 0} → List Chunk → ExtractorRegistration F → Extracted F
run_extractor chunks r = record { extractor_name = r.name; edges = or_else (r.extractor chunks) [] }

unfoldable pub extract :
    {F : Type 0} → Arithmetic F → String → Composite F → List Chunk → List (ExtractedEdge F)
unfolding merge_edges
extract a now c chunks =
    let enabled = filter (λ r. r.enabled) c.extractors in
    let merged = merge_edges a now (map (run_extractor chunks) enabled) in
    let limit = length chunks * 100 in
    if ltb limit (length merged) then take limit merged else merged

-- The overlays of the extractors that have one, in their order.
unfoldable pub load_overlays :
    {F : Type 0}
    → (String → Option (List (ExtractedEdge F)))
    → List (ExtractedEdge F)
    → List String
    → List (ExtractedEdge F)
unfolding merge_overlay_edges
load_overlays read merged [] = merged
load_overlays read merged (id ∷ ids) =
    load_overlays read
      (elim (read id) [
        | none ↦ merged
        | some edges ↦ if ltb 0 (length edges) then merge_overlay_edges merged edges else merged
      ])
      ids

pub data ContextState : Type 0 where
  pending completed failed : ContextState

pub record ContextStatus : Type 0 where
  pub context_hash : String
  pub status : ContextState

pub record ExtractionStatusData : Type 0 where
  pub extractor_id : String
  pub contexts : Dict String ContextStatus

pub record Context : Type 0 where
  pub context_id : String
  pub context_hash : String
  pub chunk_ids : List String

-- What the filter makes of the entry of a context.
abbrev pub is_due : Context → Option ContextStatus → Bool
is_due ctx none = true
is_due ctx (some existing) = elim existing.status [
  | pending ↦ true
  | completed ↦ not (existing.context_hash == ctx.context_hash)
  | failed ↦ true
]

unfoldable pub get_contexts_to_process :
    Option ExtractionStatusData → List Context → String → List Context
get_contexts_to_process none contexts extractor_id = contexts
get_contexts_to_process (some status) contexts extractor_id =
    if not (status.extractor_id == extractor_id)
    then contexts
    else filter (λ ctx. is_due ctx (Dict.get ctx.context_id status.contexts)) contexts
