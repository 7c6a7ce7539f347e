-- ===== src/Edges.antt =====
-- packages/ingest/src/edges: the data of the edges that extractors find, from packages/common/src/schemas.
-- `F` is the type of the doubles.
pub mod Merge
pub mod Extract
pub mod Grouped
mod Examples
use wtfoc.Prelude.{
  ℕ, String, Bool, ◌&&◌, ◌≡◌, ◌↔◌, ◌==◌, ==_iff, ==_refl, true, refl, Option, List, HasEq,
  text_has_eq, arith,
}

-- The operations and literals of doubles that the code uses.
pub record Arithmetic (F : Type 0) : Type 0 where
  pub gt : F → F → Bool
  pub plus : F → F → F
  pub times : F → F → F
  pub min : F → F → F
  pub max : F → F → F
  pub count : ℕ → F
  pub zero : F
  pub one : F
  pub twentieth : F

pub record StructuredEvidence (F : Type 0) : Type 0 where
  pub text : String
  pub source_artifact_id : Option String
  pub document_version_id : Option String
  pub chunk_span : Option String
  pub extractor : Option String
  pub model : Option String
  pub observed_at : Option String
  pub confidence : Option F

-- `Edge`
pub record ExtractedEdge (F : Type 0) : Type 0 where
  pub type : String
  pub source_id : String
  pub target_type : String
  pub target_id : String
  pub evidence : String
  pub confidence : F
  pub provenance : Option (List String)
  pub structured_evidence : Option (StructuredEvidence F)

-- `edgeKey`: the JSON text of an array of four strings stands for the four strings.
pub record EdgeKey : Type 0 where
  pub type : String
  pub source_id : String
  pub target_type : String
  pub target_id : String

abbrev pub edge_key : {F : Type 0} → ExtractedEdge F → EdgeKey
edge_key edge = record {
  type = edge.type;
  source_id = edge.source_id;
  target_type = edge.target_type;
  target_id = edge.target_id;
}

abbrev pub same_key : EdgeKey → EdgeKey → Bool
same_key a b =
    a.type == b.type
    && a.source_id == b.source_id
    && a.target_type == b.target_type
    && a.target_id == b.target_id

pub same_key_iff : (a b : EdgeKey) → (same_key a b ≡ true) ↔ (a ≡ b)
same_key_iff a b = (
  λ h.
      let same_type : a.type ≡ b.type = (==_iff a.type b.type).0 (ground (arith, h)) in
      let same_source : a.source_id ≡ b.source_id =
        (==_iff a.source_id b.source_id).0 (ground (arith, h)) in
      let same_target : a.target_type ≡ b.target_type =
        (==_iff a.target_type b.target_type).0 (ground (arith, h)) in
      let same_id : a.target_id ≡ b.target_id =
        (==_iff a.target_id b.target_id).0 (ground (arith, h)) in
      cc (same_type, same_source, same_target, same_id),
  λ h. rw h (
      ground
        (arith, ==_refl b.type, ==_refl b.source_id, ==_refl b.target_type, ==_refl b.target_id)),
)

instance abbrev pub edge_keys_have_eq : HasEq EdgeKey
edge_keys_have_eq = record { same = same_key; same_iff = same_key_iff }
