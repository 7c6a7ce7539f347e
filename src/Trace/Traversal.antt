-- ===== src/Trace/Traversal.antt =====
-- packages/search/src/trace/traversal.ts, and from trace.ts the walk from the seeds. `visited` and
-- `hops`, which the calls share, are the state. `remaining` is `maxHops - depth`, so it counts the
-- calls that may still nest. The signal is taken as never aborted.
pub mod Hops
pub mod Steps
pub mod Sound
pub mod Evidence
use wtfoc.Prelude.{
  ℕ, zero, suc, String, Bool, true, false, not, ◌&&◌, ◌||◌, Option, none, some, List, [], ◌∷◌, ◌++◌,
  is_some, or_else, length, leb, ltb, includes, add, if◌then◌else◌, text_has_eq,
}
use wtfoc.Prelude.Dict
use wtfoc.Prelude.Dict.{Dict}
use wtfoc.Prelude.Text.{Text, units, units_have_eq}
use wtfoc.Trace.{
  Edge, TraversalEdge, WalkDirection, forward, reverse, ChunkData, ChunkIndexes, Connection,
  TraceHop,
}
use wtfoc.Trace.Resolution.{Found, find_chunks_by_target}

-- The arguments that every call passes on unchanged.
pub record WalkOptions : Type 0 where
  pub lower : Text → Text
  pub edge_index : Dict Text (List TraversalEdge)
  pub indexes : ChunkIndexes
  pub max_total : Option ℕ
  pub is_allowed_type : Option (String → Bool)

pub record Walk : Type 0 where
  pub visited : List Text
  pub hops : List TraceHop

-- `maxTotal != null && hops.length >= maxTotal`
abbrev reached : Option ℕ → List TraceHop → Bool
reached none hops = false
reached (some max_total) hops = leb max_total (length hops)

abbrev pub is_full : WalkOptions → Walk → Bool
is_full o w = reached o.max_total w.hops

abbrev passes : Option (String → Bool) → String → Bool
passes none source_type = true
passes (some test) source_type = test source_type

abbrev pub is_allowed : WalkOptions → ChunkData → Bool
is_allowed o chunk = passes o.is_allowed_type chunk.source_type

-- `isAllowedType` of a trace: the included types, if they are given, else all but the excluded ones.
abbrev pub is_allowed_by : Option (List String) → Option (List String) → String → Bool
is_allowed_by none none source_type = true
is_allowed_by none (some excluded) source_type = not (includes excluded source_type)
is_allowed_by (some included) excluded source_type = includes included source_type

abbrev direction_text : WalkDirection → Text
direction_text forward = units "forward"
direction_text reverse = units "reverse"

abbrev edge_key : TraversalEdge → Text
edge_key e =
    direction_text e.walk_direction ++ units ":" ++ e.edge.type ++ units ":" ++ e.edge.target_id

-- The edges whose key was not seen before.
unfoldable pub unique_edges : List Text → List TraversalEdge → List TraversalEdge
unique_edges seen [] = []
unique_edges seen (e ∷ es) =
    let skipped = unique_edges seen es in
    let rest = unique_edges (add seen (edge_key e)) es in
    if includes seen (edge_key e) then skipped else e ∷ rest

-- A chunk without a source has the empty text.
abbrev pub edges_at_source : WalkOptions → Text → List TraversalEdge
edges_at_source o [] = []
edges_at_source o (c ∷ s) =
    or_else (Dict.get (c ∷ s) o.edge_index) (or_else (Dict.get (o.lower (c ∷ s)) o.edge_index) [])

abbrev pub edges_by_source : WalkOptions → Option ChunkData → List TraversalEdge
edges_by_source o none = []
edges_by_source o (some chunk) = edges_at_source o chunk.source

unfoldable pub edges_from : WalkOptions → Text → List TraversalEdge
unfolding unique_edges
edges_from o chunk_id = unique_edges [] (
    or_else (Dict.get chunk_id o.edge_index) []
    ++ edges_by_source o (Dict.get chunk_id o.indexes.by_id))

abbrev pub edge_hop : ℕ → TraversalEdge → ChunkData → TraceHop
edge_hop parent e chunk = record {
  chunk = chunk;
  parent_hop_index = some parent;
  connection = record {
    edge_type = some (e.edge.type);
    evidence = some (e.edge.evidence);
    confidence = e.edge.confidence;
    walk_direction = some (e.walk_direction);
  };
}

abbrev pub add_hop : Text → TraceHop → Walk → Walk
add_hop id hop w = record { visited = add w.visited id; hops = w.hops ++ hop ∷ [] }

-- The body of the inner loop. `follow` is the nested call.
unfoldable pub visit_target :
    WalkOptions → (Text → ℕ → Walk → Walk) → ℕ → TraversalEdge → Text → ChunkData → Walk → Walk
visit_target o follow parent e id chunk w =
    if includes w.visited id || not (is_allowed o chunk)
    then w
    else follow id (length w.hops) (add_hop id (edge_hop parent e chunk) w)

unfoldable pub visit_targets :
    WalkOptions → (Text → ℕ → Walk → Walk) → ℕ → TraversalEdge → Found → Walk → Walk
unfolding visit_target
visit_targets o follow parent e [] w = w
visit_targets o follow parent e ((id, chunk) ∷ found) w =
    let rest = visit_targets o follow parent e found (visit_target o follow parent e id chunk w) in
    if is_full o w then w else rest

unfoldable pub visit_edges :
    WalkOptions → (Text → ℕ → Walk → Walk) → ℕ → List TraversalEdge → Walk → Walk
unfolding visit_targets find_chunks_by_target
visit_edges o follow parent [] w = w
visit_edges o follow parent (e ∷ es) w =
    let rest = visit_edges o follow parent es (
      visit_targets o follow parent e (find_chunks_by_target o.lower e.edge.target_id o.indexes)
        w) in
    if is_full o w then w else rest

unfoldable pub follow_edges : WalkOptions → ℕ → Text → ℕ → Walk → Walk
unfolding visit_edges edges_from
follow_edges o zero chunk_id parent w = w
follow_edges o (suc remaining) chunk_id parent w =
    if is_full o w
    then w
    else visit_edges o (follow_edges o remaining) parent (edges_from o chunk_id) w

-- A result of the vector search: its id, its score, and the hop's fields that its metadata give, with
-- `"unknown"` where they are missing.
pub record Seed : Type 0 where
  pub id : Text
  pub score : ℕ
  pub source_type : String
  pub source : Text
  pub source_url : Option String
  pub storage_id : String

abbrev chunk_of_seed : Option ChunkData → Seed → ChunkData
chunk_of_seed none seed = record {
  content = "";
  source_type = seed.source_type;
  source = seed.source;
  source_url = seed.source_url;
  storage_id = seed.storage_id;
  timestamp = none;
  timestamp_kind = none;
}
chunk_of_seed (some chunk) seed = record {
  content = chunk.content;
  source_type = seed.source_type;
  source = seed.source;
  source_url = seed.source_url;
  storage_id = seed.storage_id;
  timestamp = chunk.timestamp;
  timestamp_kind = chunk.timestamp_kind;
}

abbrev pub seed_hop : WalkOptions → Seed → TraceHop
seed_hop o seed = record {
  chunk = chunk_of_seed (Dict.get seed.id o.indexes.by_id) seed;
  parent_hop_index = none;
  connection = record {
    edge_type = none;
    evidence = none;
    confidence = seed.score;
    walk_direction = none;
  };
}

-- The three `continue`s.
abbrev pub skips_seed : WalkOptions → ℕ → Seed → Walk → Bool
skips_seed o min_score seed w =
    ltb seed.score min_score
    || includes w.visited seed.id
    || not (passes o.is_allowed_type seed.source_type)

abbrev pub follow_seed : WalkOptions → ℕ → Seed → Walk → Walk
follow_seed o max_hops seed w =
    follow_edges o max_hops seed.id (length w.hops) (add_hop seed.id (seed_hop o seed) w)

unfoldable pub follow_seeds : WalkOptions → ℕ → ℕ → List Seed → Walk → Walk
unfolding follow_edges
follow_seeds o max_hops min_score [] w = w
follow_seeds o max_hops min_score (seed ∷ seeds) w =
    let after = follow_seed o max_hops seed w in
    let skipped = follow_seeds o max_hops min_score seeds w in
    let rest = follow_seeds o max_hops min_score seeds after in
    if skips_seed o min_score seed w then skipped else (if is_full o after then after else rest)

abbrev pub empty_walk : Walk
empty_walk = record { visited = []; hops = [] }
