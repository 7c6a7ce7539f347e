-- ===== src/Trace/Traversal/Evidence.antt =====
-- packages/search/src/trace: the evidence of each hop is true. It is a seed, or it came along an edge
-- of the chunk of its parent to a chunk that the target of the edge names.
use mathlib.Core.List.{Memᴰ}
use wtfoc.Prelude.{
  ℕ, false, some, List, [], ◌∷◌, ◌++◌, ◌≡◌, refl, get_elem?, get_elem?-append_lt, get_elem?-lt,
  includes,
}
use wtfoc.Prelude.Text.{Text, units_have_eq}
use wtfoc.Trace.{TraversalEdge, ChunkData, TraceHop}
use wtfoc.Trace.Traversal.{
  WalkOptions, Walk, is_full, edges_from, edge_hop, add_hop, Seed, seed_hop, follow_seeds,
  empty_walk,
}
use wtfoc.Trace.Traversal.Steps.{follow_seeds-Hops}
use wtfoc.Trace.Traversal.Hops.{target_chunks, Hops, arrived, along, from_seed, add-new}

-- Why a hop to a chunk is there, where `visited` has the chunks of the hops in their order.
pub data Explained (o : WalkOptions) (seeds : List Seed) (visited : List Text)
    : Text → TraceHop → Type 0 where
  is_seed : (seed : Seed) → Memᴰ seed seeds → Explained o seeds visited seed.id (seed_hop o seed)
  by_edge :
      (parent : ℕ) (from : Text) (e : TraversalEdge) (id : Text) (chunk : ChunkData)
      → get_elem? visited parent ≡ some from
      → Memᴰ e (edges_from o from)
      → Memᴰ (id, chunk) (target_chunks o e)
      → Explained o seeds visited id (edge_hop parent e chunk)

pub data AllExplained (o : WalkOptions) (seeds : List Seed) (visited : List Text)
    : List Text → List TraceHop → Type 0 where
  no_hops : AllExplained o seeds visited [] []
  one_more :
      {id : Text} {h : TraceHop} {ids : List Text} {hs : List TraceHop}
      → Explained o seeds visited id h
      → AllExplained o seeds visited ids hs
      → AllExplained o seeds visited (id ∷ ids) (h ∷ hs)

-- More visited chunks leave an explanation true.
Explained-grow :
    {o : WalkOptions} {seeds : List Seed} {visited : List Text} {id : Text} {h : TraceHop}
    (new : Text)
    → Explained o seeds visited id h
    → Explained o seeds (visited ++ new ∷ []) id h
Explained-grow new (is_seed seed q) = is_seed seed q
Explained-grow {visited = visited} new (by_edge parent from e id chunk there m n) =
    by_edge parent from e id chunk
      (rw (get_elem?-append_lt visited (new ∷ []) parent (get_elem?-lt visited parent from there))
        there)
      m n

AllExplained-append :
    {o : WalkOptions} {seeds : List Seed} {visited ids : List Text} {hs : List TraceHop} (id : Text)
    (h : TraceHop)
    → AllExplained o seeds visited ids hs
    → Explained o seeds visited id h
    → AllExplained o seeds (visited ++ id ∷ []) (ids ++ id ∷ []) (hs ++ h ∷ [])
AllExplained-append id h no_hops x = one_more (Explained-grow id x) no_hops
AllExplained-append id h (one_more y rest) x =
    one_more (Explained-grow id y) (AllExplained-append id h rest x)

-- All hops of a walk are explained.
Told : WalkOptions → List Seed → Walk → Type 0
Told o seeds w = AllExplained o seeds w.visited w.visited w.hops

add_hop-Told :
    (o : WalkOptions) (seeds : List Seed) (w : Walk) (id : Text) (h : TraceHop)
    → includes w.visited id ≡ false
    → Explained o seeds w.visited id h
    → Told o seeds w
    → Told o seeds (add_hop id h w)
unfolding Told
add_hop-Told o seeds w id h new x t = rw (add-new w.visited id new) (AllExplained-append id h t x)

Hops-Told :
    {o : WalkOptions} {seeds : List Seed} {w v : Walk}
    → Hops o seeds w v
    → Told o seeds w
    → Told o seeds v
Hops-Told arrived t = t
Hops-Told {o = o} {w = w} (along parent from e id chunk p s m n rest) t = Hops-Told rest (
    add_hop-Told o _ w id (edge_hop parent e chunk) p.new
      (by_edge parent from e id chunk s.there m n) t)
Hops-Told {o = o} {w = w} (from_seed seed q p rest) t =
    Hops-Told rest (add_hop-Told o _ w seed.id (seed_hop o seed) p.new (is_seed seed q) t)

-- The evidence of a trace is true: of a walk begun empty with room for a hop, each hop stands at the
-- place of its chunk among the visited ones, and either it is the hop of one of the seeds, or its edge is one of
-- the edges of the chunk at the place that its parent index names, and its chunk is one that the target
-- of that edge names.
pub follow_seeds-AllExplained :
    (o : WalkOptions) (max_hops min_score : ℕ) (seeds : List Seed)
    → is_full o empty_walk ≡ false
    → let w = follow_seeds o max_hops min_score seeds empty_walk in
      AllExplained o seeds w.visited w.visited w.hops
unfolding Told
follow_seeds-AllExplained o max_hops min_score seeds room =
    Hops-Told (follow_seeds-Hops o max_hops min_score seeds empty_walk room refl) no_hops
