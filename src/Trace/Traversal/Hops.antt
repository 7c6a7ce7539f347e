-- ===== src/Trace/Traversal/Hops.antt =====
-- packages/search/src/trace/traversal.ts: the hops that a walk may add.
use mathlib.Core.List.{Memᴰ}
use wtfoc.Prelude.{
  ℕ, true, false, some, List, [], ◌∷◌, ◌++◌, ◌≡◌, refl, sym, length, length-append, get_elem?,
  get_elem?-append_lt, get_elem?-append_last, get_elem?-lt, includes, add, arith,
}
use wtfoc.Prelude.Text.{Text, units_have_eq}
use wtfoc.Trace.{TraversalEdge, ChunkData, TraceHop}
use wtfoc.Trace.Resolution.{Found, find_chunks_by_target}
use wtfoc.Trace.Traversal.{
  WalkOptions, Walk, is_full, is_allowed, edges_from, edge_hop, add_hop, Seed, seed_hop,
}

-- A hop may be pushed: there is room, the chunk is new, and its type is allowed.
pub record Permitted (o : WalkOptions) (w : Walk) (id : Text) (chunk : ChunkData) : Type 0 where
  pub room : is_full o w ≡ false
  pub new : includes w.visited id ≡ false
  pub allowed : is_allowed o chunk ≡ true

-- The chunk of a hop is the one visited at its place.
pub record Stands (w : Walk) (place : ℕ) (id : Text) : Type 0 where
  pub there : get_elem? w.visited place ≡ some id
  pub aligned : length w.visited ≡ length w.hops

abbrev pub target_chunks : WalkOptions → TraversalEdge → Found
target_chunks o e = find_chunks_by_target o.lower e.edge.target_id o.indexes

-- A hop along an edge comes from a hop that is there, along an edge of its chunk, to a chunk that the
-- target of the edge names. A seed has no parent.
pub data Hops (o : WalkOptions) (seeds : List Seed) : Walk → Walk → Type 0 where
  arrived : {w : Walk} → Hops o seeds w w
  along :
      {w v : Walk} (parent : ℕ) (from : Text) (e : TraversalEdge) (id : Text) (chunk : ChunkData)
      → Permitted o w id chunk
      → Stands w parent from
      → Memᴰ e (edges_from o from)
      → Memᴰ (id, chunk) (target_chunks o e)
      → Hops o seeds (add_hop id (edge_hop parent e chunk) w) v
      → Hops o seeds w v
  from_seed :
      {w v : Walk} (seed : Seed)
      → Memᴰ seed seeds
      → Permitted o w seed.id ((seed_hop o seed).chunk)
      → Hops o seeds (add_hop seed.id (seed_hop o seed) w) v
      → Hops o seeds w v

pub Hops-trans :
    {o : WalkOptions} {seeds : List Seed} {w v u : Walk}
    → Hops o seeds w v
    → Hops o seeds v u
    → Hops o seeds w u
Hops-trans arrived h = h
Hops-trans (along parent from e id chunk p s m n rest) h =
    along parent from e id chunk p s m n (Hops-trans rest h)
Hops-trans (from_seed seed q p rest) h = from_seed seed q p (Hops-trans rest h)

-- What is new goes to the end.
pub add-new : (xs : List Text) (a : Text) → includes xs a ≡ false → add xs a ≡ xs ++ a ∷ []
add-new xs a h = rw h refl

pub add_hop-aligned :
    (id : Text) (h : TraceHop) (w : Walk)
    → includes w.visited id ≡ false
    → length w.visited ≡ length w.hops
    → length ((add_hop id h w).visited) ≡ length ((add_hop id h w).hops)
add_hop-aligned id h w new a =
    ground (arith, new, a, length-append w.visited (id ∷ []), length-append w.hops (h ∷ []))

pub add_hop-Stands :
    (id : Text) (h : TraceHop) (w : Walk) (place : ℕ) (from : Text)
    → includes w.visited id ≡ false
    → Stands w place from
    → Stands (add_hop id h w) place from
add_hop-Stands id h w place from new s = record {
  there =
      rw
        (
          add-new w.visited id new,
          get_elem?-append_lt w.visited (id ∷ []) place (get_elem?-lt w.visited place from s.there),
        )
        (s.there);
  aligned = add_hop-aligned id h w new s.aligned;
}

pub added-Stands :
    (id : Text) (h : TraceHop) (w : Walk)
    → includes w.visited id ≡ false
    → length w.visited ≡ length w.hops
    → Stands (add_hop id h w) (length w.hops) id
added-Stands id h w new a = record {
  there = rw (add-new w.visited id new, sym a) (get_elem?-append_last w.visited id);
  aligned = add_hop-aligned id h w new a;
}

-- No hop is taken back or moved.
pub Hops-Stands :
    {o : WalkOptions} {seeds : List Seed} {w v : Walk} (place : ℕ) (from : Text)
    → Hops o seeds w v
    → Stands w place from
    → Stands v place from
Hops-Stands place from arrived t = t
Hops-Stands {w = w} place from (along parent f e id chunk p s m n rest) t =
    Hops-Stands place from rest (add_hop-Stands id (edge_hop parent e chunk) w place from p.new t)
Hops-Stands {o = o} {w = w} place from (from_seed seed q p rest) t =
    Hops-Stands place from rest (add_hop-Stands seed.id (seed_hop o seed) w place from p.new t)

pub Hops-aligned :
    {o : WalkOptions} {seeds : List Seed} {w v : Walk}
    → Hops o seeds w v
    → length w.visited ≡ length w.hops
    → length v.visited ≡ length v.hops
Hops-aligned arrived a = a
Hops-aligned {w = w} (along parent f e id chunk p s m n rest) a =
    Hops-aligned rest (add_hop-aligned id (edge_hop parent e chunk) w p.new a)
Hops-aligned {o = o} {w = w} (from_seed seed q p rest) a =
    Hops-aligned rest (add_hop-aligned seed.id (seed_hop o seed) w p.new a)
