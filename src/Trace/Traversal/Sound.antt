-- ===== src/Trace/Traversal/Sound.antt =====
-- packages/search/src/trace: what holds of every walk that follows from permitted hops.
use wtfoc.Prelude.{
  ℕ, suc, ◌+◌, Bool, true, false, ◌&&◌, Option, none, some, List, [], ◌∷◌, ◌++◌, ◌≡◌, refl, length,
  length-append, get_elem?-lt, leb, ltb, all, distinct, distinct-add, arith,
}
use wtfoc.Prelude.Text.{Text, units_have_eq}
use wtfoc.Trace.{TraceHop}
use wtfoc.Trace.Traversal.{
  WalkOptions, Walk, is_full, is_allowed, edge_hop, add_hop, follow_edges, Seed, seed_hop,
  follow_seeds, empty_walk,
}
use wtfoc.Trace.Traversal.Steps.{follow_edges-Hops, follow_seeds-Hops}
use wtfoc.Trace.Traversal.Hops.{Permitted, Stands, Hops, arrived, along, from_seed}

abbrev under : Option ℕ → ℕ → Bool
under none n = true
under (some max_total) n = leb n max_total

abbrev precedes : ℕ → Option ℕ → Bool
precedes i none = true
precedes i (some parent) = ltb parent i

-- Each parent stands before its hop, whose place is counted from `i`.
abbrev pub parents_precede : ℕ → List TraceHop → Bool
parents_precede i [] = true
parents_precede i (h ∷ hs) = precedes i h.parent_hop_index && parents_precede (suc i) hs

abbrev all_allowed : WalkOptions → List TraceHop → Bool
all_allowed o hops = all (λ h. is_allowed o h.chunk) hops

pub record Sound (o : WalkOptions) (w : Walk) : Type 0 where
  pub bounded : under o.max_total (length w.hops) ≡ true
  pub never_twice : distinct w.visited ≡ true
  pub one_each : length w.visited ≡ length w.hops
  pub tree : parents_precede 0 w.hops ≡ true
  pub allowed : all_allowed o w.hops ≡ true

parents_precede-append :
    (i : ℕ) (hs : List TraceHop) (h : TraceHop)
    → parents_precede i hs ≡ true
    → precedes (i + length hs) h.parent_hop_index ≡ true
    → parents_precede i (hs ++ h ∷ []) ≡ true
parents_precede-append i [] h p q = ground (arith, q)
parents_precede-append i (g ∷ hs) h p q =
    ground (arith, parents_precede-append (suc i) hs h (ground arith) (ground (arith, q)))

all_allowed-append :
    (o : WalkOptions) (hs : List TraceHop) (h : TraceHop)
    → all_allowed o hs ≡ true
    → is_allowed o h.chunk ≡ true
    → all_allowed o (hs ++ h ∷ []) ≡ true
all_allowed-append o [] h a b = ground arith
all_allowed-append o (g ∷ hs) h a b = ground (arith, all_allowed-append o hs h)

under-room :
    (m : Option ℕ) (w : Walk) (o : WalkOptions) (h : TraceHop)
    → o.max_total ≡ m
    → is_full o w ≡ false
    → under m (length (w.hops ++ h ∷ [])) ≡ true
under-room none w o h e room = refl
under-room (some n) w o h e room = ground (arith, length-append w.hops (h ∷ []), room, e)

-- One permitted hop.
add_hop-Sound :
    (o : WalkOptions) (w : Walk) (id : Text) (h : TraceHop)
    → Permitted o w id h.chunk
    → precedes (length w.hops) h.parent_hop_index ≡ true
    → Sound o w
    → Sound o (add_hop id h w)
add_hop-Sound o w id h p before s = record {
  bounded = under-room o.max_total w o h refl p.room;
  never_twice = distinct-add w.visited id s.never_twice;
  one_each =
      ground (
        arith,
        p.new,
        s.one_each,
        length-append w.visited (id ∷ []),
        length-append w.hops (h ∷ []),
      );
  tree = parents_precede-append 0 w.hops h s.tree (ground (arith, before));
  allowed = all_allowed-append o w.hops h s.allowed p.allowed;
}

Hops-Sound :
    {o : WalkOptions} {seeds : List Seed} {w v : Walk} → Hops o seeds w v → Sound o w → Sound o v
Hops-Sound arrived s = s
Hops-Sound {o = o} {w = w} (along parent from e id chunk p t m n rest) s = Hops-Sound rest (
    add_hop-Sound o w id (edge_hop parent e chunk) p
      (ground (arith, t.aligned, get_elem?-lt w.visited parent from t.there)) s)
Hops-Sound {o = o} {w = w} (from_seed seed q p rest) s =
    Hops-Sound rest (add_hop-Sound o w seed.id (seed_hop o seed) p refl s)

empty_under : (m : Option ℕ) → under m 0 ≡ true
empty_under none = refl
empty_under (some n) = ground arith

-- `followEdges` from the chunk of a hop that is there keeps a walk sound: no more hops than `maxTotal`, one per
-- visited chunk and none twice, each parent before its hop, and no source type that is not allowed.
pub follow_edges-Sound :
    (o : WalkOptions) (remaining : ℕ) (id : Text) (parent : ℕ) (w : Walk)
    → Stands w parent id
    → Sound o w
    → Sound o (follow_edges o remaining id parent w)
follow_edges-Sound o remaining id parent w t s =
    Hops-Sound (follow_edges-Hops o [] remaining id parent w t) s

-- The walk from any seeds, begun empty and with room for a hop, is sound: no more hops than `maxTotal`,
-- one per visited chunk and none twice, each parent before its hop, and no source type that is not
-- allowed.
pub follow_seeds-Sound :
    (o : WalkOptions) (max_hops min_score : ℕ) (seeds : List Seed)
    → is_full o empty_walk ≡ false
    → Sound o (follow_seeds o max_hops min_score seeds empty_walk)
follow_seeds-Sound o max_hops min_score seeds room =
    Hops-Sound (follow_seeds-Hops o max_hops min_score seeds empty_walk room refl) (record {
      bounded = empty_under o.max_total;
      never_twice = refl;
      one_each = refl;
      tree = refl;
      allowed = refl;
    })
