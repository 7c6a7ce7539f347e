-- ===== src/Trace/Traversal/Steps.antt =====
-- packages/search/src/trace: a walk as a sequence of single hops, each with the conditions under which
-- the code pushes it.
use mathlib.Core.List.{Memᴰ}
use wtfoc.Prelude.{
  ℕ, zero, suc, true, false, not, ◌||◌, inl, inr, List, [], ◌∷◌, ◌≡◌, refl, length, includes,
  Option-cases, Bool-cases, arith,
}
use wtfoc.Prelude.Dict
use wtfoc.Prelude.Dict.{Dict}
use wtfoc.Prelude.Text.{Text, units_have_eq}
use wtfoc.Trace.{TraversalEdge, ChunkData}
use wtfoc.Trace.Resolution.{Found}
use wtfoc.Trace.Traversal.{
  WalkOptions, Walk, is_full, is_allowed, edges_from, edge_hop, add_hop, visit_target,
  visit_targets, visit_edges, follow_edges, Seed, seed_hop, skips_seed, follow_seed, follow_seeds,
}
use wtfoc.Trace.Traversal.Hops.{
  arrived, along, from_seed, Stands, target_chunks, Hops, Hops-trans, added-Stands, Hops-Stands,
  Hops-aligned,
}

-- What a nested call does, from a hop that is there.
Follows : WalkOptions → List Seed → (Text → ℕ → Walk → Walk) → Type 0
Follows o seeds follow =
    (id : Text) (parent : ℕ) (w : Walk) → Stands w parent id → Hops o seeds w (follow id parent w)

module _ (o : WalkOptions) (seeds : List Seed) (follow : Text → ℕ → Walk → Walk)
    (f : Follows o seeds follow) (parent : ℕ) (from : Text) where
  visit_target-Hops :
      (e : TraversalEdge) (id : Text) (chunk : ChunkData) (w : Walk)
      → is_full o w ≡ false
      → Stands w parent from
      → Memᴰ e (edges_from o from)
      → Memᴰ (id, chunk) (target_chunks o e)
      → Hops o seeds w (visit_target o follow parent e id chunk w)
  unfolding visit_target Follows
  visit_target-Hops e id chunk w room s m n =
      elim (Bool-cases (includes w.visited id || not (is_allowed o chunk))) [
        | inl skipped ↦ rw skipped arrived
        | inr taken ↦
            let new : includes w.visited id ≡ false = ground arith in
            rw taken (
              along parent from e id chunk
                (record { room = room; new = new; allowed = ground arith }) s m n
                (f id (length w.hops) (add_hop id (edge_hop parent e chunk) w)
                  (added-Stands id (edge_hop parent e chunk) w new s.aligned)))
      ]

  visit_targets-Hops :
      (e : TraversalEdge) (found : Found) (w : Walk)
      → Stands w parent from
      → Memᴰ e (edges_from o from)
      → ((p : Text × ChunkData) → Memᴰ p found → Memᴰ p (target_chunks o e))
      → Hops o seeds w (visit_targets o follow parent e found w)
  unfolding visit_targets
  visit_targets-Hops e [] w s m among = arrived
  visit_targets-Hops e ((id, chunk) ∷ found) w s m among = elim (Bool-cases (is_full o w)) [
    | inl full ↦ rw full arrived
    | inr room ↦
        let first = visit_target-Hops e id chunk w room s m (among (id, chunk) (Memᴰ.head refl)) in
        rw room (
          Hops-trans first (
            visit_targets-Hops e found _ (Hops-Stands parent from first s) m
              (λ p q. among p (Memᴰ.tail q))))
  ]

  visit_edges-Hops :
      (es : List TraversalEdge) (w : Walk)
      → Stands w parent from
      → ((e : TraversalEdge) → Memᴰ e es → Memᴰ e (edges_from o from))
      → Hops o seeds w (visit_edges o follow parent es w)
  unfolding visit_edges
  visit_edges-Hops [] w s among = arrived
  visit_edges-Hops (e ∷ es) w s among = elim (Bool-cases (is_full o w)) [
    | inl full ↦ rw full arrived
    | inr room ↦
        let first =
          visit_targets-Hops e (target_chunks o e) w s (among e (Memᴰ.head refl)) (λ p q. q) in
        rw room (
          Hops-trans first (
            visit_edges-Hops es _ (Hops-Stands parent from first s) (λ g q. among g (Memᴰ.tail q))))
  ]

pub follow_edges-Hops :
    (o : WalkOptions) (seeds : List Seed) (remaining : ℕ) (id : Text) (parent : ℕ) (w : Walk)
    → Stands w parent id
    → Hops o seeds w (follow_edges o remaining id parent w)
unfolding follow_edges Follows
follow_edges-Hops o seeds zero id parent w s = arrived
follow_edges-Hops o seeds (suc remaining) id parent w s = elim (Bool-cases (is_full o w)) [
  | inl full ↦ rw full arrived
  | inr room ↦ rw room (
      visit_edges-Hops o seeds (follow_edges o remaining) (follow_edges-Hops o seeds remaining)
        parent id (edges_from o id) w s (λ e q. q))
]

seed_allowed :
    (o : WalkOptions) (min_score : ℕ) (seed : Seed) (w : Walk)
    → skips_seed o min_score seed w ≡ false
    → is_allowed o ((seed_hop o seed).chunk) ≡ true
seed_allowed o min_score seed w taken = elim (Option-cases (Dict.get seed.id o.indexes.by_id)) [
  | inl gone ↦ rw gone (ground arith)
  | inr (chunk, there) ↦ rw there (ground arith)
]

follow_seed-Hops :
    (o : WalkOptions) (seeds : List Seed) (max_hops min_score : ℕ) (seed : Seed) (w : Walk)
    → is_full o w ≡ false
    → length w.visited ≡ length w.hops
    → skips_seed o min_score seed w ≡ false
    → Memᴰ seed seeds
    → Hops o seeds w (follow_seed o max_hops seed w)
follow_seed-Hops o seeds max_hops min_score seed w room a taken q =
    let new : includes w.visited seed.id ≡ false = ground arith in
    from_seed seed q
      (record { room = room; new = new; allowed = seed_allowed o min_score seed w taken })
      (follow_edges-Hops o seeds max_hops seed.id (length w.hops)
        (add_hop seed.id (seed_hop o seed) w) (added-Stands seed.id (seed_hop o seed) w new a))

follow_some-Hops :
    (o : WalkOptions) (seeds : List Seed) (max_hops min_score : ℕ) (left : List Seed) (w : Walk)
    → is_full o w ≡ false
    → length w.visited ≡ length w.hops
    → ((seed : Seed) → Memᴰ seed left → Memᴰ seed seeds)
    → Hops o seeds w (follow_seeds o max_hops min_score left w)
unfolding follow_seeds
follow_some-Hops o seeds max_hops min_score [] w room a among = arrived
follow_some-Hops o seeds max_hops min_score (seed ∷ left) w room a among =
    let rest : (s : Seed) → Memᴰ s left → Memᴰ s seeds = λ s q. among s (Memᴰ.tail q) in
    elim (Bool-cases (skips_seed o min_score seed w)) [
      | inl skipped ↦ rw skipped (follow_some-Hops o seeds max_hops min_score left w room a rest)
      | inr taken ↦
          let first =
            follow_seed-Hops o seeds max_hops min_score seed w room a taken
              (among seed (Memᴰ.head refl)) in
          elim (Bool-cases (is_full o (follow_seed o max_hops seed w))) [
            | inl full ↦ rw (taken, full) first
            | inr more ↦
                rw (taken, more)
                  (Hops-trans first (
                    follow_some-Hops o seeds max_hops min_score left _ more (Hops-aligned first a)
                      rest))
          ]
    ]

-- From a walk with room and as many visited chunks as hops, the loop over the seeds is a sequence of
-- permitted hops: each one from one of the seeds, or along an edge of the chunk of an earlier hop to a
-- chunk that the target of the edge names.
pub follow_seeds-Hops :
    (o : WalkOptions) (max_hops min_score : ℕ) (seeds : List Seed) (w : Walk)
    → is_full o w ≡ false
    → length w.visited ≡ length w.hops
    → Hops o seeds w (follow_seeds o max_hops min_score seeds w)
follow_seeds-Hops o max_hops min_score seeds w room a =
    follow_some-Hops o seeds max_hops min_score seeds w room a (λ s q. q)
