-- ===== src/Trace/Analysis/Partition.antt =====
-- packages/search/src/edge-resolution.ts: every edge is counted once.
use wtfoc.Prelude.{
  ℕ, suc, ◌+◌, ◌≤◌, Option, none, some, List, [], ◌∷◌, ◌≡◌, refl, length, or_else, text_has_eq,
  arith,
}
use wtfoc.Prelude.Dict
use wtfoc.Prelude.Dict.{Dict}
use wtfoc.Prelude.Text.{Text, units_have_eq}
use wtfoc.Trace.{Edge, Segment}
use wtfoc.Trace.SourceIndex.{SourceIndex}
use wtfoc.Trace.Analysis.{
  Tally, no_edges, EdgeResolutionStats, before_hash, count_repo, tally_edge, tally_edges, all_edges,
  analyze_edge_resolution,
}

-- The counts of a map, added up.
abbrev pub sum_counts : Dict Text ℕ → ℕ
sum_counts [] = 0
sum_counts ((k, n) ∷ m) = n + sum_counts m

sum_counts-set :
    (k : Text) (m : Dict Text ℕ)
    → sum_counts (Dict.set k (or_else (Dict.get k m) 0 + 1) m) ≡ suc (sum_counts m)
unfolding Dict.get Dict.set
sum_counts-set k [] = omega arith
sum_counts-set k ((j, n) ∷ m) = ground (arith, sum_counts-set k m)

count_repo-le :
    (repo : Option Text) (m : Dict Text ℕ) → sum_counts (count_repo repo m) ≤ suc (sum_counts m)
count_repo-le none m = omega arith
count_repo-le (some []) m = omega arith
count_repo-le (some (c ∷ s)) m = omega (arith, sum_counts-set (c ∷ s) m)

-- The edges that are counted by some kind, and those counted by their repository.
abbrev kinds : Tally → ℕ
kinds t = t.resolved_edges + t.bare_refs + t.concept_edges + t.package_edges + t.url_edges

record Counted (t : Tally) (n : ℕ) : Type 0 where
  total : t.total_edges ≡ n
  within : kinds t + sum_counts t.repo_counts ≤ n

tally_edge-Counted :
    (lower : Text → Text) (index : SourceIndex) (t : Tally) (e : Edge) (n : ℕ)
    → Counted t n
    → Counted (tally_edge lower index t e) (suc n)
unfolding tally_edge
tally_edge-Counted lower index t e n c = record {
  total = ground (arith, c.total);
  within = ground (arith, c.within, count_repo-le (before_hash e.target_id) t.repo_counts);
}

tally_edges-Counted :
    (lower : Text → Text) (index : SourceIndex) (t : Tally) (es : List Edge) (n : ℕ)
    → Counted t n
    → Counted (tally_edges lower index t es) (n + length es)
unfolding tally_edges
tally_edges-Counted lower index t [] n c = record {
  total = omega (arith, c.total);
  within = omega (arith, c.within);
}
tally_edges-Counted lower index t (e ∷ es) n c =
    let rest =
      tally_edges-Counted lower index (tally_edge lower index t e) es (suc n)
        (tally_edge-Counted lower index t e n c) in
    record { total = omega (arith, rest.total); within = omega (arith, rest.within) }

-- What the statistics of some edges promise.
pub record Partitioned (edges : List Edge) (s : EdgeResolutionStats) : Type 0 where
  pub all_counted : s.total_edges ≡ length edges
  pub adds_up :
      s.resolved_edges + s.bare_refs + s.concept_edges + s.package_edges + s.url_edges
        + s.unresolved_edges
      ≡ s.total_edges
  pub by_repo : sum_counts s.unresolved_by_repo ≤ s.unresolved_edges

-- `analyzeEdgeResolution` counts every edge of the segments and of the overlay exactly once: the
-- resolved, bare, concept, package, URL and unresolved edges add up to all of them, so the subtraction
-- never goes below zero, and the counts by repository add up to no more than the unresolved edges.
pub analyze_edge_resolution-Partitioned :
    (lower : Text → Text) (segments : List Segment) (index : SourceIndex) (overlay : List Edge)
    → Partitioned
        (all_edges segments overlay)
        (analyze_edge_resolution lower segments index overlay)
unfolding analyze_edge_resolution
analyze_edge_resolution-Partitioned lower segments index overlay =
    let c =
      tally_edges-Counted lower index no_edges (all_edges segments overlay) 0
        (record { total = refl; within = omega arith }) in
    record {
      all_counted = omega (arith, c.total);
      adds_up = omega (arith, c.total, c.within);
      by_repo = omega (arith, c.total, c.within);
    }
