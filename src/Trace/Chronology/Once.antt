-- ===== src/Trace/Chronology/Once.antt =====
-- packages/search/src/trace/chronology.ts: the timeline is a permutation of the indices.
use wtfoc.Prelude.{
  ℕ, suc, ◌+◌, String, Bool, ◌&&◌, Option, none, some, List, [], ◌∷◌, ◌++◌, ◌≡◌, refl, ltb, leb,
  nat_beq, map, length, if◌then◌else◌, number_has_eq, arith,
}
use wtfoc.Prelude.Counting.{count}
use wtfoc.Prelude.Sorting.{sort, count-sort}
use wtfoc.Trace.{TraceHop}
use wtfoc.Trace.Chronology.{
  Dated, parse_hop_timestamp_ms, Split, put, split_hops, earlier, build_chronological_hop_indices,
}

count-append : (p : ℕ → Bool) (xs ys : List ℕ) → count p (xs ++ ys) ≡ count p xs + count p ys
count-append p [] ys = omega arith
count-append p (x ∷ xs) ys = omega (arith, count-append p xs ys)

count-map : (p : ℕ → Bool) (ds : List Dated) → count p (map (λ d. d.i) ds) ≡ count (λ d. p d.i) ds
count-map p [] = refl
count-map p (d ∷ ds) = omega (arith, count-map p ds)

-- How often an index is in the two arrays.
abbrev times : ℕ → Split → ℕ
times j s = count (λ d. nat_beq d.i j) s.dated + count (λ i. nat_beq i j) s.undated

times-put :
    (j i : ℕ) (o : Option ℕ) (s : Split)
    → times j (put i o s) ≡ (if nat_beq i j then 1 else 0) + times j s
times-put j i none s = omega arith
times-put j i (some ms) s = omega arith

times-split_hops :
    (parse : String → Option ℕ) (j i : ℕ) (hs : List TraceHop)
    → times j (split_hops parse i hs) ≡ (if leb i j && ltb j (i + length hs) then 1 else 0)
unfolding split_hops
times-split_hops parse j i [] = ground arith
times-split_hops parse j i (h ∷ hs) = ground (
  arith,
  times-put j i (parse_hop_timestamp_ms parse h.chunk.timestamp) (split_hops parse (suc i) hs),
  times-split_hops parse j (suc i) hs,
)

-- Whatever the timestamps of the hops, the chronological indices hold each index of a hop exactly once,
-- and no other number.
pub build_chronological_hop_indices-once :
    (parse : String → Option ℕ) (hops : List TraceHop) (j : ℕ)
    → count (λ i. nat_beq i j) (build_chronological_hop_indices parse hops)
      ≡ (if ltb j (length hops) then 1 else 0)
unfolding build_chronological_hop_indices
build_chronological_hop_indices-once parse hops j =
    let s = split_hops parse 0 hops in
    ground (
      arith,
      count-append (λ i. nat_beq i j) (map (λ d. d.i) (sort earlier s.dated)) s.undated,
      count-map (λ i. nat_beq i j) (sort earlier s.dated),
      count-sort earlier (λ d. nat_beq d.i j) s.dated,
      times-split_hops parse j 0 hops,
    )
