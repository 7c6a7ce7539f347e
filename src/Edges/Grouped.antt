-- ===== src/Edges/Grouped.antt =====
-- packages/ingest/src/edges/merge.ts: the merged edges, key by key.
use wtfoc.Prelude.{
  String, Bool, true, false, Option, none, some, inl, inr, List, [], ◌∷◌, ◌++◌, ◌==◌, ◌≡◌, refl,
  sym, ap, ◌∙◌, map, filter, add_all, if◌then◌else◌, Bool-cases, text_has_eq,
}
use wtfoc.Prelude.Dict
use wtfoc.Prelude.Dict.{Dict, get-set}
use wtfoc.Prelude.Dict.Values.{IsMap, set-IsMap}
use wtfoc.Prelude.Dict.Keys.{gather, keys-set, gather-same, values-gather}
use wtfoc.Edges.{Arithmetic, ExtractedEdge, EdgeKey, edge_key, edge_keys_have_eq}
use wtfoc.Edges.Merge.{
  MergedEdge, Extracted, first_merged, raise_confidence, merge_into, merge_found, merge_results,
  finish_edge, merge_edges,
}

if_true : {A : Type 0} (b : Bool) (x y : A) → b ≡ true → (if b then x else y) ≡ x
if_true true x y h = refl
if_true false x y h = absurd (cc h)

if_false : {A : Type 0} (b : Bool) (x y : A) → b ≡ false → (if b then x else y) ≡ y
if_false true x y h = absurd (cc h)
if_false false x y h = refl

module _ {F : Type 0} (a : Arithmetic F) where
  -- An edge with the name of the extractor that found it.
  abbrev pub Found : Type 0
  Found = String × ExtractedEdge F

  unfoldable pub found_by : List (Extracted F) → List Found
  found_by [] = []
  found_by (r ∷ results) = map (λ e. (r.extractor_name, e)) r.edges ++ found_by results

  unfoldable pub has_key : EdgeKey → Found → Bool
  has_key key p = edge_key p.1 == key

  unfoldable pub raise_all : ExtractedEdge F → List Found → ExtractedEdge F
  raise_all edge [] = edge
  raise_all edge (p ∷ ps) = raise_all (raise_confidence a edge p.1.confidence) ps

  -- What the edges of one key come to: the first of them, with its confidence raised by the others, the names of
  -- their extractors and their evidences, each once.
  unfoldable pub group : List Found → Option (MergedEdge F)
  unfolding raise_all
  group [] = none
  group ((name, edge) ∷ ps) = some (record {
    edge = raise_all edge ps;
    provenance = add_all (name ∷ []) (map (λ p. p.0) ps);
    evidence_parts = add_all (edge.evidence ∷ []) (map (λ p. p.1.evidence) ps);
  })

  -- One round of the inner loop.
  abbrev merge_pair : Dict EdgeKey (MergedEdge F) → Found → Dict EdgeKey (MergedEdge F)
  merge_pair m (name, edge) =
      Dict.set (edge_key edge) (merge_into a (Dict.get (edge_key edge) m) name edge) m

  merge_pairs : Dict EdgeKey (MergedEdge F) → List Found → Dict EdgeKey (MergedEdge F)
  merge_pairs m [] = m
  merge_pairs m (p ∷ ps) = merge_pairs (merge_pair m p) ps

  merge_found-pairs :
      (m : Dict EdgeKey (MergedEdge F)) (name : String) (edges : List (ExtractedEdge F))
      (ps : List Found)
      → merge_pairs m (map (λ e. (name, e)) edges ++ ps)
        ≡ merge_pairs (merge_found a m name edges) ps
  unfolding merge_pairs merge_found
  merge_found-pairs m name [] ps = refl
  merge_found-pairs m name (e ∷ edges) ps = merge_found-pairs (merge_pair m (name, e)) name edges ps

  merge_results-pairs :
      (m : Dict EdgeKey (MergedEdge F)) (results : List (Extracted F))
      → merge_results a m results ≡ merge_pairs m (found_by results)
  unfolding merge_pairs merge_results found_by
  merge_results-pairs m [] = refl
  merge_results-pairs m (r ∷ results) =
      merge_results-pairs (merge_found a m r.extractor_name r.edges) results
      ∙ sym (merge_found-pairs m r.extractor_name r.edges (found_by results))

  merge_pairs-IsMap :
      (m : Dict EdgeKey (MergedEdge F)) (ps : List Found) → IsMap m → IsMap (merge_pairs m ps)
  unfolding merge_pairs
  merge_pairs-IsMap m [] u = u
  merge_pairs-IsMap m (p ∷ ps) u =
      merge_pairs-IsMap (merge_pair m p) ps (set-IsMap (edge_key p.1) _ m u)

  keys-merge_pairs :
      (m : Dict EdgeKey (MergedEdge F)) (ps : List Found)
      → Dict.keys (merge_pairs m ps) ≡ add_all (Dict.keys m) (map (λ p. edge_key p.1) ps)
  unfolding merge_pairs
  keys-merge_pairs m [] = refl
  keys-merge_pairs m (p ∷ ps) =
      keys-merge_pairs (merge_pair m p) ps
      ∙ ap (λ ks. add_all ks (map (λ p. edge_key p.1) ps)) (keys-set (edge_key p.1) _ m)

  -- The later edges of a key go into what stands there.
  resume : Option (MergedEdge F) → List Found → Option (MergedEdge F)
  resume m [] = m
  resume m (p ∷ ps) = resume (some (merge_into a m p.0 p.1)) ps

  resume-some :
      (m : MergedEdge F) (ps : List Found)
      → resume (some m) ps
        ≡ some (record {
          edge = raise_all m.edge ps;
          provenance = add_all m.provenance (map (λ p. p.0) ps);
          evidence_parts = add_all m.evidence_parts (map (λ p. p.1.evidence) ps);
        })
  unfolding resume raise_all
  resume-some m [] = refl
  resume-some m (p ∷ ps) = resume-some (merge_into a (some m) p.0 p.1) ps

  resume-group : (ps : List Found) → resume none ps ≡ group ps
  unfolding resume group
  resume-group [] = refl
  resume-group (p ∷ ps) = resume-some (first_merged p.0 p.1) ps

  get-merge_pairs :
      (key : EdgeKey) (m : Dict EdgeKey (MergedEdge F)) (ps : List Found)
      → Dict.get key (merge_pairs m ps) ≡ resume (Dict.get key m) (filter (has_key key) ps)
  unfolding merge_pairs resume has_key
  get-merge_pairs key m [] = refl
  get-merge_pairs key m (p ∷ ps) =
      let rest = get-merge_pairs key (merge_pair m p) ps in
      let step = get-set key (edge_key p.1) (merge_into a (Dict.get (edge_key p.1) m) p.0 p.1) m in
      elim (Bool-cases (edge_key p.1 == key)) [
        | inl mine ↦
            let same : edge_key p.1 ≡ key =
              (edge_keys_have_eq.same_iff (edge_key p.1) key).0 mine in
            rest
            ∙ ap (λ x. resume x (filter (has_key key) ps))
                (step
                  ∙ if_true (edge_key p.1 == key) _ _ mine
                  ∙ ap (λ k. some (merge_into a (Dict.get k m) p.0 p.1)) same)
            ∙ sym (ap (resume (Dict.get key m)) (if_true (edge_key p.1 == key) _ _ mine))
        | inr other ↦
            rest
            ∙ ap (λ x. resume x (filter (has_key key) ps))
                (step ∙ if_false (edge_key p.1 == key) _ _ other)
            ∙ sym (ap (resume (Dict.get key m)) (if_false (edge_key p.1 == key) _ _ other))
      ]

  -- The edges of a key, merged.
  abbrev pub group_of : List (Extracted F) → EdgeKey → Option (MergedEdge F)
  group_of results key = group (filter (has_key key) (found_by results))

  abbrev pub found_keys : List (Extracted F) → List EdgeKey
  found_keys results = add_all [] (map (λ p. edge_key p.1) (found_by results))

  -- The one pass over the edges of all extractors gives, for each key in the order in which the keys are
  -- met, the edges of that key merged on their own: the first of them with the confidence that the
  -- later ones raise and that the number of different extractors boosts, their evidences and their
  -- extractors, each once and in the order in which they are met.
  pub merge_edges-group :
      (now : String) (results : List (Extracted F))
      → merge_edges a now results
        ≡ map (finish_edge a now) (gather (group_of results) (found_keys results))
  unfolding merge_edges Dict.get group
  merge_edges-group now results =
      let ps = found_by results in
      let m = merge_pairs [] ps in
      let each = λ (k : EdgeKey). get-merge_pairs k [] ps ∙ resume-group (filter (has_key k) ps) in
      ap (λ n. map (finish_edge a now) (Dict.values n)) (merge_results-pairs [] results)
      ∙ ap (map (finish_edge a now)) (
          values-gather m (merge_pairs-IsMap [] ps refl)
          ∙ gather-same (λ k. Dict.get k m) (group_of results) (Dict.keys m) (λ k i. each k)
          ∙ ap (gather (group_of results)) (keys-merge_pairs [] ps))
