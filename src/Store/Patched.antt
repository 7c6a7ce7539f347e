-- ===== src/Store/Patched.antt =====
-- packages/store/src/diff.ts: a diff leads from the left revision to the right one.
use wtfoc.Prelude.{
  String, Bool, true, false, not, ◌&&◌, ◌||◌, Option, none, some, inl, inr, [], ◌∷◌, ◌++◌, ◌==◌,
  ◌≡◌, refl, sym, ap, ◌∙◌, any, any-append, is_some, if◌then◌else◌, Bool-cases, text_has_eq, arith,
}
use wtfoc.Prelude.Dict
use wtfoc.Prelude.Dict.{Dict}
use wtfoc.Prelude.Dict.Values.{IsMap}
use wtfoc.Store.{ArtifactSummaryEntry, CollectionRevision}
use wtfoc.Store.Diff.{
  ArtifactMap, map_by_id, Sorted, sort_found, sort_right, sort_left, compute_revision_diff,
  find_by_id, content, or_kept, is_entry_of, patched,
}
use wtfoc.Store.Keyed.{
  Keyed, map_by_id-Keyed, get-Keyed, first_of, first_of-none, get-tail, find_by_id-append,
  new_entry, is_replaced, if_none,
}

sort_found-added :
    (id : String) (e : ArtifactSummaryEntry) (l : Option ArtifactSummaryEntry) (s : Sorted)
    → find_by_id id (sort_found e l s).added
      ≡ first_of
          (find_by_id id s.added)
          (if e.artifact_id == id then new_entry l (some e) else none)
unfolding find_by_id
sort_found-added id e none s = find_by_id-append id s.added (e ∷ [])
sort_found-added id e (some l) s = elim (Bool-cases (l.content_identity == e.content_identity)) [
  | inl same ↦
      rw same (rw (if_none (e.artifact_id == id)) (sym (first_of-none (find_by_id id s.added))))
  | inr other ↦ rw other (find_by_id-append id s.added (e ∷ []))
]

sort_right-added :
    (id : String) (left right : ArtifactMap) (s : Sorted)
    → Keyed right
    → IsMap right
    → find_by_id id (sort_right left right s).added
      ≡ first_of (find_by_id id s.added) (new_entry (Dict.get id left) (Dict.get id right))
unfolding sort_right Dict.get
sort_right-added id left [] s k u = sym (first_of-none (find_by_id id s.added))
sort_right-added id left ((j, e) ∷ right) s k u =
    let a = find_by_id id s.added in
    let t = sort_found e (Dict.get j left) s in
    let rest = sort_right-added id left right t (ground arith) (ground arith) in
    let step = sort_found-added id e (Dict.get j left) s in
    let own : e.artifact_id ≡ j = (text_has_eq.same_iff e.artifact_id j).0 (ground arith) in
    elim (Bool-cases (j == id)) [
      | inl here ↦
          let same : j ≡ id = (text_has_eq.same_iff j id).0 here in
          let gone : Dict.get id right ≡ none = rw (sym same) (get-tail j e right u) in
          let mine : (e.artifact_id == id) ≡ true = rw own here in
          rw here (rest ∙ rw gone (first_of-none _) ∙ step ∙ rw mine (rw same refl))
      | inr later ↦
          let other : (e.artifact_id == id) ≡ false = rw own later in
          rw later (
            rest
            ∙ ap (λ x. first_of x (new_entry (Dict.get id left) (Dict.get id right)))
                (step ∙ rw other (first_of-none a)))
    ]

sort_found_by :
    (id j : String) (e : ArtifactSummaryEntry) (l : Option ArtifactSummaryEntry) (s : Sorted)
    → ((x : ArtifactSummaryEntry) → l ≡ some x → x.artifact_id ≡ j)
    → any (is_entry_of id) (sort_found e l s).removed
      ≡ (any (is_entry_of id) s.removed || (j == id && is_replaced l (some e)))
sort_found_by id j e none s own = ground arith
sort_found_by id j e (some l) s own = elim (Bool-cases (l.content_identity == e.content_identity)) [
  | inl same ↦ rw same (ground arith)
  | inr other ↦
      rw other (any-append (is_entry_of id) s.removed (l ∷ []) ∙ rw (own l refl) (ground arith))
]

sort_found-removed :
    (id j : String) (e : ArtifactSummaryEntry) (left : ArtifactMap) (s : Sorted)
    → Keyed left
    → any (is_entry_of id) (sort_found e (Dict.get j left) s).removed
      ≡ (any (is_entry_of id) s.removed || (j == id && is_replaced (Dict.get j left) (some e)))
sort_found-removed id j e left s k =
    sort_found_by id j e (Dict.get j left) s
      (λ x h. (text_has_eq.same_iff x.artifact_id j).0 (get-Keyed j left x k h))

sort_right-removed :
    (id : String) (left right : ArtifactMap) (s : Sorted)
    → Keyed left
    → IsMap right
    → any (is_entry_of id) (sort_right left right s).removed
      ≡ (any (is_entry_of id) s.removed || is_replaced (Dict.get id left) (Dict.get id right))
unfolding sort_right Dict.get
sort_right-removed id left [] s k u = ground arith
sort_right-removed id left ((j, e) ∷ right) s k u =
    let t = sort_found e (Dict.get j left) s in
    let rest = sort_right-removed id left right t k (ground arith) in
    let step = sort_found-removed id j e left s k in
    elim (Bool-cases (j == id)) [
      | inl here ↦
          let same : j ≡ id = (text_has_eq.same_iff j id).0 here in
          let gone : Dict.get id right ≡ none = rw (sym same) (get-tail j e right u) in
          rw here (rest ∙ rw gone (rw step (rw here (rw same (ground arith)))))
      | inr later ↦ rw later (rest ∙ rw step (rw later (ground arith)))
    ]

sort_left-added : (right left : ArtifactMap) (s : Sorted) → (sort_left right left s).added ≡ s.added
unfolding sort_left
sort_left-added right [] s = refl
sort_left-added right ((j, e) ∷ left) s =
    let t = if Dict.has j right then s else record s { removed = s.removed ++ e ∷ [] } in
    sort_left-added right left t ∙ kept (Dict.has j right)
  where
    kept :
        (b : Bool) → (if b then s else record s { removed = s.removed ++ e ∷ [] }).added ≡ s.added
    kept true = refl
    kept false = refl

abbrev is_gone : Option ArtifactSummaryEntry → Option ArtifactSummaryEntry → Bool
is_gone l r = is_some l && not (is_some r)

sort_left-removed :
    (id : String) (right left : ArtifactMap) (s : Sorted)
    → Keyed left
    → IsMap left
    → any (is_entry_of id) (sort_left right left s).removed
      ≡ (any (is_entry_of id) s.removed || is_gone (Dict.get id left) (Dict.get id right))
unfolding sort_left Dict.get
sort_left-removed id right [] s k u = ground arith
sort_left-removed id right ((j, e) ∷ left) s k u =
    let t = if Dict.has j right then s else record s { removed = s.removed ++ e ∷ [] } in
    let rest = sort_left-removed id right left t (ground arith) (ground arith) in
    let own : e.artifact_id ≡ j = (text_has_eq.same_iff e.artifact_id j).0 (ground arith) in
    let step : any (is_entry_of id) t.removed
        ≡ (any (is_entry_of id) s.removed || (j == id && not (Dict.has j right))) =
      elim (Bool-cases (Dict.has j right)) [
        | inl stays ↦ rw stays (ground arith)
        | inr leaves ↦
            rw leaves (any-append (is_entry_of id) s.removed (e ∷ []) ∙ rw own (ground arith))
      ] in
    elim (Bool-cases (j == id)) [
      | inl here ↦
          let same : j ≡ id = (text_has_eq.same_iff j id).0 here in
          let gone : Dict.get id left ≡ none = rw (sym same) (get-tail j e left u) in
          rw here (rest ∙ rw gone (rw step (rw here (rw same (ground arith)))))
      | inr later ↦ rw later (rest ∙ rw step (rw later (ground arith)))
    ]

-- The four cases of an id.
patched_by :
    (l r : Option ArtifactSummaryEntry)
    → or_kept (new_entry l r) (is_replaced l r || is_gone l r) l ≡ content r
patched_by none none = refl
patched_by (some a) none = refl
patched_by none (some b) = refl
patched_by (some a) (some b) = elim (Bool-cases (a.content_identity == b.content_identity)) [
  | inl same ↦
      rw same (ap some ((text_has_eq.same_iff a.content_identity b.content_identity).0 same))
  | inr other ↦ rw other refl
]

-- The diff of two revisions leads from the one to the other: an id whose entry the diff adds has the content
-- of that entry, an id that it only removes has none, and every other id has the content that it has in
-- the left revision; and this is the content that the id has in the right revision.
pub patched-compute_revision_diff :
    (left right : CollectionRevision) (id : String)
    → patched (compute_revision_diff left right) (map_by_id [] left.artifact_summaries) id
      ≡ content (Dict.get id (map_by_id [] right.artifact_summaries))
unfolding patched compute_revision_diff find_by_id
patched-compute_revision_diff left right id =
    let l = map_by_id [] left.artifact_summaries in
    let r = map_by_id [] right.artifact_summaries in
    let (lk, lu) = map_by_id-Keyed [] left.artifact_summaries refl refl in
    let (rk, ru) = map_by_id-Keyed [] right.artifact_summaries refl refl in
    let s = sort_right l r (record { added = []; removed = []; unchanged = [] }) in
    let added =
      ap (find_by_id id) (sort_left-added r l s)
      ∙ sort_right-added id l r (record { added = []; removed = []; unchanged = [] }) rk ru in
    let removed =
      sort_left-removed id r l s lk lu
      ∙ ap (λ b. b || is_gone (Dict.get id l) (Dict.get id r))
          (sort_right-removed id l r (record { added = []; removed = []; unchanged = [] }) lk ru) in
    rw added (rw removed (patched_by (Dict.get id l) (Dict.get id r)))
