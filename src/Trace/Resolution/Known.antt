-- ===== src/Trace/Resolution/Known.antt =====
-- packages/search/src/trace/resolution.ts: the engine only finds chunks that the index has.
use wtfoc.Prelude.{
  Option, none, some, inl, inr, List, [], ◌∷◌, ◌++◌, ◌≡◌, refl, or_else, leb, length, Option-cases,
  Bool-cases,
}
use wtfoc.Prelude.Dict
use wtfoc.Prelude.Dict.{Dict}
use wtfoc.Prelude.Text.{Text, contains, after_slash, units_have_eq}
use wtfoc.Trace.{ChunkData, ChunkIndexes}
use wtfoc.Trace.Source.{normalize_repo_source}
use wtfoc.Trace.Resolution.{
  Found, known_chunks, partial_matches, or_next, is_structured, repo_local_path, stripped_matches,
  structured_matches, renamed_matches, find_direct, find_chunks_by_target,
}

pub data AllKnown (by_id : Dict Text ChunkData) : Found → Type 0 where
  all_known : AllKnown by_id []
  known :
      {id : Text} {chunk : ChunkData} {rest : Found}
      → Dict.get id by_id ≡ some chunk
      → AllKnown by_id rest
      → AllKnown by_id ((id, chunk) ∷ rest)

known_chunks-AllKnown :
    (by_id : Dict Text ChunkData) (ids : List Text) → AllKnown by_id (known_chunks by_id ids)
unfolding known_chunks
known_chunks-AllKnown by_id [] = all_known
known_chunks-AllKnown by_id (id ∷ ids) = elim (Option-cases (Dict.get id by_id)) [
  | inl gone ↦ rw gone (known_chunks-AllKnown by_id ids)
  | inr (d, there) ↦ rw there (known there (known_chunks-AllKnown by_id ids))
]

AllKnown-append :
    (by_id : Dict Text ChunkData) (xs ys : Found)
    → AllKnown by_id xs
    → AllKnown by_id ys
    → AllKnown by_id (xs ++ ys)
AllKnown-append by_id [] ys all_known k = k
AllKnown-append by_id (x ∷ xs) ys (known there rest) k =
    known there (AllKnown-append by_id xs ys rest k)

partial_matches-AllKnown :
    (by_id : Dict Text ChunkData) (part : Text) (m : Dict Text (List Text)) (rs : Found)
    → AllKnown by_id rs
    → AllKnown by_id (partial_matches by_id part m rs)
unfolding partial_matches
partial_matches-AllKnown by_id part [] rs k = k
partial_matches-AllKnown by_id part ((s, ids) ∷ m) rs k =
    let more = rs ++ known_chunks by_id ids in
    let k_more =
      AllKnown-append by_id rs (known_chunks by_id ids) k (known_chunks-AllKnown by_id ids) in
    elim (Bool-cases (contains s part)) [
      | inr absent ↦ rw absent (partial_matches-AllKnown by_id part m rs k)
      | inl there ↦ elim (Bool-cases (leb 10 (length more))) [
        | inl enough ↦ rw (there, enough) k_more
        | inr few ↦ rw (there, few) (partial_matches-AllKnown by_id part m more k_more)
      ]
    ]

or_next-AllKnown :
    (by_id : Dict Text ChunkData) (xs ys : Found)
    → AllKnown by_id xs
    → AllKnown by_id ys
    → AllKnown by_id (or_next xs ys)
or_next-AllKnown by_id [] ys k l = l
or_next-AllKnown by_id (x ∷ xs) ys k l = k

stripped-AllKnown :
    (path : Option Text) (ix : ChunkIndexes) → AllKnown ix.by_id (stripped_matches path ix)
stripped-AllKnown none ix = all_known
stripped-AllKnown (some path) ix = partial_matches-AllKnown ix.by_id path ix.by_source [] all_known

structured-AllKnown :
    (target lower_target : Text) (ix : ChunkIndexes)
    → AllKnown ix.by_id (structured_matches target lower_target ix)
structured-AllKnown target lower_target ix = elim (Bool-cases (is_structured target)) [
  | inl there ↦ rw there (
      or_next-AllKnown ix.by_id (partial_matches ix.by_id lower_target ix.by_source [])
        (stripped_matches (repo_local_path lower_target) ix)
        (partial_matches-AllKnown ix.by_id lower_target ix.by_source [] all_known)
        (stripped-AllKnown (repo_local_path lower_target) ix))
  | inr absent ↦ rw absent all_known
]

renamed-AllKnown :
    (key : Option Text) (ix : ChunkIndexes) → AllKnown ix.by_id (renamed_matches key ix)
renamed-AllKnown none ix = all_known
renamed-AllKnown (some key) ix =
    known_chunks-AllKnown ix.by_id (or_else (Dict.get key ix.by_repo_name) [])

find_direct-AllKnown :
    (found : Option ChunkData) (target lower_target : Text) (ix : ChunkIndexes)
    → Dict.get target ix.by_id ≡ found
    → AllKnown ix.by_id (find_direct found target lower_target ix)
find_direct-AllKnown (some d) target lower_target ix there = known there all_known
find_direct-AllKnown none target lower_target ix gone =
    or_next-AllKnown ix.by_id _ _
      (known_chunks-AllKnown ix.by_id (or_else (Dict.get lower_target ix.by_source) []))
      (or_next-AllKnown ix.by_id _ _ (structured-AllKnown target lower_target ix)
        (renamed-AllKnown (after_slash lower_target) ix))

-- Every pair of an id and a chunk that `findChunksByTarget` returns, in whichever tier, is an entry of
-- the index of chunks.
pub find_chunks_by_target-AllKnown :
    (lower : Text → Text) (target : Text) (ix : ChunkIndexes)
    → AllKnown ix.by_id (find_chunks_by_target lower target ix)
unfolding find_chunks_by_target
find_chunks_by_target-AllKnown lower target ix =
    find_direct-AllKnown (Dict.get target ix.by_id) target (normalize_repo_source lower target) ix
      refl
