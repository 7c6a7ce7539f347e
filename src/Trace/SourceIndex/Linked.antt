-- ===== src/Trace/SourceIndex/Linked.antt =====
-- packages/search/src/trace: each source and each repository name of the indexes leads to a chunk
-- that is there.
use wtfoc.Prelude.{
  Bool, true, ◌||◌, Option, none, some, inl, inr, List, [], ◌∷◌, ◌++◌, ◌≡◌, refl, or_else, any, all,
  any-append, length, leb, arith, Option-cases, ==_refl,
}
use wtfoc.Prelude.Dict
use wtfoc.Prelude.Dict.{Dict, has-set}
use wtfoc.Prelude.Text.{Text, contains, after_slash, units_have_eq}
use wtfoc.Trace.{ChunkData, ChunkIndexes, SegmentChunk, Segment}
use wtfoc.Trace.Source.{normalize_repo_source}
use wtfoc.Trace.Indexing.{push_at, push_repo, index_chunk, index_chunks, index_segments}
use wtfoc.Trace.Resolution.{Found, is_found, known_chunks, partial_matches}

-- Some id of an entry names a chunk.
abbrev linked : Dict Text ChunkData → List Text → Bool
linked by_id ids = any (λ id. Dict.has id by_id) ids

abbrev pub all_linked : Dict Text ChunkData → Dict Text (List Text) → Bool
all_linked by_id m = all (λ p. linked by_id p.1) m

pub record Linked (ix : ChunkIndexes) : Type 0 where
  pub by_source : all_linked ix.by_id ix.by_source ≡ true
  pub by_repo_name : all_linked ix.by_id ix.by_repo_name ≡ true

linked-set :
    (by_id : Dict Text ChunkData) (id : Text) (d : ChunkData) (ids : List Text)
    → linked by_id ids ≡ true
    → linked (Dict.set id d by_id) ids ≡ true
linked-set by_id id d [] h = h
linked-set by_id id d (i ∷ ids) h = ground (arith, has-set i id d by_id, linked-set by_id id d ids)

all_linked-set :
    (by_id : Dict Text ChunkData) (id : Text) (d : ChunkData) (m : Dict Text (List Text))
    → all_linked by_id m ≡ true
    → all_linked (Dict.set id d by_id) m ≡ true
all_linked-set by_id id d [] h = h
all_linked-set by_id id d ((k, ids) ∷ m) h =
    ground (arith, linked-set by_id id d ids, all_linked-set by_id id d m)

linked-append :
    (by_id : Dict Text ChunkData) (ids : List Text) (id : Text)
    → Dict.has id by_id ≡ true
    → linked by_id (ids ++ id ∷ []) ≡ true
linked-append by_id ids id h = ground (arith, any-append (λ i. Dict.has i by_id) ids (id ∷ []))

all_linked-put :
    (by_id : Dict Text ChunkData) (key : Text) (ids : List Text) (m : Dict Text (List Text))
    → linked by_id ids ≡ true
    → all_linked by_id m ≡ true
    → all_linked by_id (Dict.set key ids m) ≡ true
unfolding Dict.set
all_linked-put by_id key ids [] l h = ground arith
all_linked-put by_id key ids ((j, js) ∷ m) l h = ground (arith, all_linked-put by_id key ids m)

all_linked-push_at :
    (by_id : Dict Text ChunkData) (key id : Text) (m : Dict Text (List Text))
    → Dict.has id by_id ≡ true
    → all_linked by_id m ≡ true
    → all_linked by_id (push_at key id m) ≡ true
all_linked-push_at by_id key id m h =
    all_linked-put by_id key _ m (linked-append by_id (or_else (Dict.get key m) []) id h)

all_linked-push_repo :
    (by_id : Dict Text ChunkData) (key : Option Text) (id : Text) (m : Dict Text (List Text))
    → Dict.has id by_id ≡ true
    → all_linked by_id m ≡ true
    → all_linked by_id (push_repo key id m) ≡ true
all_linked-push_repo by_id none id m h l = l
all_linked-push_repo by_id (some key) id m h l = all_linked-push_at by_id key id m h l

index_chunk-Linked :
    (lower : Text → Text) (ix : ChunkIndexes) (c : SegmentChunk)
    → Linked ix
    → Linked (index_chunk lower ix c)
unfolding index_chunk
index_chunk-Linked lower ix c l =
    let key = normalize_repo_source lower c.chunk.source in
    let by_id = Dict.set c.id c.chunk ix.by_id in
    let there : Dict.has c.id by_id ≡ true =
      ground (arith, has-set c.id c.id c.chunk ix.by_id, ==_refl c.id) in
    record {
      by_source =
          all_linked-push_at by_id key c.id ix.by_source there
            (all_linked-set ix.by_id c.id c.chunk ix.by_source l.by_source);
      by_repo_name =
          all_linked-push_repo by_id (after_slash key) c.id ix.by_repo_name there
            (all_linked-set ix.by_id c.id c.chunk ix.by_repo_name l.by_repo_name);
    }

index_chunks-Linked :
    (lower : Text → Text) (ix : ChunkIndexes) (cs : List SegmentChunk)
    → Linked ix
    → Linked (index_chunks lower ix cs)
unfolding index_chunks
index_chunks-Linked lower ix [] l = l
index_chunks-Linked lower ix (c ∷ cs) l =
    index_chunks-Linked lower (index_chunk lower ix c) cs (index_chunk-Linked lower ix c l)

pub index_segments-Linked :
    (lower : Text → Text) (ix : ChunkIndexes) (ss : List Segment)
    → Linked ix
    → Linked (index_segments lower ix ss)
unfolding index_segments
index_segments-Linked lower ix [] l = l
index_segments-Linked lower ix (s ∷ ss) l =
    index_segments-Linked lower (index_chunks lower ix s.chunks) ss
      (index_chunks-Linked lower ix s.chunks l)

pub known_chunks-is_found :
    (by_id : Dict Text ChunkData) (ids : List Text)
    → is_found (known_chunks by_id ids) ≡ linked by_id ids
unfolding known_chunks
known_chunks-is_found by_id [] = refl
known_chunks-is_found by_id (id ∷ ids) = elim (Option-cases (Dict.get id by_id)) [
  | inl gone ↦ rw gone (known_chunks-is_found by_id ids)
  | inr (d, there) ↦ simp there
]

is_found-append : (xs ys : Found) → is_found (xs ++ ys) ≡ (is_found xs || is_found ys)
is_found-append [] ys = refl
is_found-append (x ∷ xs) ys = refl

enough-is_found : (xs : Found) → leb 10 (length xs) ≡ true → is_found xs ≡ true
enough-is_found [] h = ground arith
enough-is_found (x ∷ xs) h = refl

-- Where all entries lead to chunks, the sources that contain a text decide.
pub partial_matches-is_found :
    (by_id : Dict Text ChunkData) (part : Text) (m : Dict Text (List Text)) (rs : Found)
    → all_linked by_id m ≡ true
    → is_found (partial_matches by_id part m rs) ≡ (is_found rs || any (λ p. contains p.0 part) m)
unfolding partial_matches
partial_matches-is_found by_id part [] rs h = ground arith
partial_matches-is_found by_id part ((s, ids) ∷ m) rs h =
    let more = rs ++ known_chunks by_id ids in
    ground (
      arith,
      partial_matches-is_found by_id part m rs,
      partial_matches-is_found by_id part m more,
      is_found-append rs (known_chunks by_id ids),
      known_chunks-is_found by_id ids,
      enough-is_found more,
    )
