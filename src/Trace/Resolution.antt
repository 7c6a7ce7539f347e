-- ===== src/Trace/Resolution.antt =====
-- packages/search/src/trace/resolution.ts: the chunks that the target of an edge names. A loop that
-- pushes onto `results` yields the results, and `if (results.length > 0) return results` is `or_next`.
pub mod Known
use wtfoc.Prelude.{
  Bool, true, false, ◌||◌, Option, none, some, List, [], ◌∷◌, ◌++◌, or_else, length, leb,
  if◌then◌else◌,
}
use wtfoc.Prelude.Dict
use wtfoc.Prelude.Dict.{Dict}
use wtfoc.Prelude.Text.{Text, units, contains, after_slash, split_slash, join_slash, units_have_eq}
use wtfoc.Trace.{ChunkData, ChunkIndexes}
use wtfoc.Trace.Source.{normalize_repo_source}

abbrev pub Found : Type 0
Found = List (Text × ChunkData)

abbrev pub or_next : Found → Found → Found
or_next [] rest = rest
or_next (r ∷ rs) rest = r ∷ rs

abbrev pub is_found : Found → Bool
is_found [] = false
is_found (r ∷ rs) = true

abbrev known_chunk : Text → Option ChunkData → Found → Found
known_chunk id none rest = rest
known_chunk id (some d) rest = (id, d) ∷ rest

-- The ids whose chunk is there.
unfoldable pub known_chunks : Dict Text ChunkData → List Text → Found
known_chunks by_id [] = []
known_chunks by_id (id ∷ ids) = known_chunk id (Dict.get id by_id) (known_chunks by_id ids)

-- The chunks of the sources that contain a text, until there are ten.
unfoldable pub partial_matches : Dict Text ChunkData → Text → Dict Text (List Text) → Found → Found
unfolding known_chunks
partial_matches by_id part [] results = results
partial_matches by_id part ((source, ids) ∷ m) results =
    let more = results ++ known_chunks by_id ids in
    let stop = leb 10 (length more) in
    let after = partial_matches by_id part m more in
    let skipped = partial_matches by_id part m results in
    if contains source part then (if stop then more else after) else skipped

-- What follows the first two segments, if more than two are there.
abbrev pub third_segment : Text × List Text → Option Text
third_segment (p, []) = none
third_segment (p, q ∷ []) = none
third_segment (p, q ∷ r ∷ rs) = some (join_slash (r ∷ rs))

unfoldable pub repo_local_path : Text → Option Text
repo_local_path target = third_segment (split_slash target)

abbrev pub stripped_matches : Option Text → ChunkIndexes → Found
stripped_matches none ix = []
stripped_matches (some path) ix = partial_matches ix.by_id path ix.by_source []

abbrev pub is_structured : Text → Bool
is_structured target = contains target (units "/") || contains target (units ":")

abbrev pub structured_matches : Text → Text → ChunkIndexes → Found
structured_matches target lower_target ix =
    if is_structured target
    then or_next (partial_matches ix.by_id lower_target ix.by_source [])
        (stripped_matches (repo_local_path lower_target) ix)
    else []

abbrev pub renamed_matches : Option Text → ChunkIndexes → Found
renamed_matches none ix = []
renamed_matches (some repo_key) ix =
    known_chunks ix.by_id (or_else (Dict.get repo_key ix.by_repo_name) [])

abbrev pub find_direct : Option ChunkData → Text → Text → ChunkIndexes → Found
find_direct (some d) target lower_target ix = (target, d) ∷ []
find_direct none target lower_target ix =
    or_next (known_chunks ix.by_id (or_else (Dict.get lower_target ix.by_source) [])) (
      or_next (structured_matches target lower_target ix)
        (renamed_matches (after_slash lower_target) ix))

unfoldable pub find_chunks_by_target : (Text → Text) → Text → ChunkIndexes → Found
unfolding known_chunks partial_matches normalize_repo_source repo_local_path
find_chunks_by_target lower target ix =
    find_direct (Dict.get target ix.by_id) target (normalize_repo_source lower target) ix
