-- ===== src/Store/Diff.antt =====
-- packages/store/src/diff.ts: `computeRevisionDiff`, and the patch that a diff stands for.
use wtfoc.Prelude.{
  ℕ, String, Bool, true, false, Option, none, some, List, [], ◌∷◌, ◌++◌, ◌==◌, length, any,
  if◌then◌else◌, text_has_eq,
}
use wtfoc.Prelude.Dict
use wtfoc.Prelude.Dict.{Dict}
use wtfoc.Store.{ArtifactSummaryEntry, CollectionRevision}

pub record RevisionCounts : Type 0 where
  pub added : ℕ
  pub removed : ℕ
  pub unchanged : ℕ

pub record RevisionDiff : Type 0 where
  pub added : List ArtifactSummaryEntry
  pub removed : List ArtifactSummaryEntry
  pub unchanged : List ArtifactSummaryEntry
  pub counts : RevisionCounts

abbrev pub ArtifactMap : Type 0
ArtifactMap = Dict String ArtifactSummaryEntry

-- `new Map(summaries.map((s) => [s.artifactId, s]))`
unfoldable pub map_by_id : ArtifactMap → List ArtifactSummaryEntry → ArtifactMap
map_by_id m [] = m
map_by_id m (s ∷ summaries) = map_by_id (Dict.set s.artifact_id s m) summaries

-- The three lists, while the loops fill them.
pub record Sorted : Type 0 where
  pub added : List ArtifactSummaryEntry
  pub removed : List ArtifactSummaryEntry
  pub unchanged : List ArtifactSummaryEntry

abbrev pub sort_found : ArtifactSummaryEntry → Option ArtifactSummaryEntry → Sorted → Sorted
sort_found entry none s = record s { added = s.added ++ entry ∷ [] }
sort_found entry (some left_entry) s =
    if left_entry.content_identity == entry.content_identity
    then record s { unchanged = s.unchanged ++ entry ∷ [] }
    else record s { removed = s.removed ++ left_entry ∷ []; added = s.added ++ entry ∷ [] }

-- The loop over the right map.
unfoldable pub sort_right : ArtifactMap → ArtifactMap → Sorted → Sorted
sort_right left [] s = s
sort_right left ((id, entry) ∷ right) s =
    sort_right left right (sort_found entry (Dict.get id left) s)

-- The loop over the left map.
unfoldable pub sort_left : ArtifactMap → ArtifactMap → Sorted → Sorted
sort_left right [] s = s
sort_left right ((id, entry) ∷ left) s =
    sort_left right left
      (if Dict.has id right then s else record s { removed = s.removed ++ entry ∷ [] })

unfoldable pub compute_revision_diff : CollectionRevision → CollectionRevision → RevisionDiff
unfolding map_by_id sort_right sort_left
compute_revision_diff left right =
    let left_map = map_by_id [] left.artifact_summaries in
    let right_map = map_by_id [] right.artifact_summaries in
    let s =
      sort_left right_map left_map
        (sort_right left_map right_map (record { added = []; removed = []; unchanged = [] })) in
    record {
      added = s.added;
      removed = s.removed;
      unchanged = s.unchanged;
      counts = record {
        added = length s.added;
        removed = length s.removed;
        unchanged = length s.unchanged;
      };
    }

-- The entry of an id in a list.
unfoldable pub find_by_id : String → List ArtifactSummaryEntry → Option ArtifactSummaryEntry
find_by_id id [] = none
find_by_id id (s ∷ ss) = if s.artifact_id == id then some s else find_by_id id ss

-- The content of an artifact after a diff is applied to a revision: what is added wins, then what is removed
-- is gone, and the rest stays.
abbrev pub content : Option ArtifactSummaryEntry → Option String
content none = none
content (some s) = some (s.content_identity)

abbrev pub or_kept :
    Option ArtifactSummaryEntry → Bool → Option ArtifactSummaryEntry → Option String
or_kept (some s) gone kept = some (s.content_identity)
or_kept none true kept = none
or_kept none false kept = content kept

abbrev pub is_entry_of : String → ArtifactSummaryEntry → Bool
is_entry_of id s = s.artifact_id == id

unfoldable pub patched : RevisionDiff → ArtifactMap → String → Option String
patched d left id =
    or_kept (find_by_id id d.added) (any (is_entry_of id) d.removed) (Dict.get id left)
