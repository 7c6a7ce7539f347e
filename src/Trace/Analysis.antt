-- ===== src/Trace/Analysis.antt =====
-- packages/search/src/edge-resolution.ts: `analyzeEdgeResolution`, which counts the edges by how their
-- targets resolve.
pub mod Partition
use wtfoc.Prelude.{
  ℕ, suc, String, Bool, true, false, ◌&&◌, Option, none, some, List, [], ◌∷◌, ◌++◌, ◌==◌, ◌+◌, ◌-◌,
  leb, nat_beq, all, or_else, if◌then◌else◌, text_has_eq,
}
use wtfoc.Prelude.Dict
use wtfoc.Prelude.Dict.{Dict}
use wtfoc.Prelude.Text.{Text, units_have_eq}
use wtfoc.Trace.{Edge, Segment}
use wtfoc.Trace.SourceIndex.{SourceIndex, resolves}

-- The variables of the loop over the edges.
pub record Tally : Type 0 where
  pub total_edges : ℕ
  pub resolved_edges : ℕ
  pub bare_refs : ℕ
  pub concept_edges : ℕ
  pub package_edges : ℕ
  pub url_edges : ℕ
  pub repo_counts : Dict Text ℕ

abbrev pub no_edges : Tally
no_edges = record {
  total_edges = 0;
  resolved_edges = 0;
  bare_refs = 0;
  concept_edges = 0;
  package_edges = 0;
  url_edges = 0;
  repo_counts = [];
}

pub record EdgeResolutionStats : Type 0 where
  pub total_edges : ℕ
  pub resolved_edges : ℕ
  pub bare_refs : ℕ
  pub unresolved_edges : ℕ
  pub concept_edges : ℕ
  pub package_edges : ℕ
  pub url_edges : ℕ
  pub unresolved_by_repo : Dict Text ℕ

abbrev is_digit : ℕ → Bool
is_digit c = leb b'0' c && leb c b'9'

-- `/^#\d+$/`
abbrev pub is_bare_ref : Text → Bool
is_bare_ref [] = false
is_bare_ref (c ∷ []) = false
is_bare_ref (c ∷ d ∷ s) = nat_beq c b'#' && all is_digit (d ∷ s)

abbrev prepend : ℕ → Option Text → Option Text
prepend c none = none
prepend c (some s) = some (c ∷ s)

-- What stands before the first `#`, if there is one.
abbrev pub before_hash : Text → Option Text
before_hash [] = none
before_hash (c ∷ s) = if nat_beq c b'#' then some [] else prepend c (before_hash s)

-- `repoCounts.set(repo, (repoCounts.get(repo) ?? 0) + 1)`, where `/^([^#]+)#/` gives a repository
abbrev pub count_repo : Option Text → Dict Text ℕ → Dict Text ℕ
count_repo none m = m
count_repo (some []) m = m
count_repo (some (c ∷ s)) m = Dict.set (c ∷ s) (or_else (Dict.get (c ∷ s) m) 0 + 1) m

-- The body of the loop, with its `continue`s.
unfoldable pub tally_edge : (Text → Text) → SourceIndex → Tally → Edge → Tally
tally_edge lower index before e =
    let t = record before { total_edges = before.total_edges + 1 } in
    if is_bare_ref e.target_id
    then record t { bare_refs = t.bare_refs + 1 }
    else (if e.target_type == "concept"
        then record t { concept_edges = t.concept_edges + 1 }
        else (if e.target_type == "package"
            then record t { package_edges = t.package_edges + 1 }
            else (if e.target_type == "url"
                then record t { url_edges = t.url_edges + 1 }
                else (if resolves lower e.target_id index
                    then record t { resolved_edges = t.resolved_edges + 1 }
                    else record t {
                      repo_counts = count_repo (before_hash e.target_id) t.repo_counts;
                    }))))

unfoldable pub tally_edges : (Text → Text) → SourceIndex → Tally → List Edge → Tally
unfolding tally_edge
tally_edges lower index t [] = t
tally_edges lower index t (e ∷ es) = tally_edges lower index (tally_edge lower index t e) es

abbrev pub all_edges : List Segment → List Edge → List Edge
all_edges [] overlay_edges = overlay_edges
all_edges (s ∷ ss) overlay_edges = s.edges ++ all_edges ss overlay_edges

abbrev pub stats_of : Tally → EdgeResolutionStats
stats_of t = record {
  total_edges = t.total_edges;
  resolved_edges = t.resolved_edges;
  bare_refs = t.bare_refs;
  unresolved_edges =
      t.total_edges - t.resolved_edges - t.bare_refs - t.concept_edges - t.package_edges
      - t.url_edges;
  concept_edges = t.concept_edges;
  package_edges = t.package_edges;
  url_edges = t.url_edges;
  unresolved_by_repo = t.repo_counts;
}

unfoldable pub analyze_edge_resolution :
    (Text → Text) → List Segment → SourceIndex → List Edge → EdgeResolutionStats
unfolding tally_edges
analyze_edge_resolution lower segments index overlay_edges =
    stats_of (tally_edges lower index no_edges (all_edges segments overlay_edges))
