-- ===== src/Store/Examples.antt =====
-- Two revisions of three artifacts, and a store with one head.
use wtfoc.Prelude.{
  String, none, some, [], ◌∷◌, ◌≡◌, refl, map, text_has_eq, arith, ==_iff, ◌≢◌, Option,
}
use wtfoc.Prelude.Dict
use wtfoc.Store.{ArtifactSummaryEntry, CollectionRevision, segment}
use wtfoc.Store.Diff.{map_by_id, compute_revision_diff, content, patched}
use wtfoc.Prelude.Dict.{Dict}
use wtfoc.Store.Heads.{StoredHead, Codec, stored, put_head, validate_collection_name, bad_units}
use wtfoc.Store.Conflicts.{Put, put_head-Put}
use wtfoc.Store.Patched.{patched-compute_revision_diff}

abbrev artifact : String → String → ArtifactSummaryEntry
artifact id identity = record {
  artifact_id = id;
  artifact_role = segment;
  source_scope = "docs";
  content_identity = identity;
  storage_id = id;
  ipfs_cid = none;
  piece_cid = none;
}

abbrev left : CollectionRevision
left = record {
  revision_id = "r1";
  collection_id = "col";
  prev_revision_id = none;
  artifact_summaries = artifact "a" "1" ∷ artifact "b" "1" ∷ artifact "c" "1" ∷ [];
  segment_refs = [];
  bundle_refs = [];
  created_at = "t1";
  published_by = "me";
}

abbrev right : CollectionRevision
right = record left {
  revision_id = "r2";
  prev_revision_id = some "r1";
  artifact_summaries = artifact "b" "2" ∷ artifact "c" "1" ∷ artifact "d" "1" ∷ [];
}

removed_ids : map (λ s. s.artifact_id) (compute_revision_diff left right).removed ≡ "b" ∷ "a" ∷ []
unfolding compute_revision_diff Dict.get Dict.set
removed_ids = refl

patched-compute_revision_diff_example :
    patched (compute_revision_diff left right) (map_by_id [] left.artifact_summaries) "b"
    ≡ content (Dict.get "b" (map_by_id [] right.artifact_summaries))
patched-compute_revision_diff_example = patched-compute_revision_diff left right "b"

abbrev plain : Codec String
plain = record { parse = λ t. some t; serialize = λ m. m; sha = λ t. t }

abbrev one_head : Dict String String
one_head = ("docs", "m1") ∷ []

abbrev second_head : StoredHead String
second_head = record { head_id = "m2"; manifest = "m2" }

written_over : (put_head plain one_head "docs" "m2" (some "m1")).1 ≡ stored second_head
unfolding put_head Dict.get
written_over = refl

not_again : ◌≢◌ {A = Option String} (some "m1") (some "m2")
not_again e = ground (arith, e, ==_iff {K = String} "m1" "m2")

put_head-Put_example :
    Put plain one_head
      (put_head plain one_head "docs" "m2" (some "m1")).0
      "docs"
      "m3"
      (some "m1")
      second_head
put_head-Put_example =
    put_head-Put plain one_head "docs" "m2" "m3" (some "m1") second_head written_over refl not_again

dotted_name : validate_collection_name "docs.cursors" ≡ some bad_units
unfolding validate_collection_name
dotted_name = refl
