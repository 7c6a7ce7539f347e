-- ===== src/Pipeline/Advance.antt =====
-- packages/ingest/src/pipeline/persist-cursor.ts: the cursor of a run against the times of its stream.
use wtfoc.Prelude.{
  ℕ, String, Bool, true, false, not, ◌&&◌, Option, inl, inr, List, [], ◌∷◌, ◌++◌, ◌≡◌, refl, sym,
  ap, ◌∙◌, length, leb, ltb, all, or_else, if◌then◌else◌, Bool-cases, text_has_eq, arith,
}
use wtfoc.Prelude.Text.{units, text_ltb}
use wtfoc.Schema.{Chunk, truthy}
use wtfoc.Pipeline.{PipelineState}
use wtfoc.Pipeline.Archive.{Outside}
use wtfoc.Pipeline.Filters.{should_include_chunk, source_time}
use wtfoc.Pipeline.Stream.{
  StreamOptions, track_time, archives, archive_chunk, pend_chunk, is_known, flush_list, batch_chunk,
  skip_chunk, process_chunk, process_chunks, count_rechunked, filter_chunk, prepare_raw, stripped,
  chunks_of, process_raw, process_all, process_stream,
}
use wtfoc.Pipeline.Run.{
  StoredChunk, IngestOptions, initial_state, build_dedup, reuse_donors, commit_catalog,
  commit_renames, streamed, finish_run, orchestrate,
}
use wtfoc.Pipeline.Cursor.{decide_cursor_value}
use wtfoc.Pipeline.Decided.{text_ltb-asym, reaches, reaches_refl, reaches_trans, decide-Decided}

-- The steps after `track_time` leave the latest time alone.
abbrev SameTime : PipelineState → PipelineState → Type 0
SameTime s t = t.max_timestamp ≡ s.max_timestamp

SameTime-if :
    (b : Bool) (s t u : PipelineState)
    → SameTime s t
    → SameTime s u
    → SameTime s (if b then t else u)
SameTime-if true s t u p q = p
SameTime-if false s t u p q = q

flush_list-SameTime : (b : List Chunk) (s : PipelineState) → SameTime s (flush_list b s)
flush_list-SameTime [] s = refl
flush_list-SameTime (c ∷ cs) s = refl

batch_chunk-SameTime :
    (max_batch : ℕ) (c : Chunk) (s : PipelineState) → SameTime s (batch_chunk max_batch c s)
batch_chunk-SameTime max_batch c s =
    let t = record s { batch = s.batch ++ c ∷ [] } in
    SameTime-if (leb max_batch (length t.batch)) s (flush_list t.batch t) t
      (flush_list-SameTime t.batch t) refl

process_chunk-SameTime :
    (max_batch : ℕ) (s : PipelineState) (c : Chunk) → SameTime s (process_chunk max_batch s c)
unfolding process_chunk
process_chunk-SameTime max_batch s c =
    let t = pend_chunk c s in
    SameTime-if (is_known t c) t (skip_chunk t) (batch_chunk max_batch c t) refl
      (batch_chunk-SameTime max_batch c t)
    ∙ SameTime-if (truthy c.document_id && truthy c.document_version_id) s _ s refl refl

process_chunks-SameTime :
    (max_batch : ℕ) (s : PipelineState) (cs : List Chunk)
    → SameTime s (process_chunks max_batch s cs)
unfolding process_chunks
process_chunks-SameTime max_batch s [] = refl
process_chunks-SameTime max_batch s (c ∷ cs) =
    process_chunks-SameTime max_batch (process_chunk max_batch s c) cs
    ∙ process_chunk-SameTime max_batch s c

abbrev pub time_of : Chunk → String
time_of c = or_else (source_time c) ""

process_raw-time :
    (w : Outside) (o : StreamOptions) (s : PipelineState) (c : Chunk)
    → (process_raw w o s c).max_timestamp ≡ (track_time (time_of c) s).max_timestamp
unfolding process_raw prepare_raw archive_chunk
process_raw-time w o s c =
    let t = track_time (time_of c) s in
    let u = prepare_raw w o s c in
    let cs = chunks_of w o c in
    let counted = count_rechunked (length cs) u in
    SameTime-if (should_include_chunk w.parse_date (stripped c) o.filters) u
      (process_chunks o.max_batch counted cs) (filter_chunk u)
      (process_chunks-SameTime o.max_batch counted cs
        ∙ SameTime-if (ltb 1 (length cs)) u _ u refl refl)
      refl
    ∙ SameTime-if (archives c t) t (archive_chunk w o c t) t refl refl

-- The later of the two.
track_time-reaches :
    (time : String) (s : PipelineState)
    → (reaches (track_time time s).max_timestamp time ≡ true)
      × (reaches (track_time time s).max_timestamp s.max_timestamp ≡ true)
track_time-reaches time s = elim (Bool-cases (text_ltb (units s.max_timestamp) (units time))) [
  | inl later ↦
      rw later
        (reaches_refl time, ground (arith, text_ltb-asym (units s.max_timestamp) (units time)))
  | inr reached ↦ rw reached (ground (arith, reached), reaches_refl s.max_timestamp)
]

process_all-reaches :
    (w : Outside) (o : StreamOptions) (s : PipelineState) (stream : List Chunk)
    → (reaches (process_all w o s stream).max_timestamp s.max_timestamp ≡ true)
      × (all (λ c. reaches (process_all w o s stream).max_timestamp (time_of c)) stream ≡ true)
unfolding process_all
process_all-reaches w o s [] = (reaches_refl s.max_timestamp, refl)
process_all-reaches w o s (c ∷ cs) =
    let t = process_raw w o s c in
    let final = (process_all w o t cs).max_timestamp in
    let (kept, later) = process_all-reaches w o t cs in
    let (seen, before) = track_time-reaches (time_of c) s in
    let tracked = process_raw-time w o s c in
    let here : reaches final (time_of c) ≡ true =
      reaches_trans (time_of c) t.max_timestamp final (rw tracked seen) kept in
    (reaches_trans s.max_timestamp t.max_timestamp final (rw tracked before) kept, rw here later)

commit_renames-SameTime :
    (now : String) (o : IngestOptions) (s : PipelineState) → SameTime s (commit_renames now o s).0
unfolding commit_renames
commit_renames-SameTime now o s =
    elim (Bool-cases (not o.is_partial_run && ltb 0 (length o.renames) && truthy o.repo_arg)) [
      | inl renaming ↦ rw renaming refl
      | inr plain ↦ rw plain refl
    ]

commit_catalog-SameTime :
    (now : String) (types : List String) (s : PipelineState)
    → SameTime s (commit_catalog now types s)
unfolding commit_catalog
commit_catalog-SameTime now types s = refl

finish_run-time :
    (w : Outside) (o : IngestOptions) (s : PipelineState)
    → (finish_run w o s).1.cursor_value
      ≡ (decide_cursor_value (record {
        is_partial_run = o.is_partial_run;
        repo_head_sha = o.repo_head_sha;
        max_timestamp = s.max_timestamp;
        existing_cursor_value = o.existing_cursor_value;
      })).cursor_value
unfolding finish_run
finish_run-time w o s =
    let pending = ltb 0 (length s.catalog_pending_chunks) in
    let committed = commit_catalog w.now o.append_only_types s in
    let updated = if pending then committed else s in
    let same =
      commit_renames-SameTime w.now o updated
      ∙ SameTime-if pending s committed s (commit_catalog-SameTime w.now o.append_only_types s)
          refl in
    ap
      (λ time.
        (decide_cursor_value (record {
          is_partial_run = o.is_partial_run;
          repo_head_sha = o.repo_head_sha;
          max_timestamp = time;
          existing_cursor_value = o.existing_cursor_value;
        })).cursor_value)
      same

all-reaches :
    (s t : String) (cs : List Chunk)
    → reaches t s ≡ true
    → all (λ c. reaches s (time_of c)) cs ≡ true
    → all (λ c. reaches t (time_of c)) cs ≡ true
all-reaches s t [] r h = refl
all-reaches s t (c ∷ cs) r h =
    let here : reaches s (time_of c) ≡ true = ground arith in
    let rest : all (λ c. reaches s (time_of c)) cs ≡ true = ground arith in
    rw (reaches_trans (time_of c) s t here r) (all-reaches s t cs r rest)

-- The cursor of a run, against the times of its chunks and the cursor that was there.
pub record Advances (stream : List Chunk) (existing cursor : Option String) : Type 0 where
  pub past_times : all (λ c. reaches (or_else cursor "") (time_of c)) stream ≡ true
  pub past_cursor : truthy cursor ≡ true → reaches (or_else cursor "") (or_else existing "") ≡ true

-- In a run that is not partial and has no head of a repository, no chunk of the stream, filtered or not, has a
-- time after the cursor that the run answers, where no cursor counts as the empty text, and a cursor that it
-- answers is not before the one that was there.
pub orchestrate-Advances :
    (w : Outside) (download : String → Option (List StoredChunk)) (head : Option (List String))
    (o : IngestOptions) (stream : List Chunk)
    → o.is_partial_run ≡ false
    → truthy o.repo_head_sha ≡ false
    → Advances stream o.existing_cursor_value (orchestrate w download head o stream).1.cursor_value
unfolding orchestrate streamed process_stream
orchestrate-Advances w download head o stream full plain =
    let s = reuse_donors w o.donors (build_dedup download head (initial_state o)) in
    let t = process_all w o.stream_options s stream in
    let u = flush_list t.batch t in
    let d =
      decide-Decided
        (record {
          is_partial_run = o.is_partial_run;
          repo_head_sha = o.repo_head_sha;
          max_timestamp = u.max_timestamp;
          existing_cursor_value = o.existing_cursor_value;
        })
        full plain in
    let (kept, all_seen) = process_all-reaches w o.stream_options s stream in
    let past = λ (v : String). ap (reaches v) (sym (flush_list-SameTime t.batch t)) in
    rw (finish_run-time w o u) (record {
      past_times = all-reaches t.max_timestamp _ stream (past _ ∙ d.past_times) all_seen;
      past_cursor = d.past_cursor;
    })
