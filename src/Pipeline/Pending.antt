-- ===== src/Pipeline/Pending.antt =====
-- packages/ingest/src/pipeline/process-stream.ts: which chunks wait for the catalog after a stream.
use wtfoc.Prelude.{
  ℕ, String, Bool, true, false, ◌&&◌, inl, inr, List, [], ◌∷◌, ◌++◌, ◌≡◌, refl, sym, ap, ◌∙◌,
  length, leb, ltb, or_else, if◌then◌else◌, Bool-cases, text_has_eq,
}
use wtfoc.Prelude.Dict
use wtfoc.Prelude.Dict.{Dict}
use wtfoc.Prelude.Text.{units, text_ltb}
use wtfoc.Schema.{Chunk, truthy}
use wtfoc.Pipeline.{PipelineState}
use wtfoc.Pipeline.Archive.{Outside}
use wtfoc.Pipeline.Filters.{should_include_chunk, source_time}
use wtfoc.Pipeline.Stream.{
  StreamOptions, track_time, archives, archive_chunk, pend_chunk, is_known, flush_list, batch_chunk,
  process_chunk, process_chunks, count_rechunked, filter_chunk, prepare_raw, stripped, chunks_of,
  process_raw, process_all, process_stream,
}
use wtfoc.Pipeline.Written.{admitted}

-- A chunk with an identity goes to the end of the list of its document.
abbrev pub pend_in : Chunk → Dict String (List Chunk) → Dict String (List Chunk)
pend_in c m =
    if truthy c.document_id && truthy c.document_version_id
    then Dict.set (or_else c.document_id "")
        (or_else (Dict.get (or_else c.document_id "") m) [] ++ c ∷ []) m
    else m

unfoldable pub pend_all : List Chunk → Dict String (List Chunk) → Dict String (List Chunk)
pend_all [] m = m
pend_all (c ∷ cs) m = pend_all cs (pend_in c m)

pend_all-append :
    (xs ys : List Chunk) (m : Dict String (List Chunk))
    → pend_all (xs ++ ys) m ≡ pend_all ys (pend_all xs m)
unfolding pend_all
pend_all-append [] ys m = refl
pend_all-append (x ∷ xs) ys m = pend_all-append xs ys (pend_in x m)

pub record Pends (s t : PipelineState) (cs : List Chunk) : Type 0 where
  pub pending : t.catalog_pending_chunks ≡ pend_all cs s.catalog_pending_chunks
  pub same_catalog : t.catalog ≡ s.catalog

Pends-refl : (s : PipelineState) → Pends s s []
unfolding pend_all
Pends-refl s = record { pending = refl; same_catalog = refl }

Pends-trans :
    {s t u : PipelineState} {xs ys : List Chunk}
    → Pends s t xs
    → Pends t u ys
    → Pends s u (xs ++ ys)
Pends-trans {s = s} {xs = xs} {ys = ys} a b = record {
  pending =
      b.pending ∙ ap (pend_all ys) a.pending ∙ sym (pend_all-append xs ys s.catalog_pending_chunks);
  same_catalog = b.same_catalog ∙ a.same_catalog;
}

Pends-if :
    (b : Bool) {s t u : PipelineState} {cs : List Chunk}
    → Pends s t cs
    → Pends s u cs
    → Pends s (if b then t else u) cs
Pends-if true p q = p
Pends-if false p q = q

-- A step that only changes the other parts.
record SameCatalog (s t : PipelineState) : Type 0 where
  same_pending : t.catalog_pending_chunks ≡ s.catalog_pending_chunks
  same_catalog : t.catalog ≡ s.catalog

then_same :
    {s t u : PipelineState} {cs : List Chunk} → Pends s t cs → SameCatalog t u → Pends s u cs
then_same p e = record {
  pending = e.same_pending ∙ p.pending;
  same_catalog = e.same_catalog ∙ p.same_catalog;
}

flush_list-same : (b : List Chunk) (s : PipelineState) → SameCatalog s (flush_list b s)
flush_list-same [] s = record { same_pending = refl; same_catalog = refl }
flush_list-same (c ∷ cs) s = record { same_pending = refl; same_catalog = refl }

pend_chunk-Pends : (c : Chunk) (s : PipelineState) → Pends s (pend_chunk c s) (c ∷ [])
unfolding pend_all
pend_chunk-Pends c s = elim (Bool-cases (truthy c.document_id && truthy c.document_version_id)) [
  | inl has_ids ↦ rw has_ids (record { pending = rw has_ids refl; same_catalog = refl })
  | inr lacks_ids ↦ rw lacks_ids (record { pending = rw lacks_ids refl; same_catalog = refl })
]

batch_chunk-Pends :
    (max_batch : ℕ) (c : Chunk) {s t : PipelineState} {cs : List Chunk}
    → Pends s t cs
    → Pends s (batch_chunk max_batch c t) cs
batch_chunk-Pends max_batch c {t = t} p =
    let u = record t { batch = t.batch ++ c ∷ [] } in
    let grown = then_same p (record { same_pending = refl; same_catalog = refl }) in
    Pends-if (leb max_batch (length u.batch)) (then_same grown (flush_list-same u.batch u)) grown

process_chunk-Pends :
    (max_batch : ℕ) (s : PipelineState) (c : Chunk) → Pends s (process_chunk max_batch s c) (c ∷ [])
unfolding process_chunk
process_chunk-Pends max_batch s c =
    let p = pend_chunk-Pends c s in
    Pends-if (is_known (pend_chunk c s) c)
      (then_same p (record { same_pending = refl; same_catalog = refl }))
      (batch_chunk-Pends max_batch c p)

process_chunks-Pends :
    (max_batch : ℕ) (s : PipelineState) (cs : List Chunk)
    → Pends s (process_chunks max_batch s cs) cs
unfolding process_chunks
process_chunks-Pends max_batch s [] = Pends-refl s
process_chunks-Pends max_batch s (c ∷ cs) =
    Pends-trans (process_chunk-Pends max_batch s c)
      (process_chunks-Pends max_batch (process_chunk max_batch s c) cs)

SameCatalog-if :
    (b : Bool) {s t u : PipelineState}
    → SameCatalog s t
    → SameCatalog s u
    → SameCatalog s (if b then t else u)
SameCatalog-if true p q = p
SameCatalog-if false p q = q

prepare_raw-same :
    (w : Outside) (o : StreamOptions) (s : PipelineState) (c : Chunk)
    → SameCatalog s (prepare_raw w o s c)
unfolding prepare_raw archive_chunk
prepare_raw-same w o s c =
    let time = or_else (source_time c) "" in
    let t = track_time time s in
    let tracked : SameCatalog s t =
      SameCatalog-if (text_ltb (units s.max_timestamp) (units time))
        (record { same_pending = refl; same_catalog = refl })
        (record { same_pending = refl; same_catalog = refl }) in
    SameCatalog-if (archives c t)
      (record { same_pending = tracked.same_pending; same_catalog = tracked.same_catalog }) tracked

after_same :
    {s t u : PipelineState} {cs : List Chunk} → SameCatalog s t → Pends t u cs → Pends s u cs
after_same {cs = cs} e p = record {
  pending = p.pending ∙ ap (pend_all cs) e.same_pending;
  same_catalog = p.same_catalog ∙ e.same_catalog;
}

included-Pends :
    (included : Bool) (max_batch : ℕ) (t : PipelineState) (cs : List Chunk)
    → Pends t
        (if included
          then process_chunks max_batch (count_rechunked (length cs) t) cs
          else filter_chunk t)
        (if included then cs else [])
unfolding pend_all
included-Pends true max_batch t cs =
    let counted : SameCatalog t (count_rechunked (length cs) t) =
      SameCatalog-if (ltb 1 (length cs)) (record { same_pending = refl; same_catalog = refl })
        (record { same_pending = refl; same_catalog = refl }) in
    after_same counted (process_chunks-Pends max_batch (count_rechunked (length cs) t) cs)
included-Pends false max_batch t cs = record { pending = refl; same_catalog = refl }

process_raw-Pends :
    (w : Outside) (o : StreamOptions) (s : PipelineState) (c : Chunk)
    → Pends s
        (process_raw w o s c)
        (if should_include_chunk w.parse_date (stripped c) o.filters then chunks_of w o c else [])
unfolding process_raw
process_raw-Pends w o s c = after_same (prepare_raw-same w o s c) (
    included-Pends (should_include_chunk w.parse_date (stripped c) o.filters) o.max_batch
      (prepare_raw w o s c) (chunks_of w o c))

process_all-Pends :
    (w : Outside) (o : StreamOptions) (s : PipelineState) (stream : List Chunk)
    → Pends s (process_all w o s stream) (admitted w o stream)
unfolding process_all admitted
process_all-Pends w o s [] = Pends-refl s
process_all-Pends w o s (c ∷ cs) =
    Pends-trans (process_raw-Pends w o s c) (process_all-Pends w o (process_raw w o s c) cs)

pub process_stream-Pends :
    (w : Outside) (o : StreamOptions) (s : PipelineState) (stream : List Chunk)
    → Pends s (process_stream w o stream s) (admitted w o stream)
unfolding process_stream
process_stream-Pends w o s stream =
    let t = process_all w o s stream in
    then_same (process_all-Pends w o s stream) (flush_list-same t.batch t)
