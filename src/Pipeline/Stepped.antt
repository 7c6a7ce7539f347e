-- ===== src/Pipeline/Stepped.antt =====
-- packages/ingest/src/pipeline/process-stream.ts: what the inner loop does to the batches.
use wtfoc.Prelude.{
  ℕ, ◌+◌, ◌<◌, String, Bool, true, false, not, ◌||◌, inl, inr, List, [], ◌∷◌, ◌++◌, ◌≡◌, refl, sym,
  ap, ◌∙◌, append-nil, includes, length, length-append, filter, or_else, if◌then◌else◌, Bool-cases,
  text_has_eq,
}
use wtfoc.Schema.{Chunk}
use wtfoc.Pipeline.{PipelineState}
use wtfoc.Pipeline.Stream.{
  pend_chunk, is_known, batch_chunk, skip_chunk, process_chunk, process_chunks,
}
use wtfoc.Pipeline.Batches.{written, Batched, Stepped, Stepped-trans, batch_chunk-Stepped}
use wtfoc.Pipeline.Quiet.{Quiet-refl, Quiet-Stepped, Quiet-Batched, after-Quiet, pend_chunk-Quiet}

-- The known fingerprints and ids decide about a chunk.
unfoldable pub knows : List String → List String → Chunk → Bool
knows fingerprints ids c =
    includes fingerprints (or_else c.content_fingerprint c.id) || includes ids c.id

unfoldable pub fresh : List String → List String → List Chunk → List Chunk
fresh fingerprints ids cs = filter (λ c. not (knows fingerprints ids c)) cs

unfoldable pub stale : List String → List String → List Chunk → ℕ
stale fingerprints ids cs = length (filter (knows fingerprints ids) cs)

pub skip_chunk-Stepped :
    (max_batch : ℕ) (s : PipelineState)
    → Batched max_batch s
    → Stepped max_batch s (skip_chunk s) [] 1
skip_chunk-Stepped max_batch s b = record {
  wrote = record {
    added = sym (append-nil (written s));
    same_fingerprints = refl;
    same_ids = refl;
    counted = refl;
  };
  batched = record {
    all_sized = b.all_sized;
    room = b.room;
    ingested = b.ingested;
    numbered = b.numbered;
  };
}

-- Both branches of the test on a chunk.
pub decided-Stepped :
    (known : Bool) (max_batch : ℕ) (c : Chunk) (s : PipelineState)
    → 0 < max_batch
    → Batched max_batch s
    → Stepped max_batch s
        (if known then skip_chunk s else batch_chunk max_batch c s)
        (if not known then c ∷ [] else [])
        (length (if known then c ∷ [] else []))
decided-Stepped true max_batch c s m b = skip_chunk-Stepped max_batch s b
decided-Stepped false max_batch c s m b = batch_chunk-Stepped max_batch c s m b

pub process_chunk-Stepped :
    (max_batch : ℕ) (s : PipelineState) (c : Chunk)
    → 0 < max_batch
    → Batched max_batch s
    → Stepped max_batch s
        (process_chunk max_batch s c)
        (fresh s.known_fingerprints s.known_chunk_ids (c ∷ []))
        (stale s.known_fingerprints s.known_chunk_ids (c ∷ []))
unfolding process_chunk knows fresh stale
process_chunk-Stepped max_batch s c m b =
    let t = pend_chunk c s in
    let q = pend_chunk-Quiet c s in
    let agree : is_known t c ≡ knows s.known_fingerprints s.known_chunk_ids c =
      cc (q.same_fingerprints, q.same_ids) in
    let d = decided-Stepped (is_known t c) max_batch c t m (Quiet-Batched q b) in
    rw (sym agree) (after-Quiet q d)

pub filter-append :
    (p : Chunk → Bool) (xs ys : List Chunk) → filter p (xs ++ ys) ≡ filter p xs ++ filter p ys
filter-append p [] ys = refl
filter-append p (x ∷ xs) ys =
    let rest = filter-append p xs ys in
    elim (Bool-cases (p x)) [
      | inl kept ↦ rw kept (ap (λ zs. x ∷ zs) rest)
      | inr dropped ↦ rw dropped rest
    ]

pub fresh-append :
    (f i : List String) (xs ys : List Chunk) → fresh f i (xs ++ ys) ≡ fresh f i xs ++ fresh f i ys
unfolding fresh
fresh-append f i xs ys = filter-append (λ c. not (knows f i c)) xs ys

pub stale-append :
    (f i : List String) (xs ys : List Chunk) → stale f i (xs ++ ys) ≡ stale f i xs + stale f i ys
unfolding stale
stale-append f i xs ys =
    ap length (filter-append (knows f i) xs ys) ∙ length-append (filter (knows f i) xs) _

-- What follows a step goes on with what was known before it.
pub then-Stepped :
    {max_batch : ℕ} {s t u : PipelineState} (xs ys : List Chunk)
    → (let f = s.known_fingerprints in
        let i = s.known_chunk_ids in Stepped max_batch s t (fresh f i xs) (stale f i xs))
    → Stepped max_batch t u
        (fresh t.known_fingerprints t.known_chunk_ids ys)
        (stale t.known_fingerprints t.known_chunk_ids ys)
    → Stepped max_batch s u
        (fresh s.known_fingerprints s.known_chunk_ids (xs ++ ys))
        (stale s.known_fingerprints s.known_chunk_ids (xs ++ ys))
then-Stepped {s = s} xs ys a b =
    let f = s.known_fingerprints in
    let i = s.known_chunk_ids in
    rw (fresh-append f i xs ys) (
      rw (stale-append f i xs ys)
        (Stepped-trans a (rw (sym a.wrote.same_fingerprints) (rw (sym a.wrote.same_ids) b))))

pub process_chunks-Stepped :
    (max_batch : ℕ) (s : PipelineState) (cs : List Chunk)
    → 0 < max_batch
    → Batched max_batch s
    → Stepped max_batch s
        (process_chunks max_batch s cs)
        (fresh s.known_fingerprints s.known_chunk_ids cs)
        (stale s.known_fingerprints s.known_chunk_ids cs)
unfolding process_chunks fresh stale
process_chunks-Stepped max_batch s [] m b = Quiet-Stepped (Quiet-refl s) b
process_chunks-Stepped max_batch s (c ∷ cs) m b =
    let a = process_chunk-Stepped max_batch s c m b in
    then-Stepped (c ∷ []) cs a
      (process_chunks-Stepped max_batch (process_chunk max_batch s c) cs m a.batched)
