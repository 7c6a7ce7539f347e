-- ===== src/Pipeline/Known.antt =====
-- packages/ingest/src/pipeline/process-stream.ts: a stream of chunks of one document whose fingerprints are
-- known.
use wtfoc.Prelude.{
  ℕ, String, Bool, true, not, ◌&&◌, Option, none, some, inl, inr, List, [], ◌∷◌, ◌++◌, ◌==◌, ◌≡◌,
  refl, sym, ap, ◌∙◌, map, all, includes, length, leb, ltb, or_else, Bool-cases, text_has_eq, arith,
  append-nil, append_assoc,
}
use wtfoc.Prelude.Dict
use wtfoc.Prelude.Dict.{Dict}
use wtfoc.Schema.{Chunk, truthy}
use wtfoc.Chunker.Rechunk.{rechunk_oversized}
use wtfoc.Pipeline.{DocumentFilters}
use wtfoc.Pipeline.Archive.{Outside}
use wtfoc.Pipeline.Filters.{should_include_chunk}
use wtfoc.Pipeline.Stream.{StreamOptions, stripped, chunks_of}
use wtfoc.Pipeline.Written.{admitted}
use wtfoc.Pipeline.Stepped.{knows, fresh}
use wtfoc.Pipeline.Pending.{pend_in, pend_all}

-- A chunk of a version of a document whose fingerprint is in a list, and which is not cut.
abbrev pub carries : List String → ℕ → String → String → Chunk → Bool
carries fps limit id version c =
    or_else c.document_id "" == id
    && or_else c.document_version_id "" == version
    && includes fps (or_else c.content_fingerprint c.id)
    && leb (length c.content) limit

abbrev pub no_filters : DocumentFilters
no_filters = record { document_ids = none; source_paths = none; changed_since_ms = none }

carries-chunks_of :
    (w : Outside) (o : StreamOptions) (fps : List String) (id version : String) (c : Chunk)
    → carries fps o.max_chunk_chars id version c ≡ true
    → chunks_of w o c ≡ stripped c ∷ []
unfolding chunks_of rechunk_oversized
carries-chunks_of w o fps id version c h = elim (Bool-cases (ltb o.max_chunk_chars 1)) [
  | inl tiny ↦ rw tiny refl
  | inr some_room ↦ rw some_room (rw (all_small h) refl)
]
  where
    all_small :
        carries fps o.max_chunk_chars id version c ≡ true
        → leb (length c.content) o.max_chunk_chars ≡ true
    all_small h = ground arith

pub carries-admitted :
    (w : Outside) (o : StreamOptions) (fps : List String) (id version : String) (cs : List Chunk)
    → o.filters ≡ no_filters
    → all (carries fps o.max_chunk_chars id version) cs ≡ true
    → admitted w o cs ≡ map stripped cs
unfolding admitted should_include_chunk chunks_of
carries-admitted w o fps id version [] f h = refl
carries-admitted w o fps id version (c ∷ cs) f h =
    let here : carries fps o.max_chunk_chars id version c ≡ true = ground arith in
    let rest : all (carries fps o.max_chunk_chars id version) cs ≡ true = ground arith in
    rw f (
      rw (carries-chunks_of w o fps id version c here)
        (ap (λ ds. stripped c ∷ ds) (carries-admitted w o fps id version cs f rest)))

pub carries-fresh :
    (fps f i : List String) (limit : ℕ) (id version : String) (cs : List Chunk)
    → ((fp : String) → includes fps fp ≡ true → includes f fp ≡ true)
    → all (carries fps limit id version) cs ≡ true
    → fresh f i (map stripped cs) ≡ []
unfolding fresh knows
carries-fresh fps f i limit id version [] k h = refl
carries-fresh fps f i limit id version (c ∷ cs) k h =
    let rest : all (carries fps limit id version) cs ≡ true = ground arith in
    let here : includes fps (or_else c.content_fingerprint c.id) ≡ true = ground arith in
    rw (k (or_else c.content_fingerprint c.id) here)
      (carries-fresh fps f i limit id version cs k rest)

pub truthy-or_else : (s : Option String) → truthy s ≡ not (or_else s "" == "")
truthy-or_else none = refl
truthy-or_else (some s) = refl

-- A chunk of the document that waits already goes behind the others.
carries-pend_in :
    (fps : List String) (limit : ℕ) (id version : String) (m : Dict String (List Chunk)) (c : Chunk)
    → not (id == "") && not (version == "") ≡ true
    → carries fps limit id version c ≡ true
    → pend_in (stripped c) m ≡ Dict.set id (or_else (Dict.get id m) [] ++ stripped c ∷ []) m
carries-pend_in fps limit id version m c t h =
    let same_id : or_else c.document_id "" ≡ id = (text_has_eq.same_iff _ id).0 (ground arith) in
    let same_version : or_else c.document_version_id "" ≡ version =
      (text_has_eq.same_iff _ version).0 (ground arith) in
    let has_ids : truthy c.document_id && truthy c.document_version_id ≡ true =
      rw (truthy-or_else c.document_id)
        (rw (truthy-or_else c.document_version_id) (rw same_id (rw same_version t))) in
    rw has_ids (rw same_id refl)

-- The chunks of one document wait in their order.
carries-pend_all :
    (fps : List String) (limit : ℕ) (id version : String) (before cs : List Chunk)
    → not (id == "") && not (version == "") ≡ true
    → all (carries fps limit id version) cs ≡ true
    → pend_all (map stripped cs) ((id, before) ∷ []) ≡ (id, before ++ map stripped cs) ∷ []
unfolding pend_all Dict.set Dict.get
carries-pend_all fps limit id version before [] t h =
    ap (λ xs. (id, xs) ∷ []) (sym (append-nil before))
carries-pend_all fps limit id version before (c ∷ cs) t h =
    let here : carries fps limit id version c ≡ true = ground arith in
    let rest : all (carries fps limit id version) cs ≡ true = ground arith in
    let there : (id == id) ≡ true = (text_has_eq.same_iff id id).1 refl in
    let step : Dict.set id (or_else (Dict.get id ((id, before) ∷ [])) [] ++ stripped c ∷ [])
          ((id, before) ∷ [])
        ≡ (id, before ++ stripped c ∷ []) ∷ [] =
      rw there refl in
    ap (pend_all (map stripped cs))
      (carries-pend_in fps limit id version ((id, before) ∷ []) c t here ∙ step)
    ∙ carries-pend_all fps limit id version (before ++ stripped c ∷ []) cs t rest
    ∙ ap (λ xs. (id, xs) ∷ []) (append_assoc before (stripped c ∷ []) (map stripped cs))

pub carries-pending :
    (fps : List String) (limit : ℕ) (id version : String) (c : Chunk) (cs : List Chunk)
    → not (id == "") && not (version == "") ≡ true
    → all (carries fps limit id version) (c ∷ cs) ≡ true
    → pend_all (map stripped (c ∷ cs)) [] ≡ (id, map stripped (c ∷ cs)) ∷ []
unfolding pend_all Dict.set Dict.get
carries-pending fps limit id version c cs t h =
    let here : carries fps limit id version c ≡ true = ground arith in
    let rest : all (carries fps limit id version) cs ≡ true = ground arith in
    ap (pend_all (map stripped cs)) (carries-pend_in fps limit id version [] c t here)
    ∙ carries-pend_all fps limit id version (stripped c ∷ []) cs t rest
