-- ===== src/Catalog/Known.antt =====
-- The chunk ids and the fingerprints that the sets of a catalog hold.
use wtfoc.Prelude.{
  String, Bool, true, ◌||◌, some, List, [], ◌∷◌, ◌≡◌, any, includes, add_all, or_else, text_has_eq,
  arith, includes-add_all, ltb, length,
}
use wtfoc.Prelude.Dict
use wtfoc.Prelude.Dict.{Dict}
use wtfoc.Schema.{CatalogEntry, DocumentCatalog}
use wtfoc.Catalog.{get_document}
use wtfoc.Catalog.Update.{DedupSets, collect_dedup, build_dedup_sets_from_catalog, empty_sets}

abbrev pub knows_chunk : String → CatalogEntry → Bool
knows_chunk id entry =
    includes entry.chunk_ids id || includes (or_else entry.superseded_chunk_ids []) id

abbrev pub knows_fingerprint : String → CatalogEntry → Bool
knows_fingerprint fp entry = includes (or_else entry.content_fingerprints []) fp

pub includes-collect_dedup :
    (sets : DedupSets) (entries : List CatalogEntry) (id : String)
    → (includes (collect_dedup sets entries).known_chunk_ids id
        ≡ (includes sets.known_chunk_ids id || any (knows_chunk id) entries))
      × (includes (collect_dedup sets entries).known_fingerprints id
          ≡ (includes sets.known_fingerprints id || any (knows_fingerprint id) entries))
unfolding collect_dedup
includes-collect_dedup sets [] id = ground arith
includes-collect_dedup sets (entry ∷ rest) id =
    let fps = or_else entry.content_fingerprints [] in
    let olds = or_else entry.superseded_chunk_ids [] in
    let mid = add_all sets.known_chunk_ids entry.chunk_ids in
    ground (
      arith,
      includes-collect_dedup
          (record {
            known_fingerprints = add_all sets.known_fingerprints fps;
            known_chunk_ids = add_all mid olds;
          })
          rest id,
      includes-add_all sets.known_fingerprints fps id,
      includes-add_all mid olds id,
      includes-add_all sets.known_chunk_ids entry.chunk_ids id,
    )

any-values-get :
    (p : CatalogEntry → Bool) (id : String) (m : Dict String CatalogEntry) (e : CatalogEntry)
    → Dict.get id m ≡ some e
    → p e ≡ true
    → any p (Dict.values m) ≡ true
unfolding Dict.get
any-values-get p id [] e h k = absurd (cc h)
any-values-get p id ((j, v) ∷ m) e h k = ground (arith, any-values-get p id m e)

pub documents-filled :
    (id : String) (m : Dict String CatalogEntry) (e : CatalogEntry)
    → Dict.get id m ≡ some e
    → ltb 0 (length m) ≡ true
unfolding Dict.get
documents-filled id [] e h = absurd (cc h)
documents-filled id (b ∷ m) e h = ground arith

pub known-of_document :
    (c : DocumentCatalog) (id : String) (e : CatalogEntry) (fp : String)
    → get_document c id ≡ some e
    → includes (or_else e.content_fingerprints []) fp ≡ true
    → includes (build_dedup_sets_from_catalog c).known_fingerprints fp ≡ true
unfolding build_dedup_sets_from_catalog get_document
known-of_document c id e fp h k =
    rw (includes-collect_dedup empty_sets (Dict.values c.documents) fp).1
      (any-values-get (knows_fingerprint fp) id c.documents e h k)
