-- ===== src/Catalog/Kept.antt =====
-- packages/ingest/src/document-catalog.ts: no operation forgets a chunk id or a fingerprint.
use mathlib.Core.Path.{subst}
use wtfoc.Prelude.{
  ◌==◌, String, true, Option, none, some, [], ◌++◌, ◌≡◌, refl, any, or_else, text_has_eq, arith,
  includes-add_all, includes-append, inl, inr, Bool-cases,
}
use wtfoc.Prelude.Dict
use wtfoc.Prelude.Dict.{Dict}
use wtfoc.Prelude.Dict.Values.{any-values-set_grows}
use wtfoc.Schema.{archived, Mutability, CatalogEntry, DocumentCatalog, mutable_state, append_only}
use wtfoc.Catalog.{
  UpdateDocumentOptions, update_document, archive_document, update_found, archive_found,
  rename_document, rename_found, get_document, supersede_entry, append_entry, update_existing,
  without, store,
}
use wtfoc.Catalog.Known.{knows_chunk, knows_fingerprint}

-- An entry keeps all that another knows.
pub record Keeps (old new : CatalogEntry) : Type 0 where
  pub chunks : (id : String) → knows_chunk id old ≡ true → knows_chunk id new ≡ true
  pub fingerprints :
      (fp : String) → knows_fingerprint fp old ≡ true → knows_fingerprint fp new ≡ true

append_entry-Keeps :
    (now : String) (e : CatalogEntry) (o : UpdateDocumentOptions) → Keeps e (append_entry now e o)
unfolding append_entry
append_entry-Keeps now e o =
    let fps = or_else e.content_fingerprints [] in
    record {
      chunks =
          λ id h. ground (arith, includes-append e.chunk_ids (without e.chunk_ids o.chunk_ids) id);
      fingerprints =
          λ fp h. ground (arith, includes-append fps (without fps o.content_fingerprints) fp);
    }

supersede_entry-Keeps :
    (now : String) (e : CatalogEntry) (o : UpdateDocumentOptions)
    → Keeps e (supersede_entry now e o)
unfolding supersede_entry
supersede_entry-Keeps now e o =
    let fps = or_else e.content_fingerprints [] in
    record {
      chunks = λ id h.
          ground (arith, includes-append (or_else e.superseded_chunk_ids []) e.chunk_ids id);
      fingerprints = λ fp h. ground (
        arith,
        includes-append fps o.content_fingerprints fp,
        includes-add_all [] (fps ++ o.content_fingerprints) fp,
      );
    }

refl-Keeps : (e : CatalogEntry) → Keeps e e
refl-Keeps e = record { chunks = λ id h. h; fingerprints = λ fp h. h }

archived-Keeps :
    (now : String) (e : CatalogEntry) → Keeps e (record e { state = archived; updated_at = now })
archived-Keeps now e = record { chunks = λ id h. h; fingerprints = λ fp h. h }

-- All that some document of a catalog knows, some document of the other knows.
pub record Grows (c c' : DocumentCatalog) : Type 0 where
  pub chunks :
      (id : String)
      → any (knows_chunk id) (Dict.values c.documents) ≡ true
      → any (knows_chunk id) (Dict.values c'.documents) ≡ true
  pub fingerprints :
      (fp : String)
      → any (knows_fingerprint fp) (Dict.values c.documents) ≡ true
      → any (knows_fingerprint fp) (Dict.values c'.documents) ≡ true

pub Grows-refl : (c : DocumentCatalog) → Grows c c
Grows-refl c = record { chunks = λ id h. h; fingerprints = λ fp h. h }

pub Grows-trans : {c c' c'' : DocumentCatalog} → Grows c c' → Grows c' c'' → Grows c c''
Grows-trans g g' = record {
  chunks = λ id h. g'.chunks id (g.chunks id h);
  fingerprints = λ fp h. g'.fingerprints fp (g.fingerprints fp h);
}

store-Grows :
    (c : DocumentCatalog) (id : String) (e : CatalogEntry)
    → ((old : CatalogEntry) → get_document c id ≡ some old → Keeps old e)
    → Grows c (store c id e)
unfolding get_document
store-Grows c id e keeps = record {
  chunks = λ a. any-values-set_grows id e (knows_chunk a) c.documents (λ w h. (keeps w h).chunks a);
  fingerprints = λ a.
      any-values-set_grows id e (knows_fingerprint a) c.documents
        (λ w h. (keeps w h).fingerprints a);
}

-- A write to the entry that stands at an id.
rewrite-Grows :
    (c : DocumentCatalog) (id : String) (old e : CatalogEntry)
    → get_document c id ≡ some old
    → Keeps old e
    → Grows c (store c id e)
rewrite-Grows c id old e h k =
    store-Grows c id e (λ w p. let q : old ≡ w = cc in subst (λ x. Keeps x e) q k)

update_existing-Grows :
    (now : String) (c : DocumentCatalog) (o : UpdateDocumentOptions) (old : CatalogEntry)
    → get_document c o.document_id ≡ some old
    → (m : Mutability) → Grows c (update_existing now c o old m).0
unfolding update_existing
update_existing-Grows now c o old there append_only =
    rewrite-Grows c o.document_id old _ there (append_entry-Keeps now old o)
update_existing-Grows now c o old there mutable_state =
    elim (Bool-cases (old.current_version_id == o.version_id)) [
      | inl same ↦ rw same (Grows-refl c)
      | inr other ↦
          rw other (rewrite-Grows c o.document_id old _ there (supersede_entry-Keeps now old o))
    ]

update_found-Grows :
    (now : String) (c : DocumentCatalog) (o : UpdateDocumentOptions) (found : Option CatalogEntry)
    → get_document c o.document_id ≡ found
    → Grows c (update_found now c o found).0
unfolding update_found
update_found-Grows now c o none new = store-Grows c o.document_id _ (λ old p. cc)
update_found-Grows now c o (some old) there = update_existing-Grows now c o old there o.mutability

pub update_document-Grows :
    (now : String) (c : DocumentCatalog) (o : UpdateDocumentOptions)
    → Grows c (update_document now c o).0
unfolding update_document
update_document-Grows now c o = update_found-Grows now c o (get_document c o.document_id) refl

archive_found-Grows :
    (now : String) (c : DocumentCatalog) (id : String) (found : Option CatalogEntry)
    → get_document c id ≡ found
    → Grows c (archive_found now c id found).0
unfolding archive_found
archive_found-Grows now c id none h = Grows-refl c
archive_found-Grows now c id (some old) h = rewrite-Grows c id old _ h (archived-Keeps now old)

pub archive_document-Grows :
    (now : String) (c : DocumentCatalog) (id : String) → Grows c (archive_document now c id).0
unfolding archive_document
archive_document-Grows now c id = archive_found-Grows now c id (get_document c id) refl

rename_found-Grows :
    (now : String) (c : DocumentCatalog) (id : String) (found : Option CatalogEntry)
    → get_document c id ≡ found
    → Grows c (rename_found now c id found)
unfolding rename_found
rename_found-Grows now c id none h = Grows-refl c
rename_found-Grows now c id (some old) h = rewrite-Grows c id old _ h (archived-Keeps now old)

pub rename_document-Grows :
    (now : String) (c : DocumentCatalog) (id : String) → Grows c (rename_document now c id)
unfolding rename_document
rename_document-Grows now c id = rename_found-Grows now c id (get_document c id) refl
