-- ===== src/Catalog/Versions.antt =====
-- What an operation does to the document that it names, and that it leaves the others alone.
use wtfoc.Prelude.{
  String, ◌||◌, Option, none, some, [], ◌∷◌, ◌==◌, ◌≡◌, ◌≢◌, refl, if◌then◌else◌, includes, or_else,
  text_has_eq, arith, includes-append, ==_refl, ==_iff, ==-false,
}
use wtfoc.Prelude.Dict.{get-set}
use wtfoc.Schema.{active, CatalogEntry, DocumentCatalog, mutable_state}
use wtfoc.Catalog.{
  UpdateDocumentOptions, update_document, update_found, update_existing, get_document,
  supersede_entry, append_entry, store,
}

pub get_document-store :
    (c : DocumentCatalog) (id j : String) (e : CatalogEntry)
    → get_document (store c id e) j ≡ (if id == j then some e else get_document c j)
unfolding get_document
get_document-store c id j e = get-set j id e c.documents

get_document-store_ne :
    (c : DocumentCatalog) (id j : String) (e : CatalogEntry)
    → id ≢ j
    → get_document (store c id e) j ≡ get_document c j
get_document-store_ne c id j e h = ground (arith, get_document-store c id j e, ==_iff id j)

pub get_document-store_self :
    (c : DocumentCatalog) (id : String) (e : CatalogEntry) → get_document (store c id e) id ≡ some e
get_document-store_self c id e = ground (arith, get_document-store c id id e, ==_refl id)

update_found-get_other :
    (now : String) (c : DocumentCatalog) (o : UpdateDocumentOptions) (found : Option CatalogEntry)
    (j : String)
    → o.document_id ≢ j
    → get_document (update_found now c o found).0 j ≡ get_document c j
unfolding update_found update_existing
update_found-get_other now c o none j h = get_document-store_ne c o.document_id j _ h
update_found-get_other now c o (some old) j h = ground (
  arith,
  get_document-store_ne c o.document_id j (append_entry now old o) h,
  get_document-store_ne c o.document_id j (supersede_entry now old o) h,
)

-- An update leaves every document but the one that it names as it was.
pub update_document-get_other :
    (now : String) (c : DocumentCatalog) (o : UpdateDocumentOptions) (j : String)
    → o.document_id ≢ j
    → get_document (update_document now c o).0 j ≡ get_document c j
unfolding update_document
update_document-get_other now c o j h =
    update_found-get_other now c o (get_document c o.document_id) j h

-- The state of a document after an update whose outcome is `e`.
pub record Replaces (old e : CatalogEntry) (o : UpdateDocumentOptions) : Type 0 where
  pub current : e.current_version_id ≡ o.version_id
  pub chain : e.previous_version_ids ≡ old.current_version_id ∷ old.previous_version_ids
  pub chunks : e.chunk_ids ≡ o.chunk_ids
  pub retired :
      (id : String)
      → includes (or_else e.superseded_chunk_ids []) id
        ≡ (includes (or_else old.superseded_chunk_ids []) id || includes old.chunk_ids id)
  pub is_active : e.state ≡ active

pub supersede_entry-Replaces :
    (now : String) (old : CatalogEntry) (o : UpdateDocumentOptions)
    → Replaces old (supersede_entry now old o) o
unfolding supersede_entry
supersede_entry-Replaces now old o = record {
  current = refl;
  chain = refl;
  chunks = refl;
  retired = λ id. includes-append (or_else old.superseded_chunk_ids []) old.chunk_ids id;
  is_active = refl;
}

pub update_document-supersedes :
    (now : String) (c : DocumentCatalog) (o : UpdateDocumentOptions) (old : CatalogEntry)
    → get_document c o.document_id ≡ some old
    → o.mutability ≡ mutable_state
    → old.current_version_id ≢ o.version_id
    → update_document now c o ≡ (
      store c o.document_id (supersede_entry now old o),
      record {
        superseded_chunk_ids = old.chunk_ids;
        previous_version_id = some old.current_version_id;
      },
    )
unfolding update_document update_found update_existing
update_document-supersedes now c o old there mutable changed =
    simp (there, mutable, ==-false old.current_version_id o.version_id changed)
