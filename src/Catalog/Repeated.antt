-- ===== src/Catalog/Repeated.antt =====
-- packages/ingest/src/document-catalog.ts: running an update again.
use wtfoc.Prelude.{
  String, not, Option, none, some, List, [], ◌++◌, ◌==◌, ◌≡◌, refl, includes, or_else, text_has_eq,
  arith, inl, inr, Bool-cases, includes-append, includes-filter, filter-none, append-nil, ==_refl,
  ==_iff, ap,
}
use wtfoc.Prelude.Dict.{set-set}
use wtfoc.Schema.{CatalogEntry, DocumentCatalog, Mutability, mutable_state, append_only}
use wtfoc.Catalog.{
  UpdateDocumentOptions, update_document, update_found, update_existing, archive_document,
  archive_found, get_document, supersede_entry, append_entry, create_entry, without,
  nothing_superseded, store, archived_entry,
}
use wtfoc.Catalog.Versions.{get_document-store_self}

without-append : (xs ys : List String) → without (xs ++ without xs ys) ys ≡ []
without-append xs ys = filter-none _ ys (λ a h.
    ground (
      arith,
      includes-append xs (without xs ys) a,
      includes-filter (λ b. not (includes xs b)) ys a,
    ))

without_self : (xs : List String) → without xs xs ≡ []
without_self xs = filter-none _ xs (λ a h. ground arith)

append_append :
    (xs ys : List String)
    → (xs ++ without xs ys) ++ without (xs ++ without xs ys) ys ≡ xs ++ without xs ys
append_append xs ys = rw (without-append xs ys) (append-nil _)

append_entry_idem :
    (now : String) (e : CatalogEntry) (o : UpdateDocumentOptions)
    → append_entry now (append_entry now e o) o ≡ append_entry now e o
unfolding append_entry
append_entry_idem now e o = ground (
  arith,
  append_append e.chunk_ids o.chunk_ids,
  append_append (or_else e.content_fingerprints []) o.content_fingerprints,
)

append_entry-create_entry :
    (now : String) (o : UpdateDocumentOptions)
    → append_entry now (create_entry now o) o ≡ create_entry now o
unfolding append_entry create_entry
append_entry-create_entry now o = ground (
  arith,
  without_self o.chunk_ids,
  without_self o.content_fingerprints,
  append-nil o.chunk_ids,
  append-nil o.content_fingerprints,
)

store-store :
    (c : DocumentCatalog) (id : String) (e e' : CatalogEntry)
    → store (store c id e) id e' ≡ store c id e'
store-store c id e e' = ap (λ d. record c { documents = d }) (set-set id e e' c.documents)

-- An update of a document whose entry is `e` that would write `e` again.
again_store :
    (now : String) (c : DocumentCatalog) (o : UpdateDocumentOptions) (e : CatalogEntry)
    → ((m : Mutability)
        → (update_existing now (store c o.document_id e) o e m).0 ≡ store c o.document_id e)
    → (update_document now (store c o.document_id e) o).0 ≡ store c o.document_id e
unfolding update_document update_found
again_store now c o e h = rw (get_document-store_self c o.document_id e) (h o.mutability)

same_version :
    (now : String) (c : DocumentCatalog) (o : UpdateDocumentOptions) (e : CatalogEntry)
    → e.current_version_id ≡ o.version_id
    → append_entry now e o ≡ e
    → (m : Mutability)
    → (update_existing now (store c o.document_id e) o e m).0 ≡ store c o.document_id e
unfolding update_existing
same_version now c o e v a append_only = rw a (store-store c o.document_id e e)
same_version now c o e v a mutable_state = rw (v, ==_refl o.version_id)

pub archive_document-store :
    (now : String) (c : DocumentCatalog) (id : String) (old : CatalogEntry)
    → get_document c id ≡ some old
    → (archive_document now c id).0 ≡ store c id (archived_entry now old)
unfolding archive_document archive_found
archive_document-store now c id old there = simp there

-- The same version of a mutable document again: nothing changes.
pub update_document-same :
    (now : String) (c : DocumentCatalog) (o : UpdateDocumentOptions) (old : CatalogEntry)
    → get_document c o.document_id ≡ some old
    → o.mutability ≡ mutable_state
    → old.current_version_id ≡ o.version_id
    → update_document now c o ≡ (c, nothing_superseded)
unfolding update_document update_found update_existing
update_document-same now c o old there mutable same =
    simp (there, mutable, same, ==_refl o.version_id)

again_append :
    (now : String) (c : DocumentCatalog) (o : UpdateDocumentOptions) (old : CatalogEntry)
    → (update_document now (store c o.document_id (append_entry now old o)) o).0
      ≡ store c o.document_id (append_entry now old o)
again_append now c o old = again_store now c o (append_entry now old o) (
    same_version now c o (append_entry now old o) (unfold append_entry in refl)
      (append_entry_idem now old o))

again_supersede :
    (now : String) (c : DocumentCatalog) (o : UpdateDocumentOptions) (old : CatalogEntry)
    → o.mutability ≡ mutable_state
    → (update_document now (store c o.document_id (supersede_entry now old o)) o).0
      ≡ store c o.document_id (supersede_entry now old o)
again_supersede now c o old mutable =
    let e = supersede_entry now old o in
    ap (λ r. r.0)
      (update_document-same now (store c o.document_id e) o e
        (get_document-store_self c o.document_id e) mutable (unfold supersede_entry in refl))

again_existing :
    (now : String) (c : DocumentCatalog) (o : UpdateDocumentOptions) (old : CatalogEntry)
    → get_document c o.document_id ≡ some old
    → (m : Mutability) → o.mutability ≡ m
    → (update_document now (update_existing now c o old m).0 o).0
      ≡ (update_existing now c o old m).0
unfolding update_existing
again_existing now c o old h append_only m = again_append now c o old
again_existing now c o old h mutable_state m =
    elim (Bool-cases (old.current_version_id == o.version_id)) [
      | inl same ↦
          rw same (ap (λ r. r.0) (update_document-same now c o old h m ((==_iff _ _).0 same)))
      | inr other ↦ rw other (again_supersede now c o old m)
    ]

again_found :
    (now : String) (c : DocumentCatalog) (o : UpdateDocumentOptions) (found : Option CatalogEntry)
    → get_document c o.document_id ≡ found
    → (update_document now (update_found now c o found).0 o).0 ≡ (update_found now c o found).0
unfolding update_found
again_found now c o none h = again_store now c o (create_entry now o) (
    same_version now c o (create_entry now o) (unfold create_entry in refl)
      (append_entry-create_entry now o))
again_found now c o (some old) h = again_existing now c o old h o.mutability refl

-- One `updateDocument`, repeated at once with the same arguments at the same clock reading, changes
-- nothing more of the catalog, whether the document was new, appended to, superseded or of the same
-- version.
pub update_document_idem :
    (now : String) (c : DocumentCatalog) (o : UpdateDocumentOptions)
    → (update_document now (update_document now c o).0 o).0 ≡ (update_document now c o).0
unfolding update_document update_found
update_document_idem now c o = again_found now c o (get_document c o.document_id) refl
