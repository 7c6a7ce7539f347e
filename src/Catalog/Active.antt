-- ===== src/Catalog/Active.antt =====
-- Which chunks are active: the set by which search filters.
use wtfoc.Prelude.{
  String, Bool, true, ◌||◌, Option, none, some, [], ◌==◌, ◌≡◌, ◌≢◌, refl, ◌∙◌, includes, or_else,
  text_has_eq, arith, inl, inr, Bool-cases, includes-append,
}
use wtfoc.Prelude.Dict.Values.{IsMap, any_other, any-values-set, set-IsMap}
use wtfoc.Schema.{active, CatalogEntry, DocumentCatalog, Mutability, mutable_state, append_only}
use wtfoc.Catalog.{
  UpdateDocumentOptions, update_document, update_found, update_existing, archive_document,
  archive_found, get_document, supersede_entry, store, archived_entry, get_active_chunk_ids,
  get_superseded_chunk_ids,
}
use wtfoc.Catalog.Sets.{
  in_state, in_superseded, includes-get_active_chunk_ids, includes-get_superseded_chunk_ids,
}
use wtfoc.Catalog.Versions.{update_document-supersedes}
use wtfoc.Catalog.Repeated.{archive_document-store}

-- Some active document other than `doc` has the chunk.
abbrev pub active_elsewhere : DocumentCatalog → String → String → Bool
active_elsewhere c doc id = any_other doc (in_state active id) c.documents

active-store :
    (c : DocumentCatalog) (doc : String) (e : CatalogEntry) (id : String)
    → IsMap c.documents
    → includes (get_active_chunk_ids (store c doc e)) id
      ≡ (in_state active id e || active_elsewhere c doc id)
active-store c doc e id h =
    includes-get_active_chunk_ids (store c doc e) id
    ∙ any-values-set doc e (in_state active id) c.documents h

-- After a new version of a mutable document, the active chunks are exactly those of the new version
-- and those that some other active document has: no chunk of an earlier version stays active by
-- itself.
pub active_after_new_version :
    (now : String) (c : DocumentCatalog) (o : UpdateDocumentOptions) (old : CatalogEntry)
    (id : String)
    → IsMap c.documents
    → get_document c o.document_id ≡ some old
    → o.mutability ≡ mutable_state
    → old.current_version_id ≢ o.version_id
    → includes (get_active_chunk_ids (update_document now c o).0) id
      ≡ (includes o.chunk_ids id || active_elsewhere c o.document_id id)
active_after_new_version now c o old id map there mutable changed =
    rw (update_document-supersedes now c o old there mutable changed) (
      active-store c o.document_id (supersede_entry now old o) id map
      ∙ unfold supersede_entry in refl)

-- After an archive, the active chunks are exactly those that some other active document has, and the
-- result lists the chunks of the document.
pub active_after_archive :
    (now : String) (c : DocumentCatalog) (doc : String) (old : CatalogEntry) (id : String)
    → IsMap c.documents
    → get_document c doc ≡ some old
    → (includes (get_active_chunk_ids (archive_document now c doc).0) id
        ≡ active_elsewhere c doc id)
      × ((archive_document now c doc).1 ≡ old.chunk_ids)
active_after_archive now c doc old id map there = (
  rw (archive_document-store now c doc old there)
      (active-store c doc (archived_entry now old) id map),
  unfold archive_document archive_found in simp there,
)

supersede_entry-retires :
    (now : String) (old : CatalogEntry) (o : UpdateDocumentOptions) (id : String)
    → includes old.chunk_ids id ≡ true
    → in_superseded id (supersede_entry now old o) ≡ true
unfolding supersede_entry
supersede_entry-retires now old o id held =
    ground (arith, includes-append (or_else old.superseded_chunk_ids []) old.chunk_ids id)

-- A chunk of the old version that the new version still has ends up in both sets: it is active, and
-- it is superseded.
pub kept_chunk_is_superseded :
    (now : String) (c : DocumentCatalog) (o : UpdateDocumentOptions) (old : CatalogEntry)
    (id : String)
    → IsMap c.documents
    → get_document c o.document_id ≡ some old
    → o.mutability ≡ mutable_state
    → old.current_version_id ≢ o.version_id
    → includes old.chunk_ids id ≡ true
    → includes o.chunk_ids id ≡ true
    → (includes (get_superseded_chunk_ids (update_document now c o).0) id ≡ true)
      × (includes (get_active_chunk_ids (update_document now c o).0) id ≡ true)
kept_chunk_is_superseded now c o old id map there mutable changed held kept =
    let e = supersede_entry now old o in
    let documents = any-values-set o.document_id e (in_superseded id) c.documents map in
    let sets = includes-get_superseded_chunk_ids (store c o.document_id e) id in
    let retired = supersede_entry-retires now old o id held in
    (
      rw (update_document-supersedes now c o old there mutable changed) (ground (arith)),
      ground (arith, active_after_new_version now c o old id map there mutable changed),
    )

existing-IsMap :
    (now : String) (c : DocumentCatalog) (o : UpdateDocumentOptions) (old : CatalogEntry)
    (m : Mutability)
    → IsMap c.documents
    → IsMap (update_existing now c o old m).0.documents
unfolding update_existing
existing-IsMap now c o old append_only h = set-IsMap o.document_id _ c.documents h
existing-IsMap now c o old mutable_state h =
    elim (Bool-cases (old.current_version_id == o.version_id)) [
      | inl same ↦ rw same h
      | inr other ↦ rw other (set-IsMap o.document_id _ c.documents h)
    ]

found-IsMap :
    (now : String) (c : DocumentCatalog) (o : UpdateDocumentOptions) (found : Option CatalogEntry)
    → IsMap c.documents
    → IsMap (update_found now c o found).0.documents
unfolding update_found
found-IsMap now c o none h = set-IsMap o.document_id _ c.documents h
found-IsMap now c o (some old) h = existing-IsMap now c o old o.mutability h

pub update_document-IsMap :
    (now : String) (c : DocumentCatalog) (o : UpdateDocumentOptions)
    → IsMap c.documents
    → IsMap (update_document now c o).0.documents
unfolding update_document
update_document-IsMap now c o h = found-IsMap now c o (get_document c o.document_id) h
