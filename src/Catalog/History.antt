-- ===== src/Catalog/History.antt =====
-- packages/ingest/src/document-catalog.ts: the entry of a mutable document after any updates and
-- archivings of it, against the document's history.
use mathlib.Core.Path.{subst}
use wtfoc.Prelude.{
  String, Option, none, some, List, [], ◌∷◌, ◌++◌, ◌==◌, map, ◌≡◌, refl, if◌then◌else◌, any,
  includes, or_else, text_has_eq, arith, inl, inr, Bool-cases, ==_iff, includes-append,
  includes-add_all,
}
use wtfoc.Schema.{LifecycleState, active, archived, CatalogEntry, DocumentCatalog, mutable_state}
use wtfoc.Catalog.{
  UpdateDocumentOptions, update_document, update_found, archive_document, archive_found,
  get_document, create_entry, supersede_entry, archived_entry, store,
}
use wtfoc.Catalog.Versions.{get_document-store_self, update_document-supersedes}
use wtfoc.Catalog.Repeated.{update_document-same}

-- A call for one document.
pub data Event : Type 0 where
  ingested : String → UpdateDocumentOptions → Event
  removed : String → Event

-- The calls are for the document, as a mutable one.
abbrev pub EventsOf : String → List Event → Type 0
EventsOf id [] = Unit
EventsOf id ((ingested now o) ∷ events) =
    (o.document_id ≡ id) × (o.mutability ≡ mutable_state) × EventsOf id events
EventsOf id ((removed now) ∷ events) = EventsOf id events

abbrev apply : String → DocumentCatalog → Event → DocumentCatalog
apply id c (ingested now o) = (update_document now c o).0
apply id c (removed now) = (archive_document now c id).0

abbrev pub apply_all : String → DocumentCatalog → List Event → DocumentCatalog
apply_all id c [] = c
apply_all id c (event ∷ events) = apply_all id (apply id c event) events

-- The versions that a document went through, the newest first, and its state.
pub record History : Type 0 where
  pub versions : List UpdateDocumentOptions
  pub state : LifecycleState

abbrev pub unseen : History
unseen = record { versions = []; state = active }

-- A version counts when it differs from the one before it.
abbrev arrives : UpdateDocumentOptions → LifecycleState → List UpdateDocumentOptions → History
arrives o state [] = record { versions = o ∷ []; state = active }
arrives o state (last ∷ earlier) =
    if last.version_id == o.version_id
    then record { versions = last ∷ earlier; state = state }
    else record { versions = o ∷ last ∷ earlier; state = active }

abbrev observe : History → Event → History
observe h (ingested now o) = arrives o h.state h.versions
observe h (removed now) = record h { state = archived }

abbrev pub history : History → List Event → History
history h [] = h
history h (event ∷ events) = history (observe h event) events

-- The chunks of the versions, the oldest first.
abbrev pub chunks_in : List UpdateDocumentOptions → List String
chunks_in [] = []
chunks_in (last ∷ earlier) = chunks_in earlier ++ last.chunk_ids

-- An entry holds the last version, and keeps of the earlier ones their ids and their chunks.
pub record Records (last : UpdateDocumentOptions) (earlier : List UpdateDocumentOptions)
    (state : LifecycleState) (e : CatalogEntry) : Type 0 where
  pub current : e.current_version_id ≡ last.version_id
  pub previous : e.previous_version_ids ≡ map (λ o. o.version_id) earlier
  pub chunks : e.chunk_ids ≡ last.chunk_ids
  pub retired : or_else e.superseded_chunk_ids [] ≡ chunks_in earlier
  pub fingerprints :
      (fp : String)
      → includes (or_else e.content_fingerprints []) fp
        ≡ any (λ o. includes o.content_fingerprints fp) (last ∷ earlier)
  pub in_state : e.state ≡ state

-- What the catalog has for a document with a history: nothing before its first version.
abbrev pub Tells : LifecycleState → List UpdateDocumentOptions → Option CatalogEntry → Type 0
Tells state [] found = found ≡ none
Tells state (last ∷ earlier) found =
    (e : CatalogEntry) × (found ≡ some e) × Records last earlier state e

abbrev pub Follows : String → DocumentCatalog → History → Type 0
Follows id c h = Tells h.state h.versions (get_document c id)

create_entry-Records :
    (now : String) (o : UpdateDocumentOptions) → Records o [] active (create_entry now o)
unfolding create_entry
create_entry-Records now o = record {
  current = refl;
  previous = refl;
  chunks = refl;
  retired = refl;
  fingerprints = λ fp. ground arith;
  in_state = refl;
}

supersede_entry-Records :
    (now : String) (o last : UpdateDocumentOptions) (earlier : List UpdateDocumentOptions)
    (state : LifecycleState) (e : CatalogEntry)
    → Records last earlier state e
    → Records o (last ∷ earlier) active (supersede_entry now e o)
unfolding supersede_entry
supersede_entry-Records now o last earlier state e r = record {
  current = refl;
  previous = rw (r.current, r.previous) refl;
  chunks = refl;
  retired = rw (r.retired, r.chunks) refl;
  fingerprints = λ fp.
      let known = or_else e.content_fingerprints [] in
      ground (
        arith,
        includes-add_all [] (known ++ o.content_fingerprints) fp,
        includes-append known o.content_fingerprints fp,
        r.fingerprints fp,
      );
  in_state = refl;
}

archived_entry-Records :
    (now : String) (last : UpdateDocumentOptions) (earlier : List UpdateDocumentOptions)
    (state : LifecycleState) (e : CatalogEntry)
    → Records last earlier state e
    → Records last earlier archived (archived_entry now e)
archived_entry-Records now last earlier state e r = record {
  current = r.current;
  previous = r.previous;
  chunks = r.chunks;
  retired = r.retired;
  fingerprints = r.fingerprints;
  in_state = refl;
}

update_document-creates :
    (now : String) (c : DocumentCatalog) (o : UpdateDocumentOptions)
    → get_document c o.document_id ≡ none
    → (update_document now c o).0 ≡ store c o.document_id (create_entry now o)
unfolding update_document update_found
update_document-creates now c o missing = simp missing

update-Follows :
    (now : String) (c : DocumentCatalog) (o : UpdateDocumentOptions) (state : LifecycleState)
    (versions : List UpdateDocumentOptions)
    → o.mutability ≡ mutable_state
    → Tells state versions (get_document c o.document_id)
    → Follows o.document_id (update_document now c o).0 (arrives o state versions)
update-Follows now c o state [] mutable missing =
    rw (update_document-creates now c o missing)
      (create_entry now o, get_document-store_self c o.document_id _, create_entry-Records now o)
update-Follows now c o state (last ∷ earlier) mutable (e, there, r) =
    elim (Bool-cases (last.version_id == o.version_id)) [
      | inl same ↦
          rw
            (
              same,
              update_document-same now c o e there mutable
                  (ground (arith, same, r.current, ==_iff last.version_id o.version_id)),
            )
            (e, there, r)
      | inr other ↦
          rw
            (
              other,
              update_document-supersedes now c o e there mutable
                  (ground (arith, other, r.current, ==_iff last.version_id o.version_id)),
            )
            (
              supersede_entry now e o,
              get_document-store_self c o.document_id _,
              supersede_entry-Records now o last earlier state e r,
            )
    ]

archive-Follows :
    (now id : String) (c : DocumentCatalog) (state : LifecycleState)
    (versions : List UpdateDocumentOptions)
    → Tells state versions (get_document c id)
    → Tells archived versions (get_document (archive_document now c id).0 id)
unfolding archive_document archive_found
archive-Follows now id c state [] missing = rw missing missing
archive-Follows now id c state (last ∷ earlier) (e, there, r) = rw there (
  archived_entry now e,
  get_document-store_self c id _,
  archived_entry-Records now last earlier state e r,
)

apply_all-Follows :
    (id : String) (c : DocumentCatalog) (events : List Event) (h : History)
    → EventsOf id events
    → Follows id c h
    → Follows id (apply_all id c events) (history h events)
apply_all-Follows id c [] h of f = f
apply_all-Follows id c ((ingested now o) ∷ events) h of f =
    let h' = arrives o h.state h.versions in
    let c' = (update_document now c o).0 in
    apply_all-Follows id c' events h' of.2 (
      subst (λ i. Follows i c' h') of.0
        (update-Follows now c o h.state h.versions of.1 (rw of.0 f)))
apply_all-Follows id c ((removed now) ∷ events) h of f =
    apply_all-Follows id (archive_document now c id).0 events (record h { state = archived }) of
      (archive-Follows now id c h.state h.versions f)

-- After any updates and archivings of a mutable document that the catalog did not have, its entry
-- tells the document's history, in which a version counts when it differs from the one before it:
-- the entry has the id and the chunks of the last version, the ids of the earlier ones with the
-- newest first, as superseded the chunks of the earlier ones with the oldest first, and the
-- fingerprints of all of them. It is archived if an archiving came after that last version's first
-- update, and active otherwise: an update at the last version does not bring it back.
pub entry_tells_history :
    (id : String) (c : DocumentCatalog) (events : List Event)
    → EventsOf id events
    → get_document c id ≡ none
    → Follows id (apply_all id c events) (history unseen events)
entry_tells_history id c events of new = apply_all-Follows id c events unseen of new
