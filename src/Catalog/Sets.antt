-- ===== src/Catalog/Sets.antt =====
-- Membership in the sets that are folded from a catalog, and the values of a map after a write.
use wtfoc.Prelude.{
  String, Bool, ◌&&◌, ◌||◌, List, [], ◌∷◌, ◌≡◌, if◌then◌else◌, any, includes, add_all, or_else,
  text_has_eq, arith, includes-add_all,
}
use wtfoc.Prelude.Dict
use wtfoc.Prelude.Dict.{Dict}
use wtfoc.Schema.{LifecycleState, active, CatalogEntry, DocumentCatalog}
use wtfoc.Catalog.{
  is_state, collect_by_state, collect_superseded, get_active_chunk_ids, get_chunk_ids_by_state,
  get_superseded_chunk_ids,
}

abbrev pub in_state : LifecycleState → String → CatalogEntry → Bool
in_state state id entry = is_state entry.state state && includes entry.chunk_ids id

abbrev pub in_superseded : String → CatalogEntry → Bool
in_superseded id entry = includes (or_else entry.superseded_chunk_ids []) id

includes-collect_by_state :
    (state : LifecycleState) (ids : List String) (entries : List CatalogEntry) (id : String)
    → includes (collect_by_state state ids entries) id
      ≡ (includes ids id || any (in_state state id) entries)
unfolding collect_by_state
includes-collect_by_state state ids [] id = ground arith
includes-collect_by_state state ids (entry ∷ rest) id = ground (
  arith,
  includes-collect_by_state state
      (if is_state entry.state state then add_all ids entry.chunk_ids else ids) rest id,
  includes-add_all ids entry.chunk_ids id,
)

includes-collect_superseded :
    (ids : List String) (entries : List CatalogEntry) (id : String)
    → includes (collect_superseded ids entries) id
      ≡ (includes ids id || any (in_superseded id) entries)
unfolding collect_superseded
includes-collect_superseded ids [] id = ground arith
includes-collect_superseded ids (entry ∷ rest) id = ground (
  arith,
  includes-collect_superseded (add_all ids (or_else entry.superseded_chunk_ids [])) rest id,
  includes-add_all ids (or_else entry.superseded_chunk_ids []) id,
)

pub includes-get_active_chunk_ids :
    (catalog : DocumentCatalog) (id : String)
    → includes (get_active_chunk_ids catalog) id
      ≡ any (in_state active id) (Dict.values catalog.documents)
unfolding get_active_chunk_ids
includes-get_active_chunk_ids catalog id =
    includes-collect_by_state active [] (Dict.values catalog.documents) id

pub includes-get_chunk_ids_by_state :
    (catalog : DocumentCatalog) (state : LifecycleState) (id : String)
    → includes (get_chunk_ids_by_state catalog state) id
      ≡ any (in_state state id) (Dict.values catalog.documents)
unfolding get_chunk_ids_by_state
includes-get_chunk_ids_by_state catalog state id =
    includes-collect_by_state state [] (Dict.values catalog.documents) id

pub includes-get_superseded_chunk_ids :
    (catalog : DocumentCatalog) (id : String)
    → includes (get_superseded_chunk_ids catalog) id
      ≡ any (in_superseded id) (Dict.values catalog.documents)
unfolding get_superseded_chunk_ids
includes-get_superseded_chunk_ids catalog id =
    includes-collect_superseded [] (Dict.values catalog.documents) id
