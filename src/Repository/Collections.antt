-- ===== src/Repository/Collections.antt =====
-- The methods of `InMemoryRepository` on collections and sources (apps/web/server/db/memory.ts). `now` is
-- `new Date()`, `uuid` is the `randomUUID()` of a collection, and `uuids` gives those of its sources in
-- the order of the calls.
pub mod Named
use wtfoc.Prelude.{
  ℕ, zero, suc, String, Bool, true, false, ◌&&◌, Option, none, some, List, [], ◌∷◌, ◌++◌, ◌==◌,
  length, any, filter, add, if◌then◌else◌, or_else, text_has_eq,
}
use wtfoc.Prelude.Dict
use wtfoc.Prelude.Dict.{Dict}
use wtfoc.Repository.{
  CollectionStatus, creating, PromoteCheckpoint, Collection, SourceType, SourceStatus, pending,
  Source, SourceInput, CreateCollectionInput, CollectionStore,
}

pub data CollectionError : Type 0 where
  already_exists : (name wallet_address : String) → CollectionError
  collection_not_found : (id : String) → CollectionError
  source_not_found : (id : String) → CollectionError

pub data Outcome {ℓ} (A : Type ℓ) : Type ℓ where
  thrown : CollectionError → Outcome A
  returned : CollectionStore → A → Outcome A

-- What `void` returns.
pub data Done : Type 0 where
  done : Done

pub record WithSources : Type 0 where
  pub collection : Collection
  pub sources : List Source

abbrev pub has_name : String → String → Collection → Bool
has_name wallet_address name c = c.wallet_address == wallet_address && c.name == name

abbrev pub new_collection : ℕ → String → CreateCollectionInput → Collection
new_collection now uuid input = record {
  id = uuid;
  name = input.name;
  wallet_address = input.wallet_address;
  status = creating;
  manifest_cid = none;
  piece_cid = none;
  car_root_cid = none;
  promote_checkpoint = none;
  source_count = length input.sources;
  segment_count = none;
  created_at = now;
  updated_at = now;
}

abbrev pub new_source : ℕ → String → String → SourceInput → Source
new_source now uuid collection_id s = record {
  id = uuid;
  collection_id = collection_id;
  source_type = s.source_type;
  identifier = s.identifier;
  status = pending;
  error_message = none;
  chunk_count = none;
  created_at = now;
  updated_at = now;
}

-- The variables of the loop over new sources: the map, the ids and the sources made so far.
pub record Made : Type 0 where
  pub sources : Dict String Source
  pub source_ids : List String
  pub made : List Source

abbrev pub make_source : ℕ → String → String → SourceInput → Made → Made
make_source now uuid collection_id s m = record {
  sources = Dict.set uuid (new_source now uuid collection_id s) m.sources;
  source_ids = add m.source_ids uuid;
  made = m.made ++ new_source now uuid collection_id s ∷ [];
}

unfoldable pub make_sources : ℕ → (ℕ → String) → ℕ → String → List SourceInput → Made → Made
make_sources now uuids i collection_id [] m = m
make_sources now uuids i collection_id (s ∷ ss) m =
    make_sources now uuids (suc i) collection_id ss (make_source now (uuids i) collection_id s m)

abbrev pub insert_collection : Collection → Made → CollectionStore → CollectionStore
insert_collection c m r = record {
  collections = Dict.set c.id c r.collections;
  sources = m.sources;
  sources_by_collection = Dict.set c.id m.source_ids r.sources_by_collection;
}

unfoldable pub create_collection :
    ℕ → String → (ℕ → String) → CreateCollectionInput → CollectionStore → Outcome WithSources
unfolding make_sources
create_collection now uuid uuids input r =
    let c = new_collection now uuid input in
    let m =
      make_sources now uuids 0 uuid input.sources
        (record { sources = r.sources; source_ids = []; made = [] }) in
    if any (has_name input.wallet_address input.name) (Dict.values r.collections)
    then thrown (already_exists input.name input.wallet_address)
    else returned (insert_collection c m r) (record { collection = c; sources = m.made })

-- `ids.map((id) => this.sources.get(id)).filter(Boolean)`
abbrev pub or_skip : Option Source → List Source → List Source
or_skip none rest = rest
or_skip (some s) rest = s ∷ rest

unfoldable pub sources_of : Dict String Source → List String → List Source
sources_of sources [] = []
sources_of sources (id ∷ ids) = or_skip (Dict.get id sources) (sources_of sources ids)

abbrev pub with_sources : Option Collection → String → CollectionStore → Option WithSources
with_sources none id r = none
with_sources (some c) id r = some (record {
  collection = c;
  sources = sources_of r.sources (or_else (Dict.get id r.sources_by_collection) []);
})

unfoldable pub get_collection : String → CollectionStore → Option WithSources
unfolding sources_of
get_collection id r = with_sources (Dict.get id r.collections) id r

abbrev pub list_collections_by_wallet : String → CollectionStore → List Collection
list_collections_by_wallet wallet_address r =
    filter (λ c. c.wallet_address == wallet_address) (Dict.values r.collections)

abbrev pub put_collection : String → Collection → CollectionStore → CollectionStore
put_collection id c r = record r { collections = Dict.set id c r.collections }

abbrev pub on_collection :
    (Collection → Collection) → String → Option Collection → CollectionStore → Outcome Done
on_collection f id none r = thrown (collection_not_found id)
on_collection f id (some c) r = returned (put_collection id (f c) r) done

abbrev pub with_status : ℕ → CollectionStatus → Collection → Collection
with_status now status c = record c { status = status; updated_at = now }

unfoldable pub update_collection_status :
    ℕ → String → CollectionStatus → CollectionStore → Outcome Done
update_collection_status now id status r =
    on_collection (with_status now status) id (Dict.get id r.collections) r

-- The fields that a promotion may change; none leaves one as it is.
pub record PromotionUpdate : Type 0 where
  pub status : Option CollectionStatus
  pub manifest_cid : Option (Option String)
  pub piece_cid : Option (Option String)
  pub car_root_cid : Option (Option String)
  pub promote_checkpoint : Option (Option PromoteCheckpoint)
  pub segment_count : Option (Option ℕ)

abbrev pub with_promotion : ℕ → PromotionUpdate → Collection → Collection
with_promotion now u c = record c {
  status = or_else u.status c.status;
  manifest_cid = or_else u.manifest_cid c.manifest_cid;
  piece_cid = or_else u.piece_cid c.piece_cid;
  car_root_cid = or_else u.car_root_cid c.car_root_cid;
  promote_checkpoint = or_else u.promote_checkpoint c.promote_checkpoint;
  segment_count = or_else u.segment_count c.segment_count;
  updated_at = now;
}

unfoldable pub update_collection_promotion :
    ℕ → String → PromotionUpdate → CollectionStore → Outcome Done
update_collection_promotion now id update r =
    on_collection (with_promotion now update) id (Dict.get id r.collections) r

abbrev pub add_sources_found :
    ℕ
    → (ℕ → String)
    → String
    → List SourceInput
    → Option Collection
    → CollectionStore
    → Outcome (List Source)
unfolding make_sources
add_sources_found now uuids id ss none r = thrown (collection_not_found id)
add_sources_found now uuids id ss (some c) r =
    let m = make_sources now uuids 0 id ss (record {
      sources = r.sources;
      source_ids = or_else (Dict.get id r.sources_by_collection) [];
      made = [];
    }) in
    returned
      (record {
        collections = Dict.set id (record c { updated_at = now }) r.collections;
        sources = m.sources;
        sources_by_collection = Dict.set id m.source_ids r.sources_by_collection;
      })
      m.made

unfoldable pub add_sources :
    ℕ → (ℕ → String) → String → List SourceInput → CollectionStore → Outcome (List Source)
add_sources now uuids collection_id ss r =
    add_sources_found now uuids collection_id ss (Dict.get collection_id r.collections) r

abbrev some_or : Option String → Option String → Option String
some_or none old = old
some_or (some new) old = some new

-- A missing message or count leaves the old one.
abbrev pub with_source_status : ℕ → SourceStatus → Option String → Option ℕ → Source → Source
with_source_status now status error_message chunk_count s = record s {
  status = status;
  error_message = some_or error_message s.error_message;
  chunk_count = elim chunk_count [ none ↦ s.chunk_count | some n ↦ some n ];
  updated_at = now;
}

abbrev pub on_source : (Source → Source) → String → Option Source → CollectionStore → Outcome Done
on_source f id none r = thrown (source_not_found id)
on_source f id (some s) r = returned (record r { sources = Dict.set id (f s) r.sources }) done

unfoldable pub update_source_status :
    ℕ → String → SourceStatus → Option String → Option ℕ → CollectionStore → Outcome Done
update_source_status now id status error_message chunk_count r =
    on_source (with_source_status now status error_message chunk_count) id (Dict.get id r.sources) r
