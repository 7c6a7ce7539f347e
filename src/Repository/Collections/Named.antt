-- ===== src/Repository/Collections/Named.antt =====
-- apps/web/server/db/memory.ts: a wallet never has two collections of one name.
use mathlib.Core.Path.{subst}
use wtfoc.Prelude.{
  ℕ, String, Bool, false, Option, none, some, inl, inr, List, [], ◌∷◌, ◌≡◌, refl, ==_iff, any,
  Bool-cases, text_has_eq, arith,
}
use wtfoc.Prelude.Dict
use wtfoc.Prelude.Dict.{Dict, get-set}
use wtfoc.Repository.{
  CollectionStatus, Collection, SourceStatus, Source, SourceInput, CreateCollectionInput,
  CollectionStore, empty_collections,
}
use wtfoc.Repository.Collections.{
  Outcome, thrown, returned, Done, WithSources, has_name, new_collection, create_collection,
  on_collection, with_status, update_collection_status, PromotionUpdate, with_promotion,
  update_collection_promotion, add_sources_found, add_sources, with_source_status, on_source,
  update_source_status,
}

-- A call that returned.
pub data CollectionStep (r : CollectionStore) : CollectionStore → Type 0 where
  made :
      {q : CollectionStore} {out : WithSources} (now : ℕ) (uuid : String) (uuids : ℕ → String)
      (input : CreateCollectionInput)
      → create_collection now uuid uuids input r ≡ returned q out
      → CollectionStep r q
  status_set :
      {q : CollectionStore} {out : Done} (now : ℕ) (id : String) (status : CollectionStatus)
      → update_collection_status now id status r ≡ returned q out
      → CollectionStep r q
  promotion_set :
      {q : CollectionStore} {out : Done} (now : ℕ) (id : String) (update : PromotionUpdate)
      → update_collection_promotion now id update r ≡ returned q out
      → CollectionStep r q
  sources_added :
      {q : CollectionStore} {out : List Source} (now : ℕ) (uuids : ℕ → String) (id : String)
      (ss : List SourceInput)
      → add_sources now uuids id ss r ≡ returned q out
      → CollectionStep r q
  source_set :
      {q : CollectionStore} {out : Done} (now : ℕ) (id : String) (status : SourceStatus)
      (message : Option String) (chunks : Option ℕ)
      → update_source_status now id status message chunks r ≡ returned q out
      → CollectionStep r q

pub data CollectionsReach : CollectionStore → Type 0 where
  no_collections : CollectionsReach empty_collections
  one_call : {r q : CollectionStore} → CollectionsReach r → CollectionStep r q → CollectionsReach q

-- The state after a call, which a thrown error leaves as it was.
abbrev after {ℓ} : {A : Type ℓ} → CollectionStore → Outcome A → CollectionStore
after r (thrown e) = r
after r (returned q a) = q

record UniqueNames (m : Dict String Collection) : Type 0 where
  same :
      (i j : String) (c d : Collection)
      → Dict.get i m ≡ some c
      → Dict.get j m ≡ some d
      → c.wallet_address ≡ d.wallet_address
      → c.name ≡ d.name
      → i ≡ j

any-get :
    (p : Collection → Bool) (i : String) (c : Collection) (m : Dict String Collection)
    → Dict.get i m ≡ some c
    → any p (Dict.values m) ≡ false
    → p c ≡ false
unfolding Dict.get
any-get p i c [] at h = ground (arith, at)
any-get p i c ((j, d) ∷ m) at h = ground (arith, at, h, any-get p i c m)

set_new-UniqueNames :
    (m : Dict String Collection) (c : Collection)
    → any (has_name c.wallet_address c.name) (Dict.values m) ≡ false
    → UniqueNames m
    → UniqueNames (Dict.set c.id c m)
set_new-UniqueNames m c free u = record {
  same = λ i j a b at_i at_j wallet name. ground (
    arith,
    get-set i c.id c m,
    get-set j c.id c m,
    at_i,
    at_j,
    wallet,
    name,
    ==_iff c.id i,
    ==_iff c.id j,
    ==_iff a.wallet_address c.wallet_address,
    ==_iff a.name c.name,
    ==_iff b.wallet_address c.wallet_address,
    ==_iff b.name c.name,
    any-get (has_name c.wallet_address c.name) i a m,
    any-get (has_name c.wallet_address c.name) j b m,
    u.same i j a b,
  );
}

-- A write that leaves the wallet and the name as they were.
set_old-UniqueNames :
    (m : Dict String Collection) (id : String) (c e : Collection)
    → Dict.get id m ≡ some c
    → e.wallet_address ≡ c.wallet_address
    → e.name ≡ c.name
    → UniqueNames m
    → UniqueNames (Dict.set id e m)
set_old-UniqueNames m id c e at w n u = record {
  same = λ i j a b at_i at_j wallet name. ground (
    arith,
    get-set i id e m,
    get-set j id e m,
    at_i,
    at_j,
    wallet,
    name,
    at,
    w,
    n,
    ==_iff id i,
    ==_iff id j,
    u.same i j a b,
    u.same id j c b,
    u.same i id a c,
  );
}

create_collection-UniqueNames :
    (now : ℕ) (uuid : String) (uuids : ℕ → String) (input : CreateCollectionInput)
    (r : CollectionStore)
    → UniqueNames r.collections
    → UniqueNames ((after r (create_collection now uuid uuids input r)).collections)
unfolding create_collection
create_collection-UniqueNames now uuid uuids input r u =
    elim (Bool-cases (any (has_name input.wallet_address input.name) (Dict.values r.collections))) [
      | inl taken ↦ rw taken u
      | inr free ↦
          rw free (set_new-UniqueNames r.collections (new_collection now uuid input) free u)
    ]

on_collection-UniqueNames :
    (f : Collection → Collection) (id : String) (o : Option Collection) (r : CollectionStore)
    → ((c : Collection) → (f c).wallet_address ≡ c.wallet_address)
    → ((c : Collection) → (f c).name ≡ c.name)
    → Dict.get id r.collections ≡ o
    → UniqueNames r.collections
    → UniqueNames ((after r (on_collection f id o r)).collections)
on_collection-UniqueNames f id none r w n at u = u
on_collection-UniqueNames f id (some c) r w n at u =
    set_old-UniqueNames r.collections id c (f c) at (w c) (n c) u

add_sources-UniqueNames :
    (now : ℕ) (uuids : ℕ → String) (id : String) (ss : List SourceInput) (o : Option Collection)
    (r : CollectionStore)
    → Dict.get id r.collections ≡ o
    → UniqueNames r.collections
    → UniqueNames ((after r (add_sources_found now uuids id ss o r)).collections)
unfolding add_sources_found
add_sources-UniqueNames now uuids id ss none r at u = u
add_sources-UniqueNames now uuids id ss (some c) r at u =
    set_old-UniqueNames r.collections id c (record c { updated_at = now }) at refl refl u

on_source-collections :
    (f : Source → Source) (id : String) (o : Option Source) (r : CollectionStore)
    → (after r (on_source f id o r)).collections ≡ r.collections
on_source-collections f id none r = refl
on_source-collections f id (some s) r = refl

-- What holds of the state after a call holds of the state that it returned.
of_returned :
    {A : Type 0} (r : CollectionStore) {q : CollectionStore} {a : A} (o : Outcome A)
    → o ≡ returned q a
    → UniqueNames ((after r o).collections)
    → UniqueNames q.collections
of_returned r o e u = subst (λ x. UniqueNames ((after r x).collections)) e u

CollectionStep-UniqueNames :
    {r q : CollectionStore}
    → CollectionStep r q
    → UniqueNames r.collections
    → UniqueNames q.collections
unfolding update_collection_status update_collection_promotion add_sources update_source_status
CollectionStep-UniqueNames {r = r} (made now uuid uuids input result) u =
    of_returned r _ result (create_collection-UniqueNames now uuid uuids input r u)
CollectionStep-UniqueNames {r = r} (status_set now id status result) u = of_returned r _ result (
    on_collection-UniqueNames (with_status now status) id (Dict.get id r.collections) r (λ c. refl)
      (λ c. refl) refl u)
CollectionStep-UniqueNames {r = r} (promotion_set now id update result) u = of_returned r _ result (
    on_collection-UniqueNames (with_promotion now update) id (Dict.get id r.collections) r
      (λ c. refl) (λ c. refl) refl u)
CollectionStep-UniqueNames {r = r} (sources_added now uuids id ss result) u =
    of_returned r _ result
      (add_sources-UniqueNames now uuids id ss (Dict.get id r.collections) r refl u)
CollectionStep-UniqueNames {r = r} (source_set now id status message chunks result) u =
    let f = with_source_status now status message chunks in
    of_returned r _ result (rw (on_source-collections f id (Dict.get id r.sources) r) u)

reached-UniqueNames : {r : CollectionStore} → CollectionsReach r → UniqueNames r.collections
unfolding Dict.get
reached-UniqueNames no_collections = record {
  same = λ i j c d at_i at_j wallet name. ground (arith, at_i);
}
reached-UniqueNames (one_call reach step) =
    CollectionStep-UniqueNames step (reached-UniqueNames reach)

-- In every state that the calls reach, no wallet has two collections of one name, whichever of them
-- were made, promoted, changed or given sources since.
pub unique_names :
    {r : CollectionStore} (i j : String) (c d : Collection)
    → CollectionsReach r
    → Dict.get i r.collections ≡ some c
    → Dict.get j r.collections ≡ some d
    → c.wallet_address ≡ d.wallet_address
    → c.name ≡ d.name
    → i ≡ j
unique_names i j c d reach = (reached-UniqueNames reach).same i j c d
