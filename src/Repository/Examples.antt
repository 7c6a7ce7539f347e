-- ===== src/Repository/Examples.antt =====
-- A wallet that signs in twice, at which the theorems on sessions are run.
use wtfoc.Prelude.{ℕ, String, none, [], ◌∷◌, ◌≡◌, ◌≢◌, refl, text_has_eq}
use wtfoc.Prelude.Dict
use wtfoc.Repository.{
  WalletSession, SessionStore, empty_sessions, CollectionStore, CreateCollectionInput,
  empty_collections, github,
}
use wtfoc.Repository.Collections.{
  Outcome, thrown, returned, already_exists, create_collection, new_collection, WithSources,
}
use wtfoc.Repository.Collections.Named.{CollectionsReach, no_collections, made, unique_names}
use wtfoc.Repository.Collections.Named.CollectionsReach.{one_call as collection_call}
use wtfoc.Repository.Sessions.{get_session_by_token, create_session, new_session, revoke_session}
use wtfoc.Repository.Sessions.Reached.{one_active_session, Authentic, token_leads_to_active}
use wtfoc.Repository.Sessions.Revoked.{Later, at_once, and_then, revoked_is_gone}
use wtfoc.Repository.Sessions.Steps.{SessionsReach, no_sessions, one_call, created}

abbrev first_sign_in : SessionStore
unfolding create_session
first_sign_in = (create_session 5 "u1" "0xa" "t1" 1 empty_sessions).0

abbrev second_sign_in : SessionStore
unfolding create_session
second_sign_in = (create_session 9 "u2" "0xa" "t2" 1 first_sign_in).0

abbrev second_session : WalletSession
second_session = new_session 9 "u2" "0xa" "t2" 1

signed_in_twice : SessionsReach second_sign_in
unfolding first_sign_in second_sign_in create_session Dict.get Dict.set Dict.delete
signed_in_twice =
    one_call (one_call no_sessions (created 5 "u1" "0xa" "t1" 1 refl refl))
      (created 9 "u2" "0xa" "t2" 1 refl refl)

-- The first token is of no use any more.
first_token_is_gone : get_session_by_token "t1" second_sign_in ≡ none
unfolding get_session_by_token first_sign_in second_sign_in create_session Dict.get Dict.set
    Dict.delete
first_token_is_gone = refl

one_active_session_example : ◌≡◌ {A = String} "u2" "u2"
unfolding first_sign_in second_sign_in create_session Dict.get Dict.set Dict.delete
one_active_session_example =
    one_active_session {r = second_sign_in} "u2" "u2" second_session second_session signed_in_twice
      refl refl refl refl refl

token_leads_to_active_example : Authentic "t2" second_session second_sign_in
unfolding get_session_by_token first_sign_in second_sign_in create_session Dict.get Dict.set
    Dict.delete
token_leads_to_active_example =
    token_leads_to_active {r = second_sign_in} "t2" second_session signed_in_twice refl

abbrev revoked_first : SessionStore
unfolding revoke_session first_sign_in create_session Dict.get Dict.set Dict.delete
revoked_first = revoke_session 7 "u1" first_sign_in

abbrev signed_in_again : SessionStore
unfolding create_session
signed_in_again = (create_session 9 "u2" "0xa" "t2" 1 revoked_first).0

signed_in_once : SessionsReach first_sign_in
unfolding first_sign_in create_session Dict.get Dict.set Dict.delete
signed_in_once = one_call no_sessions (created 5 "u1" "0xa" "t1" 1 refl refl)

signs_in_again : Later revoked_first signed_in_again
unfolding signed_in_again revoked_first revoke_session first_sign_in create_session Dict.get
    Dict.set Dict.delete
signs_in_again = and_then at_once (created 9 "u2" "0xa" "t2" 1 refl refl)

revoked_is_gone_example : ◌≢◌ {A = String} "u2" "u1"
unfolding get_session_by_token signed_in_again revoked_first revoke_session first_sign_in
    create_session Dict.get Dict.set Dict.delete
revoked_is_gone_example =
    revoked_is_gone {r = first_sign_in} {q = signed_in_again} 7 "u1" "t2"
      (new_session 5 "u1" "0xa" "t1" 1) second_session signed_in_once refl signs_in_again refl

abbrev notes : CreateCollectionInput
notes = record {
  name = "notes";
  wallet_address = "0xa";
  sources = record { source_type = github; identifier = "o/r" } ∷ [];
}

abbrev source_uuids : ℕ → String
source_uuids i = "s"

abbrev store_of : Outcome WithSources → CollectionStore
store_of (thrown e) = empty_collections
store_of (returned q out) = q

abbrev one_collection : CollectionStore
unfolding create_collection
one_collection = store_of (create_collection 5 "k1" source_uuids notes empty_collections)

-- The name is taken.
second_is_refused :
    create_collection 6 "k2" source_uuids notes one_collection
    ≡ thrown (already_exists "notes" "0xa")
unfolding create_collection one_collection Dict.set
second_is_refused = refl

one_made : CollectionsReach one_collection
unfolding create_collection one_collection Dict.set
one_made = collection_call no_collections (made 5 "k1" source_uuids notes refl)

unique_names_example : ◌≡◌ {A = String} "k1" "k1"
unfolding create_collection one_collection Dict.set Dict.get
unique_names_example =
    unique_names {r = one_collection} "k1" "k1" (new_collection 5 "k1" notes)
      (new_collection 5 "k1" notes) one_made refl refl refl refl
