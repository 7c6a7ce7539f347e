-- ===== src/Repository/Sessions/Steps.antt =====
-- apps/web/server/db/memory.ts: the session stores that the methods reach.
use mathlib.Core.Path.{subst}
use wtfoc.Prelude.{
  ℕ, String, false, Option, none, some, inl, inr, List, ◌≡◌, refl, ◌==◌, ==_iff, ==_refl, or_else,
  Bool-cases, text_has_eq, arith,
}
use wtfoc.Prelude.Dict
use wtfoc.Prelude.Dict.{Dict, get-set, get-delete}
use wtfoc.Repository.{WalletSession, SessionStore, empty_sessions}
use wtfoc.Repository.Sessions.{
  nonempty, revoked, revoke_existing, new_session, insert_session, create_session, on_session,
  with_key, update_session_key, revoke_found, revoke_session, without_key, touched, if_found,
  delete_session_key, touch_session,
}
use wtfoc.Repository.Sessions.Indexed.{
  Indexed, Rewrites, put_session-Indexed, forget_token-Indexed, revoked-Rewrites,
  revoke_existing-Indexed, revoke_existing-wallets, revoke_existing-is_revoked,
  revoke_existing-fresh,
}

-- One call of a method. The id of a new session is not empty and was not used, as `randomUUID` gives it.
pub data SessionStep : SessionStore → SessionStore → Type 0 where
  created :
      {r : SessionStore} (now : ℕ) (uuid wallet token : String) (chain_id : ℕ)
      → (uuid == "") ≡ false
      → Dict.get uuid r.sessions ≡ none
      → SessionStep r ((create_session now uuid wallet token chain_id r).0)
  key_updated :
      {r q : SessionStore} (id : String) (key : List ℕ) (wallet : String) (expires : ℕ)
      → update_session_key id key wallet expires r ≡ some q
      → SessionStep r q
  revocation : {r : SessionStore} (now : ℕ) (id : String) → SessionStep r (revoke_session now id r)
  key_deleted : {r : SessionStore} (id : String) → SessionStep r (delete_session_key id r)
  touching : {r : SessionStore} (now : ℕ) (id : String) → SessionStep r (touch_session now id r)

pub data SessionsReach : SessionStore → Type 0 where
  no_sessions : SessionsReach empty_sessions
  one_call : {r q : SessionStore} → SessionsReach r → SessionStep r q → SessionsReach q

pub insert_session-Indexed :
    (s : WalletSession) (r : SessionStore)
    → (s.id == "") ≡ false
    → Dict.get s.id r.sessions ≡ none
    → ((id : String) (t : WalletSession)
        → Dict.get id r.sessions ≡ some t
        → t.revoked_at ≡ none
        → (s.wallet_address == t.wallet_address) ≡ false)
    → Indexed r
    → Indexed (insert_session s r)
insert_session-Indexed s r filled fresh others i = record {
  token_index = λ token j found. elim (Bool-cases (s.cookie_token == token)) [
    | inl here ↦ (
      s,
      ground (
        arith,
        get-set token s.cookie_token s.id r.session_by_token,
        here,
        found,
        get-set j s.id s r.sessions,
        ==_iff s.id j,
      ),
      ground (arith, here, ==_iff s.cookie_token token),
    )
    | inr other ↦
        let (u, at, same) =
          i.token_index token j
            (ground (arith, get-set token s.cookie_token s.id r.session_by_token, other, found)) in
        (u, ground (arith, get-set j s.id s r.sessions, ==_iff s.id j, fresh, at), same)
  ];
  wallet_index = λ j u at unrevoked. elim (Bool-cases (s.id == j)) [
    | inl here ↦ ground (
      arith,
      get-set j s.id s r.sessions,
      here,
      at,
      ==_iff s.id j,
      get-set s.wallet_address s.wallet_address s.id r.session_by_wallet,
      ==_refl s.wallet_address,
    )
    | inr other ↦ ground (
      arith,
      get-set j s.id s r.sessions,
      other,
      at,
      unrevoked,
      i.wallet_index j u,
      others j u,
      get-set u.wallet_address s.wallet_address s.id r.session_by_wallet,
    )
  ];
  same_id = λ j u at. ground (arith, get-set j s.id s r.sessions, at, ==_iff s.id j, i.same_id j u);
  nonempty_id = λ j u at.
      ground (arith, get-set j s.id s r.sessions, at, ==_iff s.id j, i.nonempty_id j u, filled);
}

-- Once the session that a wallet led to is revoked, no session of the wallet is active.
pub others_revoked :
    (now : ℕ) (wallet : String) (r : SessionStore) (id : String) (t : WalletSession)
    → Indexed r
    → (let q = revoke_existing now (nonempty (Dict.get wallet r.session_by_wallet)) r in
        Dict.get id q.sessions ≡ some t)
    → t.revoked_at ≡ none
    → (wallet == t.wallet_address) ≡ false
others_revoked now wallet r id t i at unrevoked =
    let existing = nonempty (Dict.get wallet r.session_by_wallet) in
    let q = revoke_existing-Indexed now existing r i in
    ground (
      arith,
      at,
      unrevoked,
      q.wallet_index id t,
      q.nonempty_id id t,
      revoke_existing-wallets now existing r,
      ==_iff wallet t.wallet_address,
      revoke_existing-is_revoked now wallet id r t,
    )

pub create_session-Indexed :
    (now : ℕ) (uuid wallet token : String) (chain_id : ℕ) (r : SessionStore)
    → (uuid == "") ≡ false
    → Dict.get uuid r.sessions ≡ none
    → Indexed r
    → Indexed ((create_session now uuid wallet token chain_id r).0)
unfolding create_session
create_session-Indexed now uuid wallet token chain_id r filled fresh i =
    let existing = nonempty (Dict.get wallet r.session_by_wallet) in
    insert_session-Indexed (new_session now uuid wallet token chain_id)
      (revoke_existing now existing r) filled (revoke_existing-fresh now uuid existing r fresh)
      (λ id t at unrevoked. others_revoked now wallet r id t i at unrevoked)
      (revoke_existing-Indexed now existing r i)

pub on_session-Indexed :
    (f : WalletSession → WalletSession) (id : String) (o : Option WalletSession) (r : SessionStore)
    → ((s : WalletSession) → Rewrites s (f s))
    → Dict.get id r.sessions ≡ o
    → Indexed r
    → Indexed (or_else (on_session f id o r) r)
on_session-Indexed f id none r w there i = i
on_session-Indexed f id (some s) r w there i = put_session-Indexed r id s (f s) there (w s) i

pub if_found-Indexed :
    (f : WalletSession → WalletSession) (id : String) (o : Option WalletSession) (r : SessionStore)
    → ((s : WalletSession) → Rewrites s (f s))
    → Dict.get id r.sessions ≡ o
    → Indexed r
    → Indexed (if_found f id o r)
if_found-Indexed f id none r w there i = i
if_found-Indexed f id (some s) r w there i = put_session-Indexed r id s (f s) there (w s) i

pub revoke_found-Indexed :
    (now : ℕ) (id : String) (o : Option WalletSession) (r : SessionStore)
    → Dict.get id r.sessions ≡ o
    → Indexed r
    → Indexed (revoke_found now id o r)
revoke_found-Indexed now id none r there i = i
revoke_found-Indexed now id (some s) r there i =
    forget_token-Indexed _ s.cookie_token
      (put_session-Indexed r id s (revoked now s) there (revoked-Rewrites now s) i)

pub SessionStep-Indexed : {r q : SessionStore} → SessionStep r q → Indexed r → Indexed q
unfolding update_session_key revoke_session delete_session_key touch_session
SessionStep-Indexed {r = r} (created now uuid wallet token chain_id filled fresh) i =
    create_session-Indexed now uuid wallet token chain_id r filled fresh i
SessionStep-Indexed {r = r} {q = q} (key_updated id key wallet expires result) i =
    subst (λ o. Indexed (or_else o r)) result
      (on_session-Indexed (with_key key wallet expires) id (Dict.get id r.sessions) r
        (λ s. record { id = refl; token = refl; wallet = refl; active = λ h. h }) refl i)
SessionStep-Indexed {r = r} (revocation now id) i =
    revoke_found-Indexed now id (Dict.get id r.sessions) r refl i
SessionStep-Indexed {r = r} (key_deleted id) i =
    if_found-Indexed without_key id (Dict.get id r.sessions) r
      (λ s. record { id = refl; token = refl; wallet = refl; active = λ h. h }) refl i
SessionStep-Indexed {r = r} (touching now id) i =
    if_found-Indexed (touched now) id (Dict.get id r.sessions) r
      (λ s. record { id = refl; token = refl; wallet = refl; active = λ h. h }) refl i

pub reached-Indexed : {r : SessionStore} → SessionsReach r → Indexed r
unfolding Dict.get
reached-Indexed no_sessions = record {
  token_index = λ token id found. ground (arith, found);
  wallet_index = λ id s at unrevoked. ground (arith, at);
  same_id = λ id s at. ground (arith, at);
  nonempty_id = λ id s at. ground (arith, at);
}
reached-Indexed (one_call reach step) = SessionStep-Indexed step (reached-Indexed reach)
