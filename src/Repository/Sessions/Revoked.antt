-- ===== src/Repository/Sessions/Revoked.antt =====
-- apps/web/server/db/memory.ts: what later calls leave of the revocation of a session.
use mathlib.Core.Path.{subst}
use wtfoc.Prelude.{
  ℕ, String, Bool, true, false, Option, none, some, inl, inr, ◌≡◌, ◌≢◌, refl, ◌==◌, ==_iff, ==_refl,
  is_some, or_else, Bool-cases, text_has_eq, arith,
}
use wtfoc.Prelude.Dict
use wtfoc.Prelude.Dict.{get-set}
use wtfoc.Repository.{WalletSession, SessionStore}
use wtfoc.Repository.Sessions.{
  nonempty, get_session_by_token, revoked, put_session, revoke_old, revoke_existing, new_session,
  insert_session, create_session, on_session, with_key, update_session_key, revoke_found,
  revoke_session, without_key, touched, if_found, delete_session_key, touch_session,
}
use wtfoc.Repository.Sessions.Indexed.{Rewrites, revoked-Rewrites}
use wtfoc.Repository.Sessions.Steps.{
  SessionStep, created, key_updated, revocation, key_deleted, touching, SessionsReach, one_call,
}
use wtfoc.Repository.Sessions.Reached.{token_leads_to_active}

-- The states that the calls make of a state.
pub data Later (r : SessionStore) : SessionStore → Type 0 where
  at_once : Later r r
  and_then : {q q' : SessionStore} → Later r q → SessionStep q q' → Later r q'

abbrev is_gone : Option WalletSession → Bool
is_gone none = false
is_gone (some s) = is_some s.revoked_at

-- The session is stored, and it is revoked.
abbrev pub IsRevoked : String → SessionStore → Type 0
IsRevoked id r = is_gone (Dict.get id r.sessions) ≡ true

put_session-IsRevoked :
    (r : SessionStore) (id j : String) (s t : WalletSession)
    → Dict.get j r.sessions ≡ some s
    → Rewrites s t
    → IsRevoked id r
    → IsRevoked id (put_session j t r)
put_session-IsRevoked r id j s t there w gone = elim (Bool-cases (j == id)) [
  | inl same ↦ ground (arith, get-set id j t r.sessions, same, there, ==_iff j id, gone, w.active)
  | inr other ↦ ground (arith, get-set id j t r.sessions, other, gone)
]

revoke_old-IsRevoked :
    (now : ℕ) (id j : String) (o : Option WalletSession) (r : SessionStore)
    → Dict.get j r.sessions ≡ o
    → IsRevoked id r
    → IsRevoked id (revoke_old now j o r)
revoke_old-IsRevoked now id j none r there gone = gone
revoke_old-IsRevoked now id j (some old) r there gone =
    let put =
      put_session-IsRevoked r id j old (revoked now old) there (revoked-Rewrites now old) gone in
    elim (Bool-cases (is_some old.revoked_at)) [
      | inl ended ↦ rw ended gone
      | inr live ↦ elim (Bool-cases (old.cookie_token == "")) [
        | inl blank ↦ rw (live, blank) put
        | inr token ↦ rw (live, token) put
      ]
    ]

revoke_existing-IsRevoked :
    (now : ℕ) (id : String) (existing : Option String) (r : SessionStore)
    → IsRevoked id r
    → IsRevoked id (revoke_existing now existing r)
revoke_existing-IsRevoked now id none r gone = gone
revoke_existing-IsRevoked now id (some j) r gone =
    revoke_old-IsRevoked now id j (Dict.get j r.sessions) r refl gone

-- The id of a new session is not the id of one that is stored.
insert_session-IsRevoked :
    (id : String) (s : WalletSession) (r q : SessionStore)
    → Dict.get s.id r.sessions ≡ none
    → IsRevoked id r
    → IsRevoked id q
    → IsRevoked id (insert_session s q)
insert_session-IsRevoked id s r q fresh gone later = elim (Bool-cases (s.id == id)) [
  | inl same ↦ ground (arith, same, fresh, gone, ==_iff s.id id)
  | inr other ↦ ground (arith, get-set id s.id s q.sessions, other, later)
]

on_session-IsRevoked :
    (f : WalletSession → WalletSession) (id j : String) (o : Option WalletSession)
    (r : SessionStore)
    → ((s : WalletSession) → Rewrites s (f s))
    → Dict.get j r.sessions ≡ o
    → IsRevoked id r
    → IsRevoked id (or_else (on_session f j o r) r)
on_session-IsRevoked f id j none r w there gone = gone
on_session-IsRevoked f id j (some s) r w there gone =
    put_session-IsRevoked r id j s (f s) there (w s) gone

if_found-IsRevoked :
    (f : WalletSession → WalletSession) (id j : String) (o : Option WalletSession)
    (r : SessionStore)
    → ((s : WalletSession) → Rewrites s (f s))
    → Dict.get j r.sessions ≡ o
    → IsRevoked id r
    → IsRevoked id (if_found f j o r)
if_found-IsRevoked f id j none r w there gone = gone
if_found-IsRevoked f id j (some s) r w there gone =
    put_session-IsRevoked r id j s (f s) there (w s) gone

revoke_found-IsRevoked :
    (now : ℕ) (id j : String) (o : Option WalletSession) (r : SessionStore)
    → Dict.get j r.sessions ≡ o
    → IsRevoked id r
    → IsRevoked id (revoke_found now j o r)
revoke_found-IsRevoked now id j none r there gone = gone
revoke_found-IsRevoked now id j (some s) r there gone =
    put_session-IsRevoked r id j s (revoked now s) there (revoked-Rewrites now s) gone

-- No call takes a revocation back.
pub SessionStep-IsRevoked :
    {r q : SessionStore} (id : String) → SessionStep r q → IsRevoked id r → IsRevoked id q
unfolding create_session update_session_key revoke_session delete_session_key touch_session
SessionStep-IsRevoked {r = r} id (created now uuid wallet token chain_id filled fresh) gone =
    let existing = nonempty (Dict.get wallet r.session_by_wallet) in
    insert_session-IsRevoked id (new_session now uuid wallet token chain_id) r
      (revoke_existing now existing r) fresh gone (revoke_existing-IsRevoked now id existing r gone)
SessionStep-IsRevoked {r = r} id (key_updated j key wallet expires result) gone =
    subst (λ o. IsRevoked id (or_else o r)) result
      (on_session-IsRevoked (with_key key wallet expires) id j (Dict.get j r.sessions) r
        (λ s. record { id = refl; token = refl; wallet = refl; active = λ h. h }) refl gone)
SessionStep-IsRevoked {r = r} id (revocation now j) gone =
    revoke_found-IsRevoked now id j (Dict.get j r.sessions) r refl gone
SessionStep-IsRevoked {r = r} id (key_deleted j) gone =
    if_found-IsRevoked without_key id j (Dict.get j r.sessions) r
      (λ s. record { id = refl; token = refl; wallet = refl; active = λ h. h }) refl gone
SessionStep-IsRevoked {r = r} id (touching now j) gone =
    if_found-IsRevoked (touched now) id j (Dict.get j r.sessions) r
      (λ s. record { id = refl; token = refl; wallet = refl; active = λ h. h }) refl gone

Later-IsRevoked : {r q : SessionStore} (id : String) → Later r q → IsRevoked id r → IsRevoked id q
Later-IsRevoked id at_once gone = gone
Later-IsRevoked id (and_then later step) gone =
    SessionStep-IsRevoked id step (Later-IsRevoked id later gone)

Later-SessionsReach : {r q : SessionStore} → SessionsReach r → Later r q → SessionsReach q
Later-SessionsReach reach at_once = reach
Later-SessionsReach reach (and_then later step) = one_call (Later-SessionsReach reach later) step

revoke_session-IsRevoked :
    (now : ℕ) (id : String) (s : WalletSession) (r : SessionStore)
    → Dict.get id r.sessions ≡ some s
    → IsRevoked id (revoke_session now id r)
unfolding revoke_session
revoke_session-IsRevoked now id s r there =
    rw there (ground (arith, get-set id id (revoked now s) r.sessions, ==_refl id))

-- Once `revokeSession` was called for a stored session in a state that the calls reach, no token leads
-- to that session, neither at once nor after any further calls: no sign-in, change of the session
-- key, touch or revocation brings it back.
pub revoked_is_gone :
    {r q : SessionStore} (now : ℕ) (id token : String) (t s : WalletSession)
    → SessionsReach r
    → Dict.get id r.sessions ≡ some t
    → Later (revoke_session now id r) q
    → get_session_by_token token q ≡ some s
    → s.id ≢ id
revoked_is_gone {r = r} {q = q} now id token t s reach there later found same =
    let reached = Later-SessionsReach (one_call reach (revocation now id)) later in
    let a = token_leads_to_active token s reached found in
    let gone = Later-IsRevoked id later (revoke_session-IsRevoked now id t r there) in
    ground (arith, a.stored, a.unrevoked, same, gone)
