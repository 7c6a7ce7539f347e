-- ===== src/Repository/Sessions/Indexed.antt =====
-- apps/web/server/db/memory.ts: the indexes of the sessions are kept by every method.
use wtfoc.Prelude.{
  ℕ, String, true, false, Option, none, some, inl, inr, ◌≡◌, refl, ◌==◌, ==_iff, ==_refl, is_some,
  Bool-cases, text_has_eq, arith,
}
use wtfoc.Prelude.Dict
use wtfoc.Prelude.Dict.{Dict, get-set, get-delete}
use wtfoc.Repository.{WalletSession, SessionStore}
use wtfoc.Repository.Sessions.{
  nonempty, revoked, forget_token, put_session, revoke_old, revoke_existing,
}

-- A token leads to the session that has it, and the wallet of an active session to that session.
pub record Indexed (r : SessionStore) : Type 0 where
  pub token_index :
      (token id : String)
      → Dict.get token r.session_by_token ≡ some id
      → (s : WalletSession) × (Dict.get id r.sessions ≡ some s) × (s.cookie_token ≡ token)
  pub wallet_index :
      (id : String) (s : WalletSession)
      → Dict.get id r.sessions ≡ some s
      → s.revoked_at ≡ none
      → Dict.get s.wallet_address r.session_by_wallet ≡ some id
  pub same_id : (id : String) (s : WalletSession) → Dict.get id r.sessions ≡ some s → s.id ≡ id
  pub nonempty_id :
      (id : String) (s : WalletSession) → Dict.get id r.sessions ≡ some s → (id == "") ≡ false

-- What a write may change of a session: it may revoke it, but never the other way round.
pub record Rewrites (s t : WalletSession) : Type 0 where
  pub id : t.id ≡ s.id
  pub token : t.cookie_token ≡ s.cookie_token
  pub wallet : t.wallet_address ≡ s.wallet_address
  pub active : t.revoked_at ≡ none → s.revoked_at ≡ none

pub put_session-Indexed :
    (r : SessionStore) (id : String) (s t : WalletSession)
    → Dict.get id r.sessions ≡ some s
    → Rewrites s t
    → Indexed r
    → Indexed (put_session id t r)
put_session-Indexed r id s t there w i = record {
  token_index = λ token j found.
      let (u, at, same) = i.token_index token j found in
      elim (Bool-cases (id == j)) [
        | inl here ↦ (
          t,
          ground (arith, get-set j id t r.sessions, here),
          ground (arith, at, there, same, w.token, ==_iff id j, here),
        )
        | inr other ↦ (u, ground (arith, get-set j id t r.sessions, other, at), same)
      ];
  wallet_index = λ j u at unrevoked. elim (Bool-cases (id == j)) [
    | inl here ↦ ground (
      arith,
      get-set j id t r.sessions,
      here,
      at,
      unrevoked,
      there,
      w.wallet,
      w.active,
      ==_iff id j,
      i.wallet_index id s,
    )
    | inr other ↦
        ground (arith, get-set j id t r.sessions, other, at, unrevoked, i.wallet_index j u)
  ];
  same_id = λ j u at. elim (Bool-cases (id == j)) [
    | inl here ↦
        ground
          (arith, get-set j id t r.sessions, here, at, there, w.id, ==_iff id j, i.same_id id s)
    | inr other ↦ ground (arith, get-set j id t r.sessions, other, at, i.same_id j u)
  ];
  nonempty_id = λ j u at. elim (Bool-cases (id == j)) [
    | inl here ↦ ground (arith, there, ==_iff id j, here, i.nonempty_id id s)
    | inr other ↦ ground (arith, get-set j id t r.sessions, other, at, i.nonempty_id j u)
  ];
}

pub forget_token-Indexed :
    (r : SessionStore) (token : String) → Indexed r → Indexed (forget_token token r)
forget_token-Indexed r token i = record {
  token_index = λ t id found.
      i.token_index t id (ground (arith, get-delete t token r.session_by_token, found));
  wallet_index = i.wallet_index;
  same_id = i.same_id;
  nonempty_id = i.nonempty_id;
}

pub revoked-Rewrites : (now : ℕ) (s : WalletSession) → Rewrites s (revoked now s)
revoked-Rewrites now s = record {
  id = refl;
  token = refl;
  wallet = refl;
  active = λ h. ground (arith, h);
}

revoke_old-Indexed :
    (now : ℕ) (id : String) (o : Option WalletSession) (r : SessionStore)
    → Dict.get id r.sessions ≡ o
    → Indexed r
    → Indexed (revoke_old now id o r)
revoke_old-Indexed now id none r there i = i
revoke_old-Indexed now id (some old) r there i =
    let put = put_session-Indexed r id old (revoked now old) there (revoked-Rewrites now old) i in
    elim (Bool-cases (is_some old.revoked_at)) [
      | inl gone ↦ rw gone i
      | inr active ↦ elim (Bool-cases (old.cookie_token == "")) [
        | inl blank ↦ rw (active, blank) put
        | inr token ↦ rw (active, token) (forget_token-Indexed _ old.cookie_token put)
      ]
    ]

revoke_old-is_revoked :
    (now : ℕ) (id : String) (o : Option WalletSession) (r : SessionStore) (s : WalletSession)
    → Dict.get id r.sessions ≡ o
    → Dict.get id ((revoke_old now id o r).sessions) ≡ some s
    → is_some s.revoked_at ≡ true
revoke_old-is_revoked now id none r s there at = ground (arith, there, at)
revoke_old-is_revoked now id (some old) r s there at =
    ground (arith, there, at, get-set id id (revoked now old) r.sessions, ==_refl id)

revoke_old-wallets :
    (now : ℕ) (id : String) (o : Option WalletSession) (r : SessionStore)
    → (revoke_old now id o r).session_by_wallet ≡ r.session_by_wallet
revoke_old-wallets now id none r = refl
revoke_old-wallets now id (some old) r = ground arith

pub revoke_existing-Indexed :
    (now : ℕ) (existing : Option String) (r : SessionStore)
    → Indexed r
    → Indexed (revoke_existing now existing r)
revoke_existing-Indexed now none r i = i
revoke_existing-Indexed now (some id) r i =
    revoke_old-Indexed now id (Dict.get id r.sessions) r refl i

pub revoke_existing-wallets :
    (now : ℕ) (existing : Option String) (r : SessionStore)
    → (revoke_existing now existing r).session_by_wallet ≡ r.session_by_wallet
revoke_existing-wallets now none r = refl
revoke_existing-wallets now (some id) r = revoke_old-wallets now id (Dict.get id r.sessions) r

-- The session that the wallet led to is not active any more.
pub revoke_existing-is_revoked :
    (now : ℕ) (wallet id : String) (r : SessionStore) (s : WalletSession)
    → Dict.get wallet r.session_by_wallet ≡ some id
    → (id == "") ≡ false
    → Dict.get id
        ((revoke_existing now (nonempty (Dict.get wallet r.session_by_wallet)) r).sessions)
      ≡ some s
    → is_some s.revoked_at ≡ true
revoke_existing-is_revoked now wallet id r s led blank =
    rw (led, blank) (revoke_old-is_revoked now id (Dict.get id r.sessions) r s refl)

revoke_old-fresh :
    (now : ℕ) (id uuid : String) (o : Option WalletSession) (r : SessionStore)
    → Dict.get id r.sessions ≡ o
    → Dict.get uuid r.sessions ≡ none
    → Dict.get uuid ((revoke_old now id o r).sessions) ≡ none
revoke_old-fresh now id uuid none r there fresh = fresh
revoke_old-fresh now id uuid (some old) r there fresh =
    ground (arith, there, fresh, get-set uuid id (revoked now old) r.sessions, ==_iff id uuid)

-- An id that was not used is not used after a revocation.
pub revoke_existing-fresh :
    (now : ℕ) (uuid : String) (existing : Option String) (r : SessionStore)
    → Dict.get uuid r.sessions ≡ none
    → Dict.get uuid ((revoke_existing now existing r).sessions) ≡ none
revoke_existing-fresh now uuid none r fresh = fresh
revoke_existing-fresh now uuid (some id) r fresh =
    revoke_old-fresh now id uuid (Dict.get id r.sessions) r refl fresh
