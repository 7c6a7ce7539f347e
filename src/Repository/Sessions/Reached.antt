-- ===== src/Repository/Sessions/Reached.antt =====
-- apps/web/server/db/memory.ts: the methods on sessions as steps, and what holds of every state that
-- they reach.
use wtfoc.Prelude.{String, Option, none, some, ◌≡◌, refl, text_has_eq, arith}
use wtfoc.Prelude.Dict
use wtfoc.Prelude.Dict.{Dict, get-set, get-delete}
use wtfoc.Repository.{WalletSession, SessionStore}
use wtfoc.Repository.Sessions.{
  nonempty, found_session, get_session_by_token, get_active_session_by_wallet,
}
use wtfoc.Repository.Sessions.Indexed.{Indexed}
use wtfoc.Repository.Sessions.Steps.{SessionsReach, reached-Indexed}

-- In every state that the calls reach, a wallet has at most one session that is not revoked.
pub one_active_session :
    {r : SessionStore} (i j : String) (s t : WalletSession)
    → SessionsReach r
    → Dict.get i r.sessions ≡ some s
    → Dict.get j r.sessions ≡ some t
    → s.revoked_at ≡ none
    → t.revoked_at ≡ none
    → s.wallet_address ≡ t.wallet_address
    → i ≡ j
one_active_session i j s t reach at_i at_j live_i live_j same =
    let x = reached-Indexed reach in
    ground (arith, x.wallet_index i s at_i live_i, x.wallet_index j t at_j live_j, same)

-- What a lookup by token promises of its answer.
pub record Authentic (token : String) (s : WalletSession) (r : SessionStore) : Type 0 where
  pub same_token : s.cookie_token ≡ token
  pub unrevoked : s.revoked_at ≡ none
  pub by_wallet : get_active_session_by_wallet s.wallet_address r ≡ some s
  pub stored : Dict.get s.id r.sessions ≡ some s

found_by_token :
    (token : String) (r : SessionStore) (id : Option String) (s : WalletSession)
    → Indexed r
    → Dict.get token r.session_by_token ≡ id
    → found_session (nonempty id) r ≡ some s
    → Authentic token s r
unfolding get_active_session_by_wallet
found_by_token token r none s i led found = record {
  same_token = ground (arith, found);
  unrevoked = ground (arith, found);
  by_wallet = ground (arith, found);
  stored = ground (arith, found);
}
found_by_token token r (some id) s i led found =
    let (t, at, same) = i.token_index token id led in
    let filled = i.nonempty_id id t at in
    let here : t ≡ s = ground (arith, at, filled, found) in
    let live : s.revoked_at ≡ none = ground (arith, at, filled, found) in
    let at_s : Dict.get id r.sessions ≡ some s = ground (arith, at, here) in
    record {
      same_token = ground (arith, here, same);
      unrevoked = live;
      by_wallet = ground (arith, i.wallet_index id s at_s live, filled, at_s, live);
      stored = ground (arith, i.same_id id s at_s, at_s);
    }

-- In every state that the calls reach, the session that a token leads to has that token, is not
-- revoked, is stored under its own id, and is the one that the lookup by its wallet answers.
pub token_leads_to_active :
    {r : SessionStore} (token : String) (s : WalletSession)
    → SessionsReach r
    → get_session_by_token token r ≡ some s
    → Authentic token s r
unfolding get_session_by_token
token_leads_to_active {r = r} token s reach found =
    found_by_token token r (Dict.get token r.session_by_token) s (reached-Indexed reach) refl found
