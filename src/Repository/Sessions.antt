-- ===== src/Repository/Sessions.antt =====
-- The methods of `InMemoryRepository` on sessions (apps/web/server/db/memory.ts). `now` is `new Date()`
-- and `uuid` is `randomUUID()`.
pub mod Indexed
pub mod Steps
pub mod Reached
pub mod Revoked
use wtfoc.Prelude.{
  ℕ, String, Bool, true, false, not, Option, none, some, List, ◌==◌, if◌then◌else◌, is_some,
  text_has_eq,
}
use wtfoc.Prelude.Dict
use wtfoc.Repository.{WalletSession, SessionStore}

-- `if (id)`: an id that is missing or empty is none.
abbrev pub nonempty : Option String → Option String
nonempty none = none
nonempty (some id) = if id == "" then none else some id

abbrev pub unless_revoked : Option WalletSession → Option WalletSession
unless_revoked none = none
unless_revoked (some s) = if is_some s.revoked_at then none else some s

abbrev pub found_session : Option String → SessionStore → Option WalletSession
found_session none r = none
found_session (some id) r = unless_revoked (Dict.get id r.sessions)

unfoldable pub get_session_by_token : String → SessionStore → Option WalletSession
get_session_by_token cookie_token r =
    found_session (nonempty (Dict.get cookie_token r.session_by_token)) r

unfoldable pub get_active_session_by_wallet : String → SessionStore → Option WalletSession
get_active_session_by_wallet wallet_address r =
    found_session (nonempty (Dict.get wallet_address r.session_by_wallet)) r

abbrev pub revoked : ℕ → WalletSession → WalletSession
revoked now s = record s { revoked_at = some now }

abbrev pub forget_token : String → SessionStore → SessionStore
forget_token token r = record r { session_by_token = Dict.delete token r.session_by_token }

abbrev pub put_session : String → WalletSession → SessionStore → SessionStore
put_session id s r = record r { sessions = Dict.set id s r.sessions }

-- `if (old && !old.revokedAt) { … }`
abbrev pub revoke_old : ℕ → String → Option WalletSession → SessionStore → SessionStore
revoke_old now id none r = r
revoke_old now id (some old) r =
    if is_some old.revoked_at
    then r
    else (if old.cookie_token == ""
        then put_session id (revoked now old) r
        else forget_token old.cookie_token (put_session id (revoked now old) r))

abbrev pub revoke_existing : ℕ → Option String → SessionStore → SessionStore
revoke_existing now none r = r
revoke_existing now (some id) r = revoke_old now id (Dict.get id r.sessions) r

abbrev pub new_session : ℕ → String → String → String → ℕ → WalletSession
new_session now uuid wallet_address cookie_token chain_id = record {
  id = uuid;
  wallet_address = wallet_address;
  cookie_token = cookie_token;
  session_key_encrypted = none;
  session_key_wallet_address = none;
  session_key_expires_at = none;
  chain_id = chain_id;
  created_at = now;
  last_used_at = now;
  revoked_at = none;
}

abbrev pub insert_session : WalletSession → SessionStore → SessionStore
insert_session s r = record {
  sessions = Dict.set s.id s r.sessions;
  session_by_token = Dict.set s.cookie_token s.id r.session_by_token;
  session_by_wallet = Dict.set s.wallet_address s.id r.session_by_wallet;
}

unfoldable pub create_session :
    ℕ → String → String → String → ℕ → SessionStore → SessionStore × WalletSession
create_session now uuid wallet_address cookie_token chain_id r =
    let s = new_session now uuid wallet_address cookie_token chain_id in
    let existing = nonempty (Dict.get wallet_address r.session_by_wallet) in
    (insert_session s (revoke_existing now existing r), s)

-- An operation on a session that is there; none is the error that it is not found.
abbrev pub on_session :
    (WalletSession → WalletSession)
    → String
    → Option WalletSession
    → SessionStore
    → Option SessionStore
on_session f id none r = none
on_session f id (some s) r = some (put_session id (f s) r)

abbrev pub with_key : List ℕ → String → ℕ → WalletSession → WalletSession
with_key encrypted wallet_address expires_at s = record s {
  session_key_encrypted = some encrypted;
  session_key_wallet_address = some wallet_address;
  session_key_expires_at = some expires_at;
}

unfoldable pub update_session_key :
    String → List ℕ → String → ℕ → SessionStore → Option SessionStore
update_session_key session_id encrypted wallet_address expires_at r =
    on_session (with_key encrypted wallet_address expires_at) session_id
      (Dict.get session_id r.sessions) r

abbrev pub revoke_found : ℕ → String → Option WalletSession → SessionStore → SessionStore
revoke_found now id none r = r
revoke_found now id (some s) r = forget_token s.cookie_token (put_session id (revoked now s) r)

unfoldable pub revoke_session : ℕ → String → SessionStore → SessionStore
revoke_session now session_id r = revoke_found now session_id (Dict.get session_id r.sessions) r

abbrev pub without_key : WalletSession → WalletSession
without_key s = record s {
  session_key_encrypted = none;
  session_key_wallet_address = none;
  session_key_expires_at = none;
}

abbrev pub touched : ℕ → WalletSession → WalletSession
touched now s = record s { last_used_at = now }

-- An operation that does nothing for a session that is missing.
abbrev pub if_found :
    (WalletSession → WalletSession) → String → Option WalletSession → SessionStore → SessionStore
if_found f id none r = r
if_found f id (some s) r = put_session id (f s) r

unfoldable pub delete_session_key : String → SessionStore → SessionStore
delete_session_key session_id r = if_found without_key session_id (Dict.get session_id r.sessions) r

unfoldable pub touch_session : ℕ → String → SessionStore → SessionStore
touch_session now session_id r =
    if_found (touched now) session_id (Dict.get session_id r.sessions) r
