-- ===== src/Auth/Store.antt =====
-- `SqliteAuthRepository` of packages/db/src/index.ts, with the constraints of
-- packages/db/migrations/0002_identity_sessions.sql.
use ollama_remote_control.Prelude.{
  ℕ, ◌+◌, Bool, true, false, ◌&&◌, ◌||◌, Option, none, some, List, [], ◌∷◌, ◌++◌, map, ltb, text_eq,
  if◌then◌else◌, length, find, any, Result, ok, err,
}
use ollama_remote_control.Modelfile.Chars.{Text, within}

pub data UserRole : Type 0 where
  admin : UserRole

pub record StoredUser : Type 0 where
  pub id : Text
  pub username : Text
  pub password_hash : Text
  pub role : UserRole
  pub created_at : Text

-- A row of `sessions`.
pub record SessionRow : Type 0 where
  pub id : Text
  pub user_id : Text
  pub token_hash : Text
  pub csrf_token_hash : Text
  pub created_at : Text
  pub expires_at : Text
  pub revoked_at : Option Text

-- A session with the name and the role of its user.
pub record StoredSession : Type 0 where
  pub row : SessionRow
  pub username : Text
  pub role : UserRole

pub record AuthTables : Type 0 where
  pub users : List StoredUser
  pub sessions : List SessionRow

pub data AuthStoreError : Type 0 where
  unknown_user duplicate_session : AuthStoreError

-- `COLLATE NOCASE` folds the letters of ASCII.
abbrev pub fold_case : ℕ → ℕ
fold_case c = if within b'A' b'Z' c then c + 32 else c

abbrev pub same_username : Text → StoredUser → Bool
same_username name u = text_eq (map fold_case u.username) (map fold_case name)

-- The order of texts by their code units.
abbrev pub text_before : Text → Text → Bool
text_before s [] = false
text_before [] (d ∷ t) = true
text_before (c ∷ s) (d ∷ t) = ltb c d || (text_eq (c ∷ []) (d ∷ []) && text_before s t)

unfoldable pub count_users : AuthTables → ℕ
count_users t = length t.users

-- Whether the row was inserted, and the tables behind that.
abbrev pub insert_first : StoredUser → AuthTables → List StoredUser → Bool × AuthTables
insert_first user t [] = (true, record t { users = user ∷ [] })
insert_first user t (other ∷ others) = (false, t)

unfoldable pub create_admin_if_none_exists : StoredUser → AuthTables → Bool × AuthTables
create_admin_if_none_exists user t = insert_first user t t.users

unfoldable pub find_user_by_username : Text → AuthTables → Option StoredUser
find_user_by_username name t = find (same_username name) t.users

abbrev pub is_user : Text → StoredUser → Bool
is_user id u = text_eq u.id id

abbrev pub clashes : SessionRow → SessionRow → Bool
clashes new old = text_eq old.id new.id || text_eq old.token_hash new.token_hash

unfoldable pub create_session : SessionRow → AuthTables → Result AuthStoreError AuthTables
create_session row t =
    if any (clashes row) t.sessions
    then err duplicate_session
    else if any (is_user row.user_id) t.users
    then ok (record t { sessions = t.sessions ++ (row ∷ []) })
    else err unknown_user

abbrev pub is_open : Option Text → Bool
is_open none = true
is_open (some at) = false

-- The condition on a row of `sessions` that a user stands for.
abbrev pub is_active_session : Text → Text → SessionRow → Bool
is_active_session token_hash now_iso s =
    text_eq s.token_hash token_hash && is_open s.revoked_at && text_before now_iso s.expires_at

abbrev pub with_user : SessionRow → StoredUser → StoredSession
with_user row u = record { row = row; username = u.username; role = u.role }

-- The session of a row with its user, as the statement joins them.
abbrev pub joined_session : List StoredUser → Option SessionRow → Option StoredSession
joined_session users none = none
joined_session users (some row) = elim (find (is_user row.user_id) users) [
  | none ↦ none
  | some u ↦ some (with_user row u)
]

unfoldable pub find_active_session_by_token_hash : Text → Text → AuthTables → Option StoredSession
find_active_session_by_token_hash token_hash now_iso t = joined_session t.users (
    find (λ s. is_active_session token_hash now_iso s && any (is_user s.user_id) t.users)
      t.sessions)

abbrev pub revoke_row : Text → Text → SessionRow → SessionRow
revoke_row id revoked_at s =
    if text_eq s.id id && is_open s.revoked_at then record s { revoked_at = some revoked_at } else s

unfoldable pub revoke_session : Text → Text → AuthTables → AuthTables
revoke_session id revoked_at t = record t { sessions = map (revoke_row id revoked_at) t.sessions }
