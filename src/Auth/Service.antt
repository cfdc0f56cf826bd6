-- ===== src/Auth/Service.antt =====
-- `AuthService` of apps/api/src/auth.ts. The hashes of crypto and argon2, the bytes of a text and
-- `toISOString` are parameters; what randomUUID, randomBytes and the clock give are arguments. `later` is
-- the tables when an awaited hash or verification is done.
use ollama_remote_control.Prelude.{
  ℕ, ◌+◌, Bool, not, ◌&&◌, ◌||◌, Option, none, some, List, leb, ltb, ◌==◌, text_eq, if◌then◌else◌,
  length, any, Result, ok, err, ◌>>=◌, require,
}
use ollama_remote_control.Modelfile.Chars.{Text, within, is_empty, trim}
use ollama_remote_control.Auth.Store.{
  UserRole, admin, StoredUser, SessionRow, StoredSession, AuthTables, AuthStoreError, count_users,
  create_admin_if_none_exists, find_user_by_username, create_session,
  find_active_session_by_token_hash, revoke_session,
}

pub record PublicUser : Type 0 where
  pub id : Text
  pub username : Text
  pub role : UserRole

pub record CreatedSession : Type 0 where
  pub user : PublicUser
  pub token : Text
  pub csrf_token : Text
  pub expires_at : Text

-- The codes of `AuthError`, and what the repository throws.
pub data AuthError : Type 0 where
  invalid_username invalid_password invalid_credentials bootstrap_complete : AuthError
  csrf_required csrf_invalid : AuthError
  store_error : AuthStoreError → AuthError

abbrev pub max_username_length : ℕ
max_username_length = 64

abbrev pub max_password_length : ℕ
max_password_length = 1024

abbrev pub default_session_ttl_ms : ℕ
default_session_ttl_ms = 43200000

abbrev pub public_user : StoredUser → PublicUser
public_user u = record { id = u.id; username = u.username; role = u.role }

-- `[A-Za-z0-9._-]`
abbrev pub is_username_char : ℕ → Bool
is_username_char c =
    within b'A' b'Z' c
    || within b'a' b'z' c
    || within b'0' b'9' c
    || c == b'.'
    || c == b'_'
    || c == b'-'

unfoldable pub validate_username : Text → Result AuthError Text
validate_username username =
    let normalized = trim username in
    if leb 3 (length normalized)
      && leb (length normalized) 64
      && not (any (λ c. not (is_username_char c)) normalized)
    then ok normalized
    else err invalid_username

unfoldable pub validate_password : Text → Result AuthError (Unit {0})
validate_password password =
    require (not (ltb (length password) 12 || ltb max_password_length (length password)))
      invalid_password

unfoldable pub assert_login_input_bounded : Text → Text → Result AuthError (Unit {0})
assert_login_input_bounded username password =
    require
      (not (ltb max_username_length (length username) || ltb max_password_length (length password)))
      invalid_credentials

unfoldable pub requires_bootstrap : AuthTables → Bool
requires_bootstrap t = count_users t == 0

-- The insertion that `bootstrapAdmin` ends with.
unfoldable pub finish_bootstrap :
    StoredUser → AuthTables → Result AuthError (PublicUser × AuthTables)
finish_bootstrap user later =
    let (inserted, t) = create_admin_if_none_exists user later in
    if inserted then ok (public_user user, t) else err bootstrap_complete

abbrev pub stored_session : Result AuthStoreError AuthTables → Result AuthError AuthTables
stored_session (ok t) = ok t
stored_session (err e) = err (store_error e)

module _ (digest_token : Text → Text) (hash : Text → Text) (verify : Text → Text → Bool)
    (bytes : Text → List ℕ) (iso : ℕ → Text) (session_ttl_ms : ℕ) where
  unfoldable pub bootstrap_admin :
      (username password id : Text) (now : ℕ) (t later : AuthTables)
      → Result AuthError (PublicUser × AuthTables)
  bootstrap_admin username password id now t later = do
    _ ← require (requires_bootstrap t) bootstrap_complete
    name ← validate_username username
    _ ← validate_password password
    finish_bootstrap
        (record {
          id = id;
          username = name;
          password_hash = hash password;
          role = admin;
          created_at = iso now;
        })
        later

  abbrev pub session_row : StoredUser → (token csrf id : Text) → ℕ → SessionRow
  session_row user token csrf id now = record {
    id = id;
    user_id = user.id;
    token_hash = digest_token token;
    csrf_token_hash = digest_token csrf;
    created_at = iso now;
    expires_at = iso (now + session_ttl_ms);
    revoked_at = none;
  }

  -- `login` behind the lookup of the user.
  unfoldable pub login_user :
      StoredUser
      → (password token csrf id : Text) (now : ℕ) (later : AuthTables)
      → Result AuthError (CreatedSession × AuthTables)
  login_user user password token csrf id now later = do
    _ ← require (verify user.password_hash password) invalid_credentials
    t ← stored_session (create_session (session_row user token csrf id now) later)
    ok (
      record {
        user = public_user user;
        token = token;
        csrf_token = csrf;
        expires_at = iso (now + session_ttl_ms);
      },
      t,
    )

  unfoldable pub login_found :
      Option StoredUser
      → (password token csrf id : Text) (now : ℕ) (later : AuthTables)
      → Result AuthError (CreatedSession × AuthTables)
  login_found none password token csrf id now later = err invalid_credentials
  login_found (some user) password token csrf id now later =
      login_user user password token csrf id now later

  unfoldable pub login :
      (username password token csrf id : Text) (now : ℕ) (t later : AuthTables)
      → Result AuthError (CreatedSession × AuthTables)
  login username password token csrf id now t later = do
    _ ← assert_login_input_bounded username password
    login_found (find_user_by_username (trim username) t) password token csrf id now later

  -- A missing token and an empty one are both falsy.
  unfoldable pub get_session : Option Text → ℕ → AuthTables → Option StoredSession
  get_session none now t = none
  get_session (some token) now t =
      if is_empty token
      then none
      else find_active_session_by_token_hash (digest_token token) (iso now) t

  unfoldable pub assert_csrf : StoredSession → Option Text → Result AuthError (Unit {0})
  assert_csrf session none = err csrf_required
  assert_csrf session (some csrf) =
      let provided = bytes (digest_token csrf) in
      let expected = bytes session.row.csrf_token_hash in
      if is_empty csrf
      then err csrf_required
      else if not (length provided == length expected) || not (text_eq provided expected)
      then err csrf_invalid
      else ok tt

  unfoldable pub logout : StoredSession → ℕ → AuthTables → AuthTables
  logout session now t = revoke_session session.row.id (iso now) t
