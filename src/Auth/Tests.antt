-- ===== src/Auth/Tests.antt =====
-- Runs of the authentication with plain hashes, and the theorems about it at these runs.
use ollama_remote_control.Prelude.{
  ℕ, ◌+◌, ◌≤◌, ◌<◌, ◌≡◌, refl, some, none, [], ◌∷◌, arith, length, text_eq, ok, err, any,
}
use ollama_remote_control.Modelfile.Chars.{Text, codes, is_space, trim, trim_start, trim_end}
use ollama_remote_control.Auth.Store.{
  admin, StoredUser, StoredSession, SessionRow, AuthTables, create_session,
  find_active_session_by_token_hash, find_user_by_username, count_users,
  create_admin_if_none_exists,
}
use ollama_remote_control.Auth.Service.{
  PublicUser, CreatedSession, bootstrap_complete, csrf_invalid, invalid_credentials, session_row,
  bootstrap_admin, login, login_user, login_found, get_session, assert_csrf, logout,
  validate_username, validate_password, assert_login_input_bounded, requires_bootstrap,
  finish_bootstrap,
}
use ollama_remote_control.Auth.Sessions.{login-session}
use ollama_remote_control.Auth.Steps.{
  Reached, started, bootstrapped, logged_in, Reached-one_admin, logout-final,
}

abbrev plain : Text → Text
plain t = t

abbrev plain_iso : ℕ → Text
plain_iso n = n ∷ []

abbrev no_tables : AuthTables
no_tables = record { users = []; sessions = [] }

abbrev root : StoredUser
root = record {
  id = codes "u1";
  username = codes "root";
  password_hash = codes "longpassword";
  role = admin;
  created_at = plain_iso 5;
}

abbrev root_user : PublicUser
root_user = record { id = codes "u1"; username = codes "root"; role = admin }

abbrev with_root : AuthTables
with_root = record { users = root ∷ []; sessions = [] }

abbrev root_row : SessionRow
root_row =
    session_row plain plain text_eq plain plain_iso 100 root (codes "t") (codes "c") (codes "s1") 7

abbrev with_session : AuthTables
with_session = record { users = root ∷ []; sessions = root_row ∷ [] }

abbrev root_session : StoredSession
root_session = record { row = root_row; username = codes "root"; role = admin }

abbrev root_created : CreatedSession
root_created = record {
  user = root_user;
  token = codes "t";
  csrf_token = codes "c";
  expires_at = plain_iso 107;
}

bootstraps :
    bootstrap_admin plain plain text_eq plain plain_iso 100
      (codes " root ")
      (codes "longpassword")
      (codes "u1")
      5
      no_tables
      no_tables
    ≡ ok (root_user, with_root)
unfolding bootstrap_admin requires_bootstrap count_users validate_username validate_password
    finish_bootstrap create_admin_if_none_exists trim trim_start trim_end is_space any
bootstraps = refl

-- Of two first administrators at once the second one is refused.
bootstraps_once :
    bootstrap_admin plain plain text_eq plain plain_iso 100
      (codes "other")
      (codes "longpassword")
      (codes "u2")
      6
      no_tables
      with_root
    ≡ err bootstrap_complete
unfolding bootstrap_admin requires_bootstrap count_users validate_username validate_password
    finish_bootstrap create_admin_if_none_exists trim trim_start trim_end is_space any
bootstraps_once = refl

logs_in :
    login plain plain text_eq plain plain_iso 100
      (codes "ROOT")
      (codes "longpassword")
      (codes "t")
      (codes "c")
      (codes "s1")
      7
      with_root
      with_root
    ≡ ok (root_created, with_session)
unfolding login login_found login_user assert_login_input_bounded find_user_by_username
    create_session trim trim_start trim_end is_space any
logs_in = refl

fails_to_log_in :
    login plain plain text_eq plain plain_iso 100
      (codes "root")
      (codes "wrong")
      (codes "t")
      (codes "c")
      (codes "s1")
      7
      with_root
      with_root
    ≡ err invalid_credentials
unfolding login login_found login_user assert_login_input_bounded find_user_by_username
    create_session trim trim_start trim_end is_space any
fails_to_log_in = refl

finds_session :
    get_session plain plain text_eq plain plain_iso 100 (some (codes "t")) 9 with_session
    ≡ some root_session
unfolding get_session find_active_session_by_token_hash any
finds_session = refl

checks_csrf :
    (assert_csrf plain plain text_eq plain plain_iso 100 root_session (some (codes "c")) ≡ ok tt)
    × (assert_csrf plain plain text_eq plain plain_iso 100 root_session (some (codes "d"))
        ≡ err csrf_invalid)
unfolding assert_csrf
checks_csrf = (refl, refl)

login-session_example :
    (50 < 7 + 100
      → (s : StoredSession) × (get_session plain plain text_eq plain plain_iso 100
            (some (codes "t"))
            50
            with_session
          ≡ some s)
        × (s.row.user_id ≡ codes "u1"))
    × (7 + 100 ≤ 50
        → get_session plain plain text_eq plain plain_iso 100 (some (codes "t")) 50 with_session
          ≡ none)
login-session_example =
    login-session plain plain text_eq plain plain_iso 100 (codes "ROOT") (codes "longpassword")
      (codes "t") (codes "c") (codes "s1") 7 with_root with_root logs_in refl 50 refl

reached_session : Reached plain plain text_eq plain plain_iso 100 no_tables with_session
reached_session =
    logged_in (codes "ROOT") (codes "longpassword") (codes "t") (codes "c") (codes "s1") 7 with_root
      with_root
      (bootstrapped (codes " root ") (codes "longpassword") (codes "u1") 5 no_tables no_tables
        started bootstraps)
      logs_in

Reached-one_admin_example : length with_session.users ≤ 1
Reached-one_admin_example =
    Reached-one_admin plain plain text_eq plain plain_iso 100 {start = no_tables} (omega arith)
      reached_session

logout-final_example :
    get_session plain plain text_eq plain plain_iso 100
      (some (codes "t"))
      12
      (logout plain plain text_eq plain plain_iso 100 root_session 10 with_session)
    ≡ none
logout-final_example =
    logout-final plain plain text_eq plain plain_iso 100 {start = no_tables} (codes "t") 9 tt
      reached_session finds_session 10 started 12
