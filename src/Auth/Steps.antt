-- ===== src/Auth/Steps.antt =====
-- Requests in any order: the one administrator, and the end of a session.
use ollama_remote_control.Prelude.{
  require, if◌then◌else◌, ℕ, ◌≤◌, ◌≡◌, refl, sym, ap, ◌∙◌, inl, inr, Bool, true, Bool-cases, Option,
  none, some, List, [], ◌∷◌, arith, length, any, find, Result, ok, err, bind-eq-ok, ok-injective,
}
use ollama_remote_control.Modelfile.Chars.{Text, is_empty}
use ollama_remote_control.Auth.Store.{
  is_user, with_user, insert_first, StoredUser, SessionRow, StoredSession, AuthTables,
  create_admin_if_none_exists, joined_session, find_active_session_by_token_hash, revoke_session,
}
use ollama_remote_control.Auth.Service.{
  bootstrap_complete, public_user, AuthError, PublicUser, CreatedSession, requires_bootstrap,
  validate_username, validate_password, finish_bootstrap, bootstrap_admin, login, get_session,
  logout,
}
use ollama_remote_control.Auth.Sessions.{login-IsLogin}
use ollama_remote_control.Auth.Revoked.{
  Distinct, Revoked, has_hash, concat-Distinct, revoke-Distinct, has_hash-revoke, revoke-Revoked,
  concat-Revoked, Revoked-find, find-Revoked, any-concat,
}

-- What an insertion of an administrator has found and done.
finish_bootstrap-first :
    (user : StoredUser) (later : AuthTables) {who : PublicUser} {u : AuthTables}
    → finish_bootstrap user later ≡ ok (who, u)
    → (later.users ≡ []) × (u.users ≡ user ∷ []) × (u.sessions ≡ later.sessions)
unfolding finish_bootstrap create_admin_if_none_exists
finish_bootstrap-first user later {who} {u} h = go later.users h
  where
    go :
        (users : List StoredUser)
        → ◌≡◌ {A = Result AuthError (PublicUser × AuthTables)}
            (if (insert_first user later users).0
              then ok (public_user user, (insert_first user later users).1)
              else err bootstrap_complete)
            (ok (who, u))
        → (users ≡ []) × (u.users ≡ user ∷ []) × (u.sessions ≡ later.sessions)
    go [] h =
        let made : record later { users = user ∷ [] } ≡ u = ap (λ p. p.1) (ok-injective h) in
        (refl, ap (λ t. t.users) (sym made), ap (λ t. t.sessions) (sym made))
    go (x ∷ xs) h = absurd (cc h)

joined_session-row :
    (users : List StoredUser) (found : Option SessionRow) {s : StoredSession}
    → joined_session users found ≡ some s
    → found ≡ some s.row
joined_session-row users none h = absurd (cc h)
joined_session-row users (some row) {s} h = go (find (is_user row.user_id) users) h
  where
    go :
        (found : Option StoredUser)
        → ◌≡◌ {A = Option StoredSession}
            (elim found [ none ↦ none | some u ↦ some (with_user row u) ])
            (some s)
        → some row ≡ some s.row
    go none h = absurd (cc h)
    go (some u) h = let made : with_user row u ≡ s = cc h in ap (λ x. some x.row) made

module _ (digest_token : Text → Text) (hash : Text → Text) (verify : Text → Text → Bool)
    (bytes : Text → List ℕ) (iso : ℕ → Text) (session_ttl_ms : ℕ) where
  -- The requests that write, one behind the other, where each has read the tables at some time before.
  pub data Reached (start : AuthTables) : AuthTables → Type 0 where
    started : Reached start start
    bootstrapped :
        (username password id : Text) (now : ℕ) (t later : AuthTables) {who : PublicUser}
        {u : AuthTables}
        → Reached start later
        → bootstrap_admin digest_token hash verify bytes iso session_ttl_ms username password id now
            t later
          ≡ ok (who, u)
        → Reached start u
    logged_in :
        (username password token csrf id : Text) (now : ℕ) (t later : AuthTables)
        {created : CreatedSession} {u : AuthTables}
        → Reached start later
        → login digest_token hash verify bytes iso session_ttl_ms username password token csrf id
            now t later
          ≡ ok (created, u)
        → Reached start u
    logged_out :
        (session : StoredSession) (now : ℕ) {t : AuthTables}
        → Reached start t
        → Reached start (logout digest_token hash verify bytes iso session_ttl_ms session now t)

  bootstrap_admin-first :
      (username password id : Text) (now : ℕ) (t later : AuthTables) {who : PublicUser}
      {u : AuthTables}
      → bootstrap_admin digest_token hash verify bytes iso session_ttl_ms username password id now t
          later
        ≡ ok (who, u)
      → (later.users ≡ []) × (length u.users ≡ 1) × (u.sessions ≡ later.sessions)
  unfolding bootstrap_admin
  bootstrap_admin-first username password id now t later h =
      let (_, none_yet, h1) = bind-eq-ok (require (requires_bootstrap t) bootstrap_complete) _ h in
      let (name, valid, h2) = bind-eq-ok (validate_username username) _ h1 in
      let (_, strong, h3) = bind-eq-ok (validate_password password) _ h2 in
      let first = finish_bootstrap-first _ later h3 in (first.0, ap length first.1, first.2)

  -- Whatever requests come in whatever order, also several first logins of an administrator at once, there
  -- is never more than one user, where there was at most one before.
  pub Reached-one_admin :
      {start t : AuthTables} → length start.users ≤ 1 → Reached start t → length t.users ≤ 1
  unfolding logout revoke_session
  Reached-one_admin few started = few
  Reached-one_admin few (bootstrapped username password id now t later before done) =
      let first = bootstrap_admin-first username password id now t later done in
      omega (arith, first.1)
  Reached-one_admin few (logged_in username password token csrf id now t later before done) =
      let did =
        login-IsLogin digest_token hash verify bytes iso session_ttl_ms username password token csrf
          id now t later done in
      rw did.made.same_users (Reached-one_admin few before)
  Reached-one_admin few (logged_out session now before) = Reached-one_admin few before

  Reached-Distinct :
      {start t : AuthTables} → Distinct start.sessions → Reached start t → Distinct t.sessions
  unfolding logout revoke_session
  Reached-Distinct h started = h
  Reached-Distinct h (bootstrapped username password id now t later before done) =
      rw (bootstrap_admin-first username password id now t later done).2 (Reached-Distinct h before)
  Reached-Distinct h (logged_in username password token csrf id now t later before done) =
      let did =
        login-IsLogin digest_token hash verify bytes iso session_ttl_ms username password token csrf
          id now t later done in
      rw did.made.appended (concat-Distinct _ _ did.made.fresh (Reached-Distinct h before))
  Reached-Distinct h (logged_out session now {t} before) =
      revoke-Distinct session.row.id (iso now) t.sessions (Reached-Distinct h before)

  -- A hash that is known and revoked stays so.
  abbrev IsOver : Text → AuthTables → Type 0
  IsOver token_hash t =
      Revoked token_hash t.sessions × (any (has_hash token_hash) t.sessions ≡ true)

  Reached-IsOver :
      (token_hash : Text) {start t : AuthTables}
      → IsOver token_hash start
      → Reached start t
      → IsOver token_hash t
  unfolding logout revoke_session
  Reached-IsOver token_hash h started = h
  Reached-IsOver token_hash h (bootstrapped username password id now t later before done) =
      rw (bootstrap_admin-first username password id now t later done).2
        (Reached-IsOver token_hash h before)
  Reached-IsOver token_hash h (logged_in username password token csrf id now t later before done) =
      let did =
        login-IsLogin digest_token hash verify bytes iso session_ttl_ms username password token csrf
          id now t later done in
      let known = Reached-IsOver token_hash h before in
      rw did.made.appended (
        concat-Revoked token_hash _ _ known.1 did.made.fresh known.0,
        any-concat (has_hash token_hash) _ _ ∙ rw known.1 refl,
      )
  Reached-IsOver token_hash h (logged_out session now {t} before) =
      let known = Reached-IsOver token_hash h before in
      (
        revoke-Revoked token_hash session.row.id (iso now) t.sessions known.0,
        has_hash-revoke token_hash session.row.id (iso now) t.sessions ∙ known.1,
      )

  logout-IsOver :
      (token_hash now_iso : Text) (now : ℕ) (t : AuthTables) {s : StoredSession}
      → Distinct t.sessions
      → find_active_session_by_token_hash token_hash now_iso t ≡ some s
      → IsOver token_hash (logout digest_token hash verify bytes iso session_ttl_ms s now t)
  unfolding logout revoke_session find_active_session_by_token_hash
  logout-IsOver token_hash now_iso now t {s} distinct found =
      let row = joined_session-row t.users _ found in
      let over = find-Revoked token_hash now_iso t.users (iso now) t.sessions distinct row in
      (over.0, has_hash-revoke token_hash s.row.id (iso now) t.sessions ∙ over.1)

  get_session-over :
      (token : Text) (at : ℕ) (t : AuthTables)
      → IsOver (digest_token token) t
      → get_session digest_token hash verify bytes iso session_ttl_ms (some token) at t ≡ none
  unfolding get_session find_active_session_by_token_hash
  get_session-over token at t over = elim (Bool-cases (is_empty token)) [
    | inl e ↦ rw e refl
    | inr e ↦ rw e (
        ap (joined_session t.users)
          (Revoked-find (digest_token token) (iso at) t.users t.sessions over.0))
  ]

  -- A session that a token has found is over with its logout: whatever bootstraps, logins and logouts come
  -- after that, the token finds no session at any time. The tables of the logout are reached from
  -- tables whose sessions have ids and hashes of their own, as empty tables have.
  pub logout-final :
      {start t u : AuthTables} (token : Text) (at : ℕ) {s : StoredSession}
      → Distinct start.sessions
      → Reached start t
      → get_session digest_token hash verify bytes iso session_ttl_ms (some token) at t ≡ some s
      → (when : ℕ) → Reached (logout digest_token hash verify bytes iso session_ttl_ms s when t) u
      → (later : ℕ)
      → get_session digest_token hash verify bytes iso session_ttl_ms (some token) later u ≡ none
  unfolding get_session
  logout-final {t} {u} token at distinct before found when after later =
      elim (Bool-cases (is_empty token)) [
        | inl e ↦ absurd (cc (rw e at found))
        | inr e ↦
            let over =
              logout-IsOver (digest_token token) (iso at) when t (Reached-Distinct distinct before)
                (rw e at found) in
            get_session-over token later u (Reached-IsOver (digest_token token) over after)
      ]
