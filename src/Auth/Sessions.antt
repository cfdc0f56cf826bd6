-- ===== src/Auth/Sessions.antt =====
-- What a new session is found by, and until when.
use ollama_remote_control.Prelude.{
  require-eq-ok, ℕ, ◌+◌, ◌≤◌, ◌<◌, ◌≡◌, refl, sym, ap, ◌∙◌, inl, inr, Bool, true, false, ◌&&◌,
  Bool-cases, Option, none, some, List, [], ◌∷◌, ◌++◌, arith, ltb, text_eq, text_eq_self, any, find,
  Result, ok, err, bind-eq-ok, ok-injective,
}
use ollama_remote_control.Modelfile.Chars.{Text, is_empty, trim}
use ollama_remote_control.Auth.Store.{
  joined_session, AuthStoreError, StoredUser, SessionRow, StoredSession, AuthTables, create_session,
  clashes, is_user, is_active_session, with_user, find_active_session_by_token_hash,
  find_user_by_username, text_before,
}
use ollama_remote_control.Auth.Service.{
  login_found, assert_login_input_bounded, CreatedSession, session_row, stored_session, login_user,
  login, get_session,
}

-- What an insertion has checked.
pub record IsInserted (row : SessionRow) (t u : AuthTables) : Type 0 where
  pub fresh : any (clashes row) t.sessions ≡ false
  pub has_user : any (is_user row.user_id) t.users ≡ true
  pub same_users : u.users ≡ t.users
  pub appended : u.sessions ≡ t.sessions ++ (row ∷ [])

pub create_session-IsInserted :
    (row : SessionRow) (t : AuthTables) {u : AuthTables}
    → create_session row t ≡ ok u
    → IsInserted row t u
unfolding create_session
create_session-IsInserted row t {u} h = elim (Bool-cases (any (clashes row) t.sessions)) [
  | inl e ↦ absurd (cc (rw e at h))
  | inr e ↦ elim (Bool-cases (any (is_user row.user_id) t.users)) [
    | inl f ↦
        let made : record t { sessions = t.sessions ++ (row ∷ []) } ≡ u =
          ok-injective (rw (e, f) at h) in
        record {
          fresh = e;
          has_user = f;
          same_users = ap (λ v. v.users) (sym made);
          appended = ap (λ v. v.sessions) (sym made);
        }
    | inr f ↦ absurd (cc (rw (e, f) at h))
  ]
]

any-find {ℓ} :
    {A : Type ℓ} (p : A → Bool) (xs : List A) → any p xs ≡ true → (x : A) × (find p xs ≡ some x)
unfolding any
any-find p [] h = absurd (cc h)
any-find p (x ∷ xs) h = elim (Bool-cases (p x)) [
  | inl e ↦ (x, rw (e, find) refl)
  | inr e ↦ let (y, f) = any-find p xs (rw e at h) in (y, rw (e, find) f)
]

module _ (row : SessionRow) (now_iso : Text) (users : List StoredUser) where
  abbrev wanted : SessionRow → Bool
  wanted s = is_active_session row.token_hash now_iso s && any (is_user s.user_id) users

  -- Rows that do not clash with a row are not found by its hash.
  find-fresh :
      (ss : List SessionRow)
      → any (clashes row) ss ≡ false
      → find wanted (ss ++ row ∷ []) ≡ find wanted (row ∷ [])
  unfolding any
  find-fresh [] h = refl
  find-fresh (s ∷ ss) h = elim (Bool-cases (text_eq s.token_hash row.token_hash)) [
    | inl e ↦ absurd (ground (arith, h, e))
    | inr e ↦ rw (e, find) (find-fresh ss (ground (arith, h)))
  ]

find-any-found {ℓ} :
    {A : Type ℓ} (p : A → Bool) (xs : List A) {x : A} → find p xs ≡ some x → p x ≡ true
find-any-found p [] h = absurd (cc h)
find-any-found p (x ∷ xs) {x = y} h = elim (Bool-cases (p x)) [
  | inl e ↦ let same : x ≡ y = cc (rw (e, find) at h) in rw (← same) e
  | inr e ↦ find-any-found p xs (rw (e, find) at h)
]

-- The row that was inserted is what its hash finds, until it expires.
IsInserted-find :
    (row : SessionRow) (now_iso : Text) {t u : AuthTables}
    → IsInserted row t u
    → find (wanted row now_iso u.users) u.sessions ≡ find (wanted row now_iso u.users) (row ∷ [])
IsInserted-find row now_iso {t} {u} made =
    rw made.appended (find-fresh row now_iso u.users t.sessions made.fresh)

wanted_row :
    (row : SessionRow) (now_iso : Text) {t u : AuthTables}
    → row.revoked_at ≡ none
    → IsInserted row t u
    → wanted row now_iso u.users row ≡ text_before now_iso row.expires_at
wanted_row row now_iso unrevoked made =
    rw (unrevoked, made.same_users, text_eq_self row.token_hash) (ground (arith, made.has_user))

IsInserted-active :
    (row : SessionRow) (now_iso : Text) {t u : AuthTables}
    → row.revoked_at ≡ none
    → IsInserted row t u
    → text_before now_iso row.expires_at ≡ true
    → (s : StoredSession) × (find_active_session_by_token_hash row.token_hash now_iso u ≡ some s)
      × (s.row ≡ row)
unfolding find_active_session_by_token_hash
IsInserted-active row now_iso {t} {u} unrevoked made early =
    let user = any-find (is_user row.user_id) u.users (rw made.same_users made.has_user) in
    let first : find (wanted row now_iso u.users) u.sessions ≡ some row =
      IsInserted-find row now_iso made
      ∙ rw (wanted_row row now_iso unrevoked made ∙ early, find) refl in
    (
      with_user row user.0,
      ap (joined_session u.users) first ∙ rw (user.1, joined_session) refl,
      refl,
    )

IsInserted-expired :
    (row : SessionRow) (now_iso : Text) {t u : AuthTables}
    → row.revoked_at ≡ none
    → IsInserted row t u
    → text_before now_iso row.expires_at ≡ false
    → find_active_session_by_token_hash row.token_hash now_iso u ≡ none
unfolding find_active_session_by_token_hash
IsInserted-expired row now_iso {t} {u} unrevoked made late =
    let first : find (wanted row now_iso u.users) u.sessions ≡ none =
      IsInserted-find row now_iso made
      ∙ rw (wanted_row row now_iso unrevoked made ∙ late, find) refl in
    ap (joined_session u.users) first

stored_session-eq-ok :
    (r : Result AuthStoreError AuthTables) {u : AuthTables} → stored_session r ≡ ok u → r ≡ ok u
stored_session-eq-ok (ok t) h = ap ok (ok-injective h)
stored_session-eq-ok (err e) h = absurd (cc h)

module _ (digest_token : Text → Text) (hash : Text → Text) (verify : Text → Text → Bool)
    (bytes : Text → List ℕ) (iso : ℕ → Text) (session_ttl_ms : ℕ) where
  -- What a login has done when it answers.
  pub record IsLogin (password token csrf id : Text) (now : ℕ) (later : AuthTables)
      (created : CreatedSession) (u : AuthTables) : Type 0 where
    pub user : StoredUser
    pub verified : verify user.password_hash password ≡ true
    pub made :
        IsInserted
          (session_row digest_token hash verify bytes iso session_ttl_ms user token csrf id now)
          later
          u
    pub same_token : created.token ≡ token
    pub same_user : created.user.id ≡ user.id

  login_user-IsLogin :
      (user : StoredUser) (password token csrf id : Text) (now : ℕ) (later : AuthTables)
      {created : CreatedSession} {u : AuthTables}
      → login_user digest_token hash verify bytes iso session_ttl_ms user password token csrf id now
          later
        ≡ ok (created, u)
      → IsLogin password token csrf id now later created u
  unfolding login_user
  login_user-IsLogin user password token csrf id now later {created} {u} h =
      let (_, passed, h1) = bind-eq-ok _ _ h in
      let (t, stored, h2) = bind-eq-ok _ _ h1 in
      let pair = ok-injective h2 in
      record {
        user = user;
        verified = require-eq-ok _ _ passed;
        made =
            rw (← ap (λ p. p.1) pair)
              (create_session-IsInserted _ later (stored_session-eq-ok _ stored));
        same_token = ap (λ p. p.0.token) (sym pair);
        same_user = ap (λ p. p.0.user.id) (sym pair);
      }

  login_found-IsLogin :
      (found : Option StoredUser) (password token csrf id : Text) (now : ℕ) (later : AuthTables)
      {created : CreatedSession} {u : AuthTables}
      → login_found digest_token hash verify bytes iso session_ttl_ms found password token csrf id
          now later
        ≡ ok (created, u)
      → IsLogin password token csrf id now later created u
  unfolding login_found
  login_found-IsLogin none password token csrf id now later h = absurd (cc h)
  login_found-IsLogin (some user) password token csrf id now later h =
      login_user-IsLogin user password token csrf id now later h

  pub login-IsLogin :
      (username password token csrf id : Text) (now : ℕ) (t later : AuthTables)
      {created : CreatedSession} {u : AuthTables}
      → login digest_token hash verify bytes iso session_ttl_ms username password token csrf id now
          t later
        ≡ ok (created, u)
      → IsLogin password token csrf id now later created u
  unfolding login
  login-IsLogin username password token csrf id now t later h =
      let (_, bounded, h1) = bind-eq-ok (assert_login_input_bounded username password) _ h in
      login_found-IsLogin (find_user_by_username (trim username) t) password token csrf id now later
        h1

  -- After a login that answers, the token of its answer finds a session of the user that it answered
  -- until the time to live is over, and none from then on: in the tables that the login left, where
  -- the token is not empty, and where `toISOString` writes the times that are compared in their order,
  -- which it does up to the year 9999.
  pub login-session :
      (username password token csrf id : Text) (now : ℕ) (t later : AuthTables)
      {created : CreatedSession} {u : AuthTables}
      → login digest_token hash verify bytes iso session_ttl_ms username password token csrf id now
          t later
        ≡ ok (created, u)
      → is_empty token ≡ false
      → (at : ℕ) → text_before (iso at) (iso (now + session_ttl_ms)) ≡ ltb at (now + session_ttl_ms)
      → (at < now + session_ttl_ms
          → (s : StoredSession) × (get_session digest_token hash verify bytes iso session_ttl_ms
                (some created.token)
                at
                u
              ≡ some s)
            × (s.row.user_id ≡ created.user.id))
        × (now + session_ttl_ms ≤ at
            → get_session digest_token hash verify bytes iso session_ttl_ms
                (some created.token)
                at
                u
              ≡ none)
  unfolding get_session
  login-session username password token csrf id now t later done given at sorted =
      let did = login-IsLogin username password token csrf id now t later done in
      (
        λ early.
            let found =
              IsInserted-active _ (iso at) refl did.made (sorted ∙ ground (arith, early)) in
            rw (did.same_token, given)
              (found.0, found.1, ap (λ r. r.user_id) found.2 ∙ sym did.same_user),
        λ over.
            rw (did.same_token, given)
              (IsInserted-expired _ (iso at) refl did.made (sorted ∙ ground (arith, over))),
      )
