-- ===== src/Auth/Revoked.antt =====
-- Sessions have tokens of their own, and a revoked one is found no more.
use ollama_remote_control.Prelude.{
  ◌≡◌, refl, ap, ◌∙◌, inl, inr, Bool, true, false, ◌&&◌, ◌||◌, Bool-cases, none, some, List, [],
  ◌∷◌, ◌++◌, map, arith, text_eq, text_eq→eq, text_eq_self, any, find,
}
use ollama_remote_control.Modelfile.Chars.{Text}
use ollama_remote_control.Auth.Store.{
  StoredUser, SessionRow, clashes, is_user, is_open, is_active_session, revoke_row,
}

-- No two rows have the same id or the same hash.
abbrev pub Distinct : List SessionRow → Type 0
Distinct [] = Unit
Distinct (s ∷ ss) = (any (clashes s) ss ≡ false) × Distinct ss

-- Every row with the hash is revoked.
abbrev pub Revoked : Text → List SessionRow → Type 0
Revoked token_hash [] = Unit
Revoked token_hash (s ∷ ss) =
    (text_eq s.token_hash token_hash && is_open s.revoked_at ≡ false) × Revoked token_hash ss

abbrev pub has_hash : Text → SessionRow → Bool
has_hash token_hash s = text_eq s.token_hash token_hash

text_eq_comm : (s t : Text) → text_eq s t ≡ text_eq t s
text_eq_comm [] [] = refl
text_eq_comm [] (d ∷ t) = refl
text_eq_comm (c ∷ s) [] = refl
text_eq_comm (c ∷ s) (d ∷ t) = ground (arith, text_eq_comm s t)

clashes_comm : (r s : SessionRow) → clashes r s ≡ clashes s r
clashes_comm r s = rw (text_eq_comm s.id r.id, text_eq_comm s.token_hash r.token_hash) refl

pub any-concat {ℓ} :
    {A : Type ℓ} (p : A → Bool) (xs : List A) (x : A) → any p (xs ++ x ∷ []) ≡ (any p xs || p x)
unfolding any
any-concat p [] x = ground arith
any-concat p (y ∷ xs) x = ground (arith, any-concat p xs x)

pub concat-Distinct :
    (row : SessionRow) (ss : List SessionRow)
    → any (clashes row) ss ≡ false
    → Distinct ss
    → Distinct (ss ++ row ∷ [])
unfolding any
concat-Distinct row [] fresh h = (refl, tt)
concat-Distinct row (s ∷ ss) fresh h =
    let apart : clashes s row ≡ false = clashes_comm s row ∙ ground (arith, fresh) in
    (
      any-concat (clashes s) ss row ∙ rw (h.0, apart) refl,
      concat-Distinct row ss (ground (arith, fresh)) h.1,
    )

-- A revocation changes neither the id nor the hash of a row.
clashes-revoke :
    (id at : Text) (s x : SessionRow)
    → clashes (revoke_row id at s) (revoke_row id at x) ≡ clashes s x
clashes-revoke id at s x = elim (Bool-cases (text_eq s.id id && is_open s.revoked_at)) [
  | inl e ↦ elim (Bool-cases (text_eq x.id id && is_open x.revoked_at)) [
    | inl f ↦ rw (e, f) refl
    | inr f ↦ rw (e, f) refl
  ]
  | inr e ↦ elim (Bool-cases (text_eq x.id id && is_open x.revoked_at)) [
    | inl f ↦ rw (e, f) refl
    | inr f ↦ rw (e, f) refl
  ]
]

any-revoke :
    (p q : SessionRow → Bool) (id at : Text) (ss : List SessionRow)
    → ((s : SessionRow) → p (revoke_row id at s) ≡ q s)
    → any p (map (revoke_row id at) ss) ≡ any q ss
unfolding any
any-revoke p q id at [] same = refl
any-revoke p q id at (s ∷ ss) same = rw (same s, any-revoke p q id at ss same) refl

pub revoke-Distinct :
    (id at : Text) (ss : List SessionRow) → Distinct ss → Distinct (map (revoke_row id at) ss)
revoke-Distinct id at [] h = tt
revoke-Distinct id at (s ∷ ss) h = (
  any-revoke (clashes (revoke_row id at s)) (clashes s) id at ss (clashes-revoke id at s) ∙ h.0,
  revoke-Distinct id at ss h.1,
)

pub has_hash-revoke :
    (token_hash id at : Text) (ss : List SessionRow)
    → any (has_hash token_hash) (map (revoke_row id at) ss) ≡ any (has_hash token_hash) ss
has_hash-revoke token_hash id at ss =
    any-revoke (has_hash token_hash) (has_hash token_hash) id at ss λ s. ground arith

pub revoke-Revoked :
    (token_hash id at : Text) (ss : List SessionRow)
    → Revoked token_hash ss
    → Revoked token_hash (map (revoke_row id at) ss)
revoke-Revoked token_hash id at [] h = tt
revoke-Revoked token_hash id at (s ∷ ss) h =
    (ground (arith, h.0), revoke-Revoked token_hash id at ss h.1)

other_hash :
    (token_hash : Text) (row : SessionRow) (ss : List SessionRow)
    → any (has_hash token_hash) ss ≡ true
    → any (clashes row) ss ≡ false
    → text_eq row.token_hash token_hash ≡ false
unfolding any
other_hash token_hash row [] known fresh = absurd (cc known)
other_hash token_hash row (s ∷ ss) known fresh =
    elim (Bool-cases (text_eq s.token_hash token_hash)) [
      | inl e ↦
          let same = text_eq→eq s.token_hash token_hash e in
          text_eq_comm row.token_hash token_hash ∙ rw (← same) (ground (arith, fresh))
      | inr e ↦ other_hash token_hash row ss (ground (arith, known, e)) (ground (arith, fresh))
    ]

-- A row that does not clash with one that has the hash has another hash.
pub concat-Revoked :
    (token_hash : Text) (row : SessionRow) (ss : List SessionRow)
    → any (has_hash token_hash) ss ≡ true
    → any (clashes row) ss ≡ false
    → Revoked token_hash ss
    → Revoked token_hash (ss ++ row ∷ [])
concat-Revoked token_hash row ss known fresh h = go ss h (other_hash token_hash row ss known fresh)
  where
    go :
        (ss : List SessionRow)
        → Revoked token_hash ss
        → text_eq row.token_hash token_hash ≡ false
        → Revoked token_hash (ss ++ row ∷ [])
    go [] h apart = (ground (arith, apart), tt)
    go (s ∷ ss) h apart = (h.0, go ss h.1 apart)

fresh-Revoked :
    (token_hash : Text) (row : SessionRow) (ss : List SessionRow)
    → text_eq row.token_hash token_hash ≡ true
    → any (clashes row) ss ≡ false
    → Revoked token_hash ss
unfolding any
fresh-Revoked token_hash row [] hash fresh = tt
fresh-Revoked token_hash row (s ∷ ss) hash fresh =
    let same = text_eq→eq row.token_hash token_hash hash in
    let apart : text_eq s.token_hash token_hash ≡ false = rw (← same) (ground (arith, fresh)) in
    (ground (arith, apart), fresh-Revoked token_hash row ss hash (ground (arith, fresh)))

module _ (token_hash now_iso : Text) (users : List StoredUser) where
  abbrev wanted : SessionRow → Bool
  wanted s = is_active_session token_hash now_iso s && any (is_user s.user_id) users

  -- No revoked row is found.
  pub Revoked-find : (ss : List SessionRow) → Revoked token_hash ss → find wanted ss ≡ none
  Revoked-find [] h = refl
  Revoked-find (s ∷ ss) h =
      let passed_over : wanted s ≡ false = ground (arith, h.0) in
      rw (passed_over, find) (Revoked-find ss h.1)

  -- The revocation of the row that is found revokes every row with its hash.
  pub find-Revoked :
      (at : Text) (ss : List SessionRow) {r : SessionRow}
      → Distinct ss
      → find wanted ss ≡ some r
      → Revoked token_hash (map (revoke_row r.id at) ss) × (any (has_hash token_hash) ss ≡ true)
  unfolding any
  find-Revoked at [] distinct h = absurd (cc h)
  find-Revoked at (s ∷ ss) {r} distinct h = elim (Bool-cases (wanted s)) [
    | inl e ↦
        let same : s ≡ r = cc (rw (e, find) at h) in
        let hash : text_eq s.token_hash token_hash ≡ true = ground (arith, e) in
        let named : text_eq s.id r.id ≡ true = rw (← ap (λ x. x.id) same) (text_eq_self s.id) in
        (
          (
            ground (arith, named),
            revoke-Revoked token_hash r.id at ss (fresh-Revoked token_hash s ss hash distinct.0),
          ),
          ground (arith, hash),
        )
    | inr e ↦
        let rest = find-Revoked at ss distinct.1 (rw (e, find) at h) in
        let apart = other_hash token_hash s ss rest.1 distinct.0 in
        ((ground (arith, apart), rest.0), ground (arith, rest.1))
  ]
