-- ===== src/Stream/Publics.antt =====
-- What the loop over the stored events writes (apps/api/src/create-job-events.ts).
use ollama_remote_control.Prelude.{
  ℕ, ◌+◌, ◌≤◌, ◌≡◌, refl, sym, ap, inl, inr, Bool, Option, none, some, List, [], ◌∷◌, ◌++◌, arith,
  leb, ltb, Bool-cases, length, select, Result, ok, err, if◌then◌else◌,
}
use ollama_remote_control.Jobs.Data.{StoredJobEvent}
use ollama_remote_control.Jobs.History.{numbers_from, sequences}
use ollama_remote_control.Stream.Events.{
  StreamError, PayloadJson, PublicCreateEvent, public_create_event, deliver, put_first,
}

abbrev pub is_later : ℕ → StoredJobEvent → Bool
is_later cursor e = ltb cursor e.sequence

-- The public forms of events that have one.
abbrev pub first_public :
    Result StreamError (Option PublicCreateEvent) → List PublicCreateEvent → List PublicCreateEvent
first_public (ok (some p)) ps = p ∷ ps
first_public (ok none) ps = ps
first_public (err e) ps = ps

unfoldable pub publics : PayloadJson → List StoredJobEvent → List PublicCreateEvent
publics json [] = []
publics json (e ∷ es) = first_public (public_create_event json e) (publics json es)

pub publics-append :
    (json : PayloadJson) (es fs : List StoredJobEvent)
    → publics json (es ++ fs) ≡ publics json es ++ publics json fs
unfolding publics
publics-append json [] fs = refl
publics-append json (e ∷ es) fs = ground (arith, publics-append json es fs)

pub select-append :
    {A : Type 0} (p : A → Bool) (xs ys : List A) → select p (xs ++ ys) ≡ select p xs ++ select p ys
select-append p [] ys = refl
select-append p (x ∷ xs) ys = ground (arith, select-append p xs ys)

-- The larger one.
abbrev pub later_of : ℕ → ℕ → ℕ
later_of c n = if ltb c n then n else c

-- Events numbered from n + 1 are later than c where they are later than the larger one of c and n.
pub select-later :
    (c n : ℕ) (es : List StoredJobEvent)
    → sequences es ≡ numbers_from (n + 1) es
    → select (is_later (later_of c n)) es ≡ select (is_later c) es
unfolding numbers_from
select-later c n [] h = refl
select-later c n (e ∷ es) h = ground (arith, select-later c (n + 1) es, select-later n (n + 1) es)

pub select-none :
    (c n : ℕ) (es : List StoredJobEvent)
    → sequences es ≡ numbers_from (n + 1) es
    → n + length es ≤ c
    → select (is_later c) es ≡ []
unfolding numbers_from
select-none c n [] h le = refl
select-none c n (e ∷ es) h le = ground (arith, select-none c (n + 1) es)

pub select-all :
    (c n : ℕ) (es : List StoredJobEvent)
    → sequences es ≡ numbers_from (n + 1) es
    → c ≤ n
    → select (is_later c) es ≡ es
unfolding numbers_from
select-all c n [] h le = refl
select-all c n (e ∷ es) h le = ground (arith, select-all c (n + 1) es)

-- An event behind the cursor, once the events behind it are delivered.
new_event :
    (json : PayloadJson) (c n : ℕ) (e : StoredJobEvent) (es : List StoredJobEvent)
    (r : Result StreamError (Option PublicCreateEvent)) {w : List PublicCreateEvent} {next : ℕ}
    → public_create_event json e ≡ r
    → e.sequence ≡ n + 1
    → sequences es ≡ numbers_from (n + 1 + 1) es
    → c ≤ n
    → ((v : List PublicCreateEvent)
        → deliver json e.sequence es ≡ (v, ok next)
        → (v ≡ publics json (select (is_later e.sequence) es))
          × (next ≡ later_of e.sequence (n + 1 + length es)))
    → elim r [ err x ↦ ([], err x) | ok p ↦ put_first p (deliver json e.sequence es) ]
      ≡ (w, ok next)
    → (w ≡ publics json (select (is_later c) (e ∷ es))) × (next ≡ later_of c (n + length (e ∷ es)))
unfolding publics
new_event json c n e es (err x) {w} {next} is_r number rest le ih d = cc
new_event json c n e es (ok none) {w} {next} is_r number rest le ih d =
    let (written, at) = ih w d in
    let behind = select-all e.sequence (n + 1) es rest (omega (arith, number)) in
    let all = select-all c (n + 1) es rest (omega (arith, le)) in
    ground (arith, written, at, behind, all)
new_event json c n e es (ok (some p)) {w} {next} is_r number rest le ih d =
    let more : deliver json e.sequence es ≡ ((deliver json e.sequence es).0, ok next) =
      λ i. ((deliver json e.sequence es).0, (d i).1) in
    let (written, at) = ih (deliver json e.sequence es).0 more in
    let behind = select-all e.sequence (n + 1) es rest (omega (arith, number)) in
    let all = select-all c (n + 1) es rest (omega (arith, le)) in
    let first : w ≡ p ∷ (deliver json e.sequence es).0 = sym (ap (λ x. x.0) d) in
    ground (arith, written, at, behind, all, first)

-- The loop over events that are numbered on from n, with a cursor that is not behind.
pub deliver-publics :
    (json : PayloadJson) (c n : ℕ) (es : List StoredJobEvent) {w : List PublicCreateEvent}
    {next : ℕ}
    → sequences es ≡ numbers_from (n + 1) es
    → n ≤ c
    → deliver json c es ≡ (w, ok next)
    → (w ≡ publics json (select (is_later c) es)) × (next ≡ later_of c (n + length es))
unfolding deliver publics numbers_from
deliver-publics json c n [] h le d = ground arith
deliver-publics json c n (e ∷ es) {w} {next} h le d =
    let number : e.sequence ≡ n + 1 = ground arith in
    let rest : sequences es ≡ numbers_from (n + 1 + 1) es = ground arith in
    elim (Bool-cases (leb e.sequence c)) [
      | inl seen ↦
          let (written, at) =
            deliver-publics json c (n + 1) es rest (ground arith) (rw seen at d) in
          ground (arith, written, at)
      | inr new ↦
          new_event json c n e es (public_create_event json e) refl number rest (ground arith)
            (λ v more.
              deliver-publics json e.sequence (n + 1) es {w = v} rest (omega (arith, number)) more)
            (rw new at d)
    ]
