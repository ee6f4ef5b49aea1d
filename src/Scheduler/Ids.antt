-- ===== src/Scheduler/Ids.antt =====
-- src/concurrency-scheduler.ts: how often an id stands among the requests and the permits.
use superset_agent_orchestra.Base.{
  ℕ, ◌+◌, ◌≤◌, String, ◌≡◌, refl, ap, Bool, true, false, not, some, List, [], ◌∷◌, ◌++◌, any, find,
  select, inl, inr, count, ◌==◌, if◌then◌else◌, nat_eq, string_eq, eq_iff, arith, Bool-cases,
}
use superset_agent_orchestra.Scheduler.Policy.{Request, put, remove}
use superset_agent_orchestra.Scheduler.Queue.{Pending}

abbrev pub asks : String → Pending → Bool
asks id q = q.request.id == id

abbrev pub named : String → Request → Bool
named id r = r.id == id

abbrev pub names : String → ℕ × String → Bool
names id h = h.1 == id

abbrev pub holds : ℕ → ℕ × String → Bool
holds t h = h.0 == t

pub count-put :
    (v : String) (r : Request) (rs : List Request)
    → count (named r.id) rs ≡ 0
    → count (named v) (put r rs) ≡ count (named v) rs + (if r.id == v then 1 else 0)
unfolding count put
count-put v r [] e = ground arith
count-put v r (q ∷ rs) e = elim (Bool-cases (q.id == r.id)) [
  | inl s ↦ absurd (ground (arith, s, e))
  | inr s ↦ ground (arith, s, e, count-put v r rs (ground (arith, s, e)))
]

same_text : (a b c : String) → (a == b) ≡ true → (a == c) ≡ (b == c)
same_text a b c e = ap (λ x. x == c) ((eq_iff a b).0 e)

same_target : (a b c : String) → (b == c) ≡ true → (a == b) ≡ (a == c)
same_target a b c e = ap (λ x. a == x) ((eq_iff b c).0 e)

pub count-remove :
    (v id : String) (rs : List Request)
    → count (named v) (remove id rs) ≡ (if id == v then 0 else count (named v) rs)
unfolding count remove select
count-remove v id [] = ground arith
count-remove v id (q ∷ rs) = elim (Bool-cases (q.id == id)) [
  | inl s ↦ ground (arith, s, same_text q.id id v s, count-remove v id rs)
  | inr s ↦ elim (Bool-cases (id == v)) [
    | inl i ↦ ground (arith, s, i, same_target q.id id v i, count-remove v id rs)
    | inr i ↦ ground (arith, s, i, count-remove v id rs)
  ]
]

count-select :
    (t : ℕ) (v : String) (hs : List (ℕ × String))
    → count (holds t) hs ≡ 0
    → count (names v) (select (λ (h : ℕ × String). not (h.0 == t)) hs) ≡ count (names v) hs
unfolding count select
count-select t v [] e = refl
count-select t v ((s, w) ∷ hs) e = elim (Bool-cases (s == t)) [
  | inl y ↦ absurd (ground (arith, y, e))
  | inr y ↦ ground (arith, y, e, count-select t v hs (ground (arith, y, e)))
]

-- The release of a permit takes its id away, and no other permit.
pub count-revoke :
    (t u : ℕ) (id v : String) (hs : List (ℕ × String))
    → find (holds t) hs ≡ some (u, id)
    → count (holds t) hs ≤ 1
    → count (names v) (select (λ (h : ℕ × String). not (h.0 == t)) hs) + (if id == v then 1 else 0)
      ≡ count (names v) hs
unfolding count select find
count-revoke t u id v [] e l = absurd (ground arith)
count-revoke t u id v ((s, w) ∷ hs) e l = elim (Bool-cases (s == t)) [
  | inl y ↦
      let same : w ≡ id = ground (arith, y, e) in
      rw (← same) (ground (arith, y, l, count-select t v hs (ground (arith, y, l))))
  | inr y ↦
      ground (arith, y, count-revoke t u id v hs (ground (arith, y, e)) (ground (arith, y, l)))
]

pub count-holds :
    (t u : ℕ) (hs : List (ℕ × String))
    → count (holds u) (select (λ (h : ℕ × String). not (h.0 == t)) hs) ≤ count (holds u) hs
unfolding count select
count-holds t u [] = ground arith
count-holds t u ((s, w) ∷ hs) = ground (arith, count-holds t u hs)

pub count-asks :
    (t : ℕ) (v : String) (qs : List Pending)
    → count (asks v) (select (λ (q : Pending). not (q.ticket == t)) qs) ≤ count (asks v) qs
unfolding count select
count-asks t v [] = ground arith
count-asks t v (q ∷ qs) = ground (arith, count-asks t v qs)

pub asks-append :
    (v : String) (qs rs : List Pending)
    → count (asks v) (qs ++ rs) ≡ count (asks v) qs + count (asks v) rs
unfolding count
asks-append v [] rs = ground arith
asks-append v (q ∷ qs) rs = ground (arith, asks-append v qs rs)

pub any-count : (v : String) (rs : List Request) → any (named v) rs ≡ false → count (named v) rs ≡ 0
unfolding count any
any-count v [] e = refl
any-count v (r ∷ rs) e = ground (arith, e, any-count v rs (ground (arith, e)))

pub any-asks : (v : String) (qs : List Pending) → any (asks v) qs ≡ false → count (asks v) qs ≡ 0
unfolding count any
any-asks v [] e = refl
any-asks v (q ∷ qs) e = ground (arith, e, any-asks v qs (ground (arith, e)))
