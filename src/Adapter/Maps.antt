-- ===== src/Adapter/Maps.antt =====
-- src/concurrency-limited-agent-adapter.ts: what the operations of the maps do to the counts of their
-- closures.
use superset_agent_orchestra.Base.{
  ℕ, ◌+◌, String, ◌≡◌, refl, ap, Bool, true, false, ◌&&◌, Option, none, some, List, [], ◌∷◌, inl,
  inr, any, find, count, ◌==◌, if◌then◌else◌, nat_eq, string_eq, eq_iff, eq_refl, arith, Bool-cases,
  All,
}
use superset_agent_orchestra.Adapter.Permits.{
  HeldPermit, Lookup, lookup, delete, assign, is_run, is_entry, is_lookup, remove_run,
  remove_launching, remove_lookup,
}
use superset_agent_orchestra.Adapter.Core.{Tally, point}

abbrev pub is_stored : ℕ → String → HeldPermit → Bool
is_stored t k h = h.ticket == t && h.key == k

abbrev pub maybe_point : Option ℕ → String → Tally
maybe_point none k u v = 0
maybe_point (some t) k u v = point t k u v

-- The permits that lookups have reserved themselves.
abbrev pub fresh_count : List Lookup → Tally
fresh_count [] t k = 0
fresh_count (l ∷ ls) t k = maybe_point l.fresh l.key t k + fresh_count ls t k

pub count-delete :
    (j : String) (es : List (String × ℕ)) (t : ℕ) (k : String)
    → count (is_entry t k) es ≡ count (is_entry t k) (delete j es) + maybe_point (lookup j es) j t k
unfolding count delete lookup
count-delete j [] t k = ground arith
count-delete j ((i, u) ∷ es) t k = elim (Bool-cases (i == j)) [
  | inl y ↦
      let same : i ≡ j = (eq_iff i j).0 y in
      rw (y, lookup, delete) (ground (arith, ap (λ x. x == k) same))
  | inr n ↦ rw (n, lookup, delete) (ground (arith, count-delete j es t k))
]

pub lookup-delete :
    {A : Type 0}
    → (i j : String) (es : List (String × A)) → (i == j) ≡ false
    → lookup i (delete j es) ≡ lookup i es
unfolding delete lookup
lookup-delete i j [] e = refl
lookup-delete i j ((h, u) ∷ es) e = elim (Bool-cases (h == j)) [
  | inl y ↦
      let apart : (h == i) ≡ false = elim (Bool-cases (h == i)) [
        | inr n ↦ n
        | inl z ↦ absurd (ground (arith, e, ap (λ x. x == j) ((eq_iff h i).0 z), y))
      ] in
      rw (y, apart, lookup, delete) refl
  | inr n ↦ elim (Bool-cases (h == i)) [
    | inl z ↦ rw (n, z, lookup, delete) refl
    | inr z ↦ rw (n, z, lookup, delete) (lookup-delete i j es e)
  ]
]

pub apart-sym : (a b : String) → (a == b) ≡ false → (b == a) ≡ false
apart-sym a b e = elim (Bool-cases (b == a)) [
  | inr n ↦ n
  | inl y ↦ absurd (ground (arith, e, ap (λ x. x == b) ((eq_iff b a).0 y), eq_refl b))
]

pub lookup-assign :
    {A : Type 0}
    → (i j : String) (a : A) (es : List (String × A)) → (i == j) ≡ false
    → lookup i (assign j a es) ≡ lookup i es
unfolding assign lookup
lookup-assign i j a es e = rw (apart-sym i j e, lookup) (lookup-delete i j es e)

pub count-remove_run :
    (run : String) (hs : List HeldPermit) (h : HeldPermit) (t : ℕ) (k : String)
    → find (is_run run) hs ≡ some h
    → count (is_stored t k) hs
      ≡ count (is_stored t k) (remove_run run hs) + point h.ticket h.key t k
unfolding count find remove_run
count-remove_run run [] h t k e = absurd (ground arith)
count-remove_run run (g ∷ hs) h t k e = elim (Bool-cases (is_run run g)) [
  | inl y ↦ let same : g ≡ h = ground (arith, y, e) in rw (← same) (ground (arith, y))
  | inr n ↦ ground (arith, n, count-remove_run run hs h t k (ground (arith, n, e)))
]

pub count-remove_launching :
    (t : ℕ) (key : String) (ls : List (String × ℕ)) (u : ℕ) (k : String)
    → any (is_entry t key) ls ≡ true
    → count (is_entry u k) ls ≡ count (is_entry u k) (remove_launching t key ls) + point t key u k
unfolding count any remove_launching
count-remove_launching t key [] u k e = absurd (ground arith)
count-remove_launching t key ((j, s) ∷ ls) u k e = elim (Bool-cases (s == t && j == key)) [
  | inl y ↦
      let same : s ≡ t = ground (arith, y) in
      let same_key : j ≡ key = (eq_iff j key).0 (ground (arith, y)) in
      rw (y, remove_launching) (ground (arith, same, ap (λ x. x == k) same_key))
  | inr n ↦
      let rest = count-remove_launching t key ls u k (ground (arith, n, e)) in
      rw (n, remove_launching) (ground (arith, rest))
]

pub fresh_count-remove_lookup :
    (key : String) (ls : List Lookup) (l : Lookup) (t : ℕ) (k : String)
    → find (is_lookup key) ls ≡ some l
    → fresh_count ls t k ≡ fresh_count (remove_lookup key ls) t k + maybe_point l.fresh l.key t k
unfolding find remove_lookup
fresh_count-remove_lookup key [] l t k e = absurd (ground arith)
fresh_count-remove_lookup key (m ∷ ls) l t k e = elim (Bool-cases (m.key == key)) [
  | inl y ↦
      let same : m ≡ l = ground (arith, y, e) in
      rw (y, remove_lookup)
        (ground (arith, ap (λ (x : Lookup). maybe_point x.fresh x.key t k) same))
  | inr n ↦
      let rest = fresh_count-remove_lookup key ls l t k (ground (arith, n, e)) in
      rw (n, remove_lookup) (ground (arith, rest))
]

pub count-remove_lookup :
    (key : String) (ls : List Lookup) (l : Lookup) (k : String)
    → find (is_lookup key) ls ≡ some l
    → count (is_lookup k) ls
      ≡ count (is_lookup k) (remove_lookup key ls) + (if l.key == k then 1 else 0)
unfolding count find remove_lookup
count-remove_lookup key [] l k e = absurd (ground arith)
count-remove_lookup key (m ∷ ls) l k e = elim (Bool-cases (m.key == key)) [
  | inl y ↦
      let same : m ≡ l = ground (arith, y, e) in
      rw (y, remove_lookup) (ground (arith, ap (λ (x : Lookup). x.key == k) same))
  | inr n ↦
      let rest = count-remove_lookup key ls l k (ground (arith, n, e)) in
      rw (n, remove_lookup) (ground (arith, rest))
]

pub All-remove_lookup :
    (P : Lookup → Type 0) (key : String) (ls : List Lookup)
    → All P ls
    → All P (remove_lookup key ls)
unfolding remove_lookup
All-remove_lookup P key [] h = h
All-remove_lookup P key (m ∷ ls) h = elim (Bool-cases (m.key == key)) [
  | inl y ↦ rw (y, remove_lookup) h.1
  | inr n ↦ rw (n, remove_lookup) (h.0, All-remove_lookup P key ls h.1)
]
