-- ===== src/Storage/Decision.antt =====
-- src/storage.ts: exactly when `acquireWriterLease` admits a writer, and when it says busy.
use superset_agent_orchestra.Base.{
  ℕ, zero, suc, ap, ◌+◌, ◌≤◌, String, ◌≡◌, ◌≢◌, ◌↔◌, refl, sym, ◌∙◌, true, false, none, some, List,
  [], ◌∷◌, inl, inr, any, find, ltb, ◌==◌, nat_eq, string_eq, arith, eq_iff, Bool-cases,
  Option-cases, All, All-map, All-false-find, is_blank, find-none-any, All-of-any,
}
use superset_agent_orchestra.Storage.Db.{
  get_or, lease_state, LeaseState, writer, Mode, Lease, LeaseAuthority, Db, Milliseconds, Error,
  may_insert, has_owner, ok, err, Result, invalid_argument, constraint_violated, writer_busy,
  is_released, is_writer, is_blocking, last_allocated_generation, bump_generation, transaction,
  insert_lease,
}
use superset_agent_orchestra.Storage.Leases.{
  WriterRequest, Fresh, positive, max_time, new_lease, admit, acquire_writer_lease,
  record_policy_denial,
}

-- Every writer lease of the workspace is released.
abbrev pub IsFree : String → Db → Type 0
IsFree w db =
    All (λ (l : Lease). l.workspace_id ≡ w → l.mode ≡ writer → l.state ≡ LeaseState.released)
      db.leases

released_of : (s : LeaseState) → is_released s ≡ true → s ≡ LeaseState.released
released_of LeaseState.released h = refl
released_of LeaseState.active h = absurd (cc)
released_of LeaseState.releasing h = absurd (cc)
released_of LeaseState.quarantined h = absurd (cc)

writer_of : (m : Mode) → is_writer m ≡ true → m ≡ writer
writer_of writer h = refl
writer_of Mode.read_only h = absurd (cc)

blocks_not :
    (w : String) (l : Lease)
    → is_blocking w l ≡ false
    → l.workspace_id ≡ w
    → l.mode ≡ writer
    → l.state ≡ LeaseState.released
unfolding is_blocking
blocks_not w l h same mode =
    released_of l.state (ground (arith, h, mode, eq_iff l.workspace_id w, same))

not_blocks :
    (w : String) (l : Lease)
    → (l.workspace_id ≡ w → l.mode ≡ writer → l.state ≡ LeaseState.released)
    → is_blocking w l ≡ false
unfolding is_blocking
not_blocks w l h = elim (Bool-cases (l.workspace_id == w)) [
  | inr n ↦ rw n refl
  | inl y ↦ elim (Bool-cases (is_writer l.mode)) [
    | inr n ↦ rw (y, n) refl
    | inl m ↦
        let done = h ((eq_iff l.workspace_id w).0 y) (writer_of l.mode m) in
        ground (arith, y, m, done)
  ]
]

free-none : (w : String) (db : Db) → IsFree w db → find (is_blocking w) db.leases ≡ none
free-none w db f = All-false-find (is_blocking w) db.leases (All-map _ _ (not_blocks w) db.leases f)

none-free : (w : String) (db : Db) → find (is_blocking w) db.leases ≡ none → IsFree w db
none-free w db e =
    All-map _ _ (blocks_not w) db.leases
      (All-of-any (is_blocking w) db.leases (find-none-any (is_blocking w) db.leases e))

-- A lifetime that is a positive number.
abbrev pub Lasts : WriterRequest → ℕ → Type 0
Lasts input ttl = (input.ttl_ms ≡ Milliseconds.pos ttl) × (1 ≤ ttl)

some_ttl :
    (t : Milliseconds) (ttl : ℕ) → positive t ≡ some ttl → (t ≡ Milliseconds.pos ttl) × (1 ≤ ttl)
some_ttl (Milliseconds.pos zero) ttl e = absurd (cc)
some_ttl (Milliseconds.pos (suc n)) ttl e =
    let same : suc n ≡ ttl = cc in (ap Milliseconds.pos same, ground (arith, same))
some_ttl (Milliseconds.negsuc n) ttl e = absurd (cc)
some_ttl Milliseconds.not_finite ttl e = absurd (cc)

ttl_some : (ttl : ℕ) → 1 ≤ ttl → positive (Milliseconds.pos ttl) ≡ some ttl
ttl_some zero h = absurd (omega (arith, h))
ttl_some (suc n) h = refl

unused :
    (id : String) (ls : List Lease)
    → any (λ (m : Lease). m.id == id) ls ≡ false
    → All (λ (l : Lease). l.id ≢ id) ls
unused id ls h =
    All-map (λ (l : Lease). (l.id == id) ≡ false) (λ (l : Lease). l.id ≢ id)
      (λ l n e. let y = (eq_iff l.id id).1 e in absurd (ground (arith, n, y))) ls
      (All-of-any (λ (m : Lease). m.id == id) ls h)

used_by_none :
    (id : String) (ls : List Lease)
    → All (λ (l : Lease). l.id ≢ id) ls
    → any (λ (m : Lease). m.id == id) ls ≡ false
used_by_none id ls h = find-none-any _ ls (All-false-find _ ls (All-map _ _ differs ls h))
  where
    differs : (l : Lease) → l.id ≢ id → (l.id == id) ≡ false
    differs l n = elim (Bool-cases (l.id == id)) [
      | inl y ↦ absurd (n ((eq_iff l.id id).0 y))
      | inr d ↦ d
    ]

module _ (digest : String → String) (input : WriterRequest) (fresh : Fresh) (now : ℕ)
    (db : Db) where
  -- What a request must meet to be admitted: a workspace that is named, a lifetime that is positive
  -- and ends within the range of Date, no writer lease that is not released, a lease id that no row
  -- has, and owners that are registered.
  pub record MayAcquire : Type 0 where
    pub named : is_blank input.workspace_id ≡ false
    pub ttl : ℕ
    pub lasts : Lasts input ttl
    pub ends : now + ttl ≤ max_time
    pub free : IsFree input.workspace_id db
    pub new_id : All (λ (l : Lease). l.id ≢ fresh.lease_id) db.leases
    pub batch : any (λ (b : String). b == input.owner_batch_id) db.batches ≡ true
    pub session : has_owner input.owner_session_id db.sessions ≡ true

  -- What makes a request fail as busy.
  pub record IsBusy : Type 0 where
    pub named : is_blank input.workspace_id ≡ false
    pub ttl : ℕ
    pub lasts : Lasts input ttl
    pub held : ¬ IsFree input.workspace_id db

  abbrev pub IsExact : Result LeaseAuthority × Db → Type 0
  IsExact (reply, after) =
      (((b : LeaseAuthority) × (reply ≡ ok b)) ↔ MayAcquire)
      × ((reply ≡ err writer_busy) ↔ IsBusy)
      × ((e : Error) → reply ≡ err e → (after.leases ≡ db.leases) × (after.fencing ≡ db.fencing))

  abbrev made : ℕ → Lease
  made ttl =
      new_lease digest input fresh
        (last_allocated_generation input.workspace_id
          (bump_generation input.workspace_id db.fencing))
        ttl now

  abbrev bumped : Db
  bumped = record db { fencing = bump_generation input.workspace_id db.fencing }

  refused-IsExact :
      (e : Error) (after : Db)
      → ¬ MayAcquire
      → (e ≡ writer_busy) ↔ IsBusy
      → after.leases ≡ db.leases
      → after.fencing ≡ db.fencing
      → IsExact (err e, after)
  refused-IsExact e after denied busy l f = (
    (λ (b, h). absurd (cc), λ m. absurd (denied m)),
    (λ h. let same : e ≡ writer_busy = cc in busy.0 same, λ b. ap err (busy.1 b)),
    λ _ _. (l, f),
  )

  inserts : (ttl : ℕ) → MayAcquire → may_insert (made ttl) bumped ≡ true
  unfolding may_insert new_lease
  inserts ttl m = ground (
    arith,
    used_by_none fresh.lease_id db.leases m.new_id,
    m.batch,
    m.session,
    find-none-any (is_blocking input.workspace_id) db.leases
        (free-none input.workspace_id db m.free),
  )

  same_ttl : (ttl : ℕ) → positive input.ttl_ms ≡ some ttl → (n : ℕ) → Lasts input n → n ≡ ttl
  same_ttl ttl good n l =
      let e : some n ≡ some ttl = sym (ap positive l.0 ∙ ttl_some n l.1) ∙ good in cc

  -- The request is well formed, and no writer holds the workspace.
  module _ (named : is_blank input.workspace_id ≡ false) (ttl : ℕ)
      (good : positive input.ttl_ms ≡ some ttl)
      (f : find (is_blocking input.workspace_id) db.leases ≡ none) where
    not_busy : (e : Error) → e ≢ writer_busy → (e ≡ writer_busy) ↔ IsBusy
    not_busy e n = (λ h. absurd (n h), λ b. absurd (b.held (none-free input.workspace_id db f)))

    may : now + ttl ≤ max_time → may_insert (made ttl) bumped ≡ true → MayAcquire
    unfolding may_insert new_lease
    may ends h = record {
      named = named;
      ttl = ttl;
      lasts = some_ttl input.ttl_ms ttl good;
      ends = ends;
      free = none-free input.workspace_id db f;
      new_id = unused fresh.lease_id db.leases (ground (arith, h));
      batch = ground (arith, h);
      session = ground (arith, h);
    }

    admit-IsExact : IsExact (transaction (admit digest input fresh ttl now) db)
    unfolding admit insert_lease
    admit-IsExact = elim (Bool-cases (ltb max_time (now + ttl))) [
      | inl late ↦
          rw (transaction, admit, late)
            (refused-IsExact invalid_argument db
              (λ m.
                let same = same_ttl ttl good m.ttl m.lasts in
                absurd (ground (arith, late, m.ends, same)))
              (not_busy invalid_argument (λ h. absurd (cc))) refl refl)
      | inr soon ↦ elim (Bool-cases (may_insert (made ttl) bumped)) [
        | inl room ↦
            rw (transaction, admit, soon, room)
              (
                (λ _. may (ground (arith, soon)) room, λ _. (_, refl)),
                (λ h. absurd (cc), λ b. absurd (b.held (none-free input.workspace_id db f))),
                λ e h. absurd (cc),
              )
        | inr full ↦
            rw (transaction, admit, soon, full)
              (refused-IsExact constraint_violated db
                (λ m. absurd (ground (arith, full, inserts ttl m)))
                (not_busy constraint_violated (λ h. absurd (cc))) refl refl)
      ]
    ]

  -- A request is admitted exactly if it names a workspace, its lifetime is positive and ends within
  -- the range of Date, every writer lease of the workspace is released, no row has its lease id, and
  -- its owners are registered. It fails as busy exactly if it names a workspace, its lifetime is
  -- positive and a writer lease of the workspace, expired or not, is not released. Where it is
  -- refused, for any reason, the leases and the allocated generations stay as they are.
  pub acquire-IsExact : IsExact (acquire_writer_lease digest input fresh now db)
  unfolding acquire_writer_lease record_policy_denial
  acquire-IsExact = elim (Bool-cases (is_blank input.workspace_id)) [
    | inl blank ↦
        rw (acquire_writer_lease, blank)
          (refused-IsExact invalid_argument db (λ m. absurd (ground (arith, blank, m.named)))
            (λ h. absurd (cc), λ b. absurd (ground (arith, blank, b.named))) refl refl)
    | inr named ↦ elim (Option-cases (positive input.ttl_ms)) [
      | inl bad ↦
          rw (acquire_writer_lease, named, bad)
            (refused-IsExact invalid_argument db (λ m. absurd (lasting bad m.ttl m.lasts))
              (λ h. absurd (cc), λ b. absurd (lasting bad b.ttl b.lasts)) refl refl)
      | inr (ttl, good) ↦ elim (Option-cases (find (is_blocking input.workspace_id) db.leases)) [
        | inr (held, f) ↦
            rw (acquire_writer_lease, named, good, f)
              (refused-IsExact writer_busy
                (record_policy_denial input.workspace_id "WORKSPACE_WRITER_BUSY"
                  (get_or input.owner_session_id input.owner_batch_id)
                  (("state", lease_state held.state) ∷ []) now db)
                (λ m. holding held f m.free)
                (
                  λ _. record {
                    named = named;
                    ttl = ttl;
                    lasts = some_ttl input.ttl_ms ttl good;
                    held = holding held f;
                  },
                  λ _. refl,
                )
                refl refl)
        | inl f ↦ rw (acquire_writer_lease, named, good, f) (admit-IsExact named ttl good f)
      ]
    ]
  ]
    where
      lasting : positive input.ttl_ms ≡ none → (n : ℕ) → Lasts input n → ⊥
      lasting bad n l =
          let e : none ≡ some n = sym bad ∙ ap positive l.0 ∙ ttl_some n l.1 in absurd (cc)

      holding :
          (held : Lease)
          → find (is_blocking input.workspace_id) db.leases ≡ some held
          → ¬ IsFree input.workspace_id db
      holding held f free =
          let e : none ≡ some held = sym (free-none input.workspace_id db free) ∙ f in absurd (cc)
