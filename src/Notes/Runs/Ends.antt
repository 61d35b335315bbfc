-- ===== src/Notes/Runs/Ends.antt =====
-- How a method of Notes.Effects ends that starts from given collections: with an answer of which
-- something is known, or with an error and the collections as they were.
use graph_node_be.Common.{
  ◌⊎◌, ℕ, zero, suc, ◌≡◌, refl, sym, inl, inr, Bool, true, false, List, Bool-cases, if◌then◌else◌,
  subst,
}
use graph_node_be.Store.Effects.{
  M, Error, Result, ok, err, upstream, pure, raise, handle, continue, raise, roll_back, leave,
  fails, later, ◌>>=◌,
}
use graph_node_be.Notes.Docs.{Tables}
use graph_node_be.Notes.Effects.{Stores, Act, query, run, put_mongo, commit, transaction, retry}
use graph_node_be.Notes.Runs.Atomic.{OnOk, OnOkTx, Leaves}

abbrev pub Ending : {G A : Type 0} → Tables → (A → Tables → Type 0) → Result A × Stores G → Type 0
Ending d P (ok a, s) = P a s.mongo.db
Ending d P (err e, s) = s.mongo.db ≡ d

pub record EndsIn {G A : Type 0} (d : Tables) (P : A → Tables → Type 0) (m : Act G A) : Type 0 where
  pub ends : (s : Stores G) → s.mongo.db ≡ d → Ending d P (m s)

module _ {G A : Type 0} (d : Tables) (P : A → Tables → Type 0) where
  pub pure-EndsIn : (a : A) → P a d → EndsIn {G = G} d P (pure a)
  pure-EndsIn a h = record { ends = λ s e. subst (P a) (sym e) h }

  leave_ending :
      (s : Stores G) (fs : List Bool) (r : Result A × Tables)
      → OnOkTx P r
      → Ending d P (put_mongo s (leave fs (roll_back d r)))
  leave_ending s fs (ok a, t) h = h
  leave_ending s fs (err e, t) h = refl

  pub query-EndsIn : (t : M Tables A) → OnOkTx P (t d) → EndsIn {G = G} d P (query t)
  query-EndsIn t h = record {
    ends = λ s e. elim (Bool-cases (fails s.mongo.faults)) [
      | inl failed ↦ rw failed e
      | inr fine ↦ rw (fine, e) (leave_ending s (later s.mongo.faults) (t d) h)
    ];
  }

  handle_ending :
      (k : Error → Act G A) (r : Result A × Stores G)
      → Ending d P r
      → ((e : Error) → EndsIn d P (k e))
      → Ending d P (handle k r)
  handle_ending k (ok a, s) h hk = h
  handle_ending k (err e, s) h hk = (hk e).ends s h

  pub raise-EndsIn : (e : Error) → EndsIn {G = G} d P (raise e)
  raise-EndsIn e = record { ends = λ s h. h }

  pub run-EndsIn : (t : M Tables A) → OnOkTx P (t d) → EndsIn {G = G} d P (run t)
  run-EndsIn t h = record {
    ends = λ s e.
        handle_ending (λ x. raise upstream) (query t s) ((query-EndsIn t h).ends s e)
          (λ x. raise-EndsIn upstream);
  }

  again-EndsIn :
      (b : Bool) (e : Error) (m : Act G A) → EndsIn d P m → EndsIn d P (if b then raise e else m)
  again-EndsIn true e m h = raise-EndsIn e
  again-EndsIn false e m h = h

  pub retry-EndsIn :
      (bails : Error → Bool) (n : ℕ) (m : Act G A) → EndsIn d P m → EndsIn d P (retry bails n m)
  unfolding retry
  retry-EndsIn bails zero m h = h
  retry-EndsIn bails (suc n) m h = record {
    ends = λ s e.
        handle_ending (λ x. if bails x then raise x else retry bails n m) (m s) (h.ends s e)
          (λ x. again-EndsIn (bails x) x (retry bails n m) (retry-EndsIn bails n m h));
  }

  pub EndsIn-Leaves : (m : Act G A) (s : Stores G) → EndsIn d P m → s.mongo.db ≡ d → Leaves P m s
  EndsIn-Leaves m s h e = record { holds = go (m s) (h.ends s e) }
    where
      go : (r : Result A × Stores G) → Ending d P r → OnOk P r
      go (ok a, s') q = q
      go (err x, s') q = tt

  -- A body that leaves the collections alone, where it answers at all
  commit_ending :
      (r : Result A × Stores G)
      → ((a : A) (d' : Tables) → P a d' → d' ≡ d)
      → OnOk P r
      → Ending d P (commit d r)
  commit_ending (err x, s) idle h = refl
  commit_ending (ok a, s) idle h = elim (Bool-cases (fails s.mongo.faults)) [
    | inl failed ↦ elim (Bool-cases (fails (later s.mongo.faults))) [
      | inl through ↦ rw (failed, through) (idle a s.mongo.db h)
      | inr lost ↦ rw (failed, lost) refl
    ]
    | inr fine ↦ rw fine h
  ]

  pub transaction-EndsIn :
      (m : Act G A)
      → ((a : A) (d' : Tables) → P a d' → d' ≡ d)
      → ((s : Stores G) → s.mongo.db ≡ d → Leaves P m s)
      → EndsIn d P (transaction m)
  transaction-EndsIn m idle h = record {
    ends = λ s e.
        subst (λ b. Ending d P (commit b (m s))) (sym e) (commit_ending (m s) idle (h s e).holds);
  }

-- A method that reads `v`, and the rest.
abbrev pub Reads : {G A : Type 0} → Tables → A → Act G A → Type 0
Reads d v m = EndsIn d (λ a d'. (a ≡ v) × (d' ≡ d)) m

module _ {G A B : Type 0} (d : Tables) (v : A) (P : B → Tables → Type 0) (m : Act G A)
    (k : A → Act G B) where
  continue_ending :
      (r : Result A × Stores G)
      → Ending d (λ a d'. (a ≡ v) × (d' ≡ d)) r
      → EndsIn d P (k v)
      → Ending d P (continue k r)
  continue_ending (ok a, s) h hk = rw h.0 (hk.ends s h.1)
  continue_ending (err e, s) h hk = h

  pub bind-EndsIn : Reads d v m → EndsIn d P (k v) → EndsIn d P (m >>= k)
  bind-EndsIn hm hk = record { ends = λ s e. continue_ending (m s) (hm.ends s e) hk }

-- How a method ends whose last step is the commit of a transaction: with an answer of which something
-- is known, with an error and the collections as they were, or with an error after a commit that
-- took effect all the same.
abbrev pub Committing :
    {G A : Type 0} → Tables → (A → Tables → Type 0) → Result A × Stores G → Type 0
Committing d P (ok a, s) = P a s.mongo.db
Committing {G} {A} d P (err e, s) = (s.mongo.db ≡ d) ⊎ ((a : A) × P a s.mongo.db)

pub record Commits {G A : Type 0} (d : Tables) (P : A → Tables → Type 0) (m : Act G A)
    : Type 0 where
  pub commits : (s : Stores G) → s.mongo.db ≡ d → Committing d P (m s)

module _ {G A : Type 0} (d : Tables) (P : A → Tables → Type 0) where
  commit-Committing : (r : Result A × Stores G) → OnOk P r → Committing d P (commit d r)
  commit-Committing (err x, s) h = inl refl
  commit-Committing (ok a, s) h = elim (Bool-cases (fails s.mongo.faults)) [
    | inl failed ↦ elim (Bool-cases (fails (later s.mongo.faults))) [
      | inl through ↦ rw (failed, through) (inr (a, h))
      | inr lost ↦ rw (failed, lost) (inl refl)
    ]
    | inr fine ↦ rw fine h
  ]

  pub transaction-Commits :
      (m : Act G A) → ((s : Stores G) → s.mongo.db ≡ d → Leaves P m s) → Commits d P (transaction m)
  transaction-Commits m h = record {
    commits = λ s e.
        subst (λ b. Committing d P (commit b (m s))) (sym e)
          (commit-Committing (m s) (h s e).holds);
  }

module _ {G A B : Type 0} (d : Tables) (v : A) (P : B → Tables → Type 0) (m : Act G A)
    (k : A → Act G B) where
  continue-Committing :
      (r : Result A × Stores G)
      → Ending d (λ a d'. (a ≡ v) × (d' ≡ d)) r
      → Commits d P (k v)
      → Committing d P (continue k r)
  continue-Committing (ok a, s) h hk = rw h.0 (hk.commits s h.1)
  continue-Committing (err e, s) h hk = inl h

  pub bind-Commits : Reads d v m → Commits d P (k v) → Commits d P (m >>= k)
  bind-Commits hm hk = record { commits = λ s e. continue-Committing (m s) (hm.ends s e) hk }
