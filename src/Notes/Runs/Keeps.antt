-- ===== src/Notes/Runs/Keeps.antt =====
-- A property of the collections that a method of Notes.Effects keeps, whatever fails on the way: one
-- rule for each way of composing methods.
use graph_node_be.Common.{
  ℕ, zero, suc, inl, inr, Bool, true, false, List, Bool-cases, if◌then◌else◌,
}
use graph_node_be.Store.Effects.{
  M, Error, Result, ok, err, upstream, pure, raise, raise_if, gets, catch, handle, continue, fails,
  later, leave, roll_back, ◌>>=◌,
}
use graph_node_be.Notes.Docs.{Tables}
use graph_node_be.Notes.Effects.{
  Stores, Act, query, run, on_graph, put_mongo, put_graph, commit, transaction, retry, retries,
  is_not_found, passes_on, again_or_upstream, with_bail,
}
use graph_node_be.Notes.Runs.Atomic.{OnOk, Leaves}

pub record Keeps (I : Tables → Type 0) {G A : Type 0} (m : Act G A) : Type 0 where
  pub keeps : (s : Stores G) → I s.mongo.db → I (m s).1.mongo.db

module _ (I : Tables → Type 0) {G : Type 0} where
  roll_back_keeps :
      {A : Type 0} (s : Stores G) (fs : List Bool) (d : Tables) (r : Result A × Tables)
      → I d
      → I r.1
      → I (put_mongo s (leave fs (roll_back d r))).1.mongo.db
  roll_back_keeps s fs d (ok a, t) hd h = h
  roll_back_keeps s fs d (err e, t) hd h = hd

  graph_keeps :
      {A : Type 0} (s : Stores G) (r : Result A × G) → I s.mongo.db → I (put_graph s r).1.mongo.db
  graph_keeps s (ok a, g) h = h
  graph_keeps s (err e, g) h = h

  commit_keeps :
      {A : Type 0} (before : Tables) (r : Result A × Stores G)
      → I before
      → OnOk (λ _ d. I d) r
      → I (commit before r).1.mongo.db
  commit_keeps before (err e, s) h i = h
  commit_keeps before (ok a, s) h i = elim (Bool-cases (fails s.mongo.faults)) [
    | inl failed ↦ elim (Bool-cases (fails (later s.mongo.faults))) [
      | inl through ↦ rw (failed, through) i
      | inr lost ↦ rw (failed, lost) h
    ]
    | inr fine ↦ rw fine i
  ]

module _ {I : Tables → Type 0} {G : Type 0} where
  pub pure-Keeps : {A : Type 0} (a : A) → Keeps I {G = G} (pure a)
  pure-Keeps a = record { keeps = λ s h. h }

  pub raise-Keeps : {A : Type 0} (e : Error) → Keeps I {G = G} (raise {A = A} e)
  raise-Keeps e = record { keeps = λ s h. h }

  pub raise_if-Keeps : (b : Bool) (e : Error) → Keeps I {G = G} (raise_if b e)
  raise_if-Keeps true e = record { keeps = λ s h. h }
  raise_if-Keeps false e = record { keeps = λ s h. h }

  continue_keeps :
      {A B : Type 0} (k : A → Act G B) (r : Result A × Stores G)
      → ((a : A) → Keeps I (k a))
      → I r.1.mongo.db
      → I (continue k r).1.mongo.db
  continue_keeps k (ok a, s) hk h = (hk a).keeps s h
  continue_keeps k (err e, s) hk h = h

  pub bind-Keeps :
      {A B : Type 0} (m : Act G A) (k : A → Act G B)
      → Keeps I m
      → ((a : A) → Keeps I (k a))
      → Keeps I (m >>= k)
  bind-Keeps m k hm hk = record { keeps = λ s h. continue_keeps k (m s) hk (hm.keeps s h) }

  handle_keeps :
      {A : Type 0} (k : Error → Act G A) (r : Result A × Stores G)
      → ((e : Error) → Keeps I (k e))
      → I r.1.mongo.db
      → I (handle k r).1.mongo.db
  handle_keeps k (ok a, s) hk h = h
  handle_keeps k (err e, s) hk h = (hk e).keeps s h

  pub catch-Keeps :
      {A : Type 0} (m : Act G A) (k : Error → Act G A)
      → Keeps I m
      → ((e : Error) → Keeps I (k e))
      → Keeps I (catch m k)
  catch-Keeps m k hm hk = record { keeps = λ s h. handle_keeps k (m s) hk (hm.keeps s h) }

  pub if-Keeps :
      {A : Type 0} (b : Bool) (m k : Act G A) → Keeps I m → Keeps I k → Keeps I (if b then m else k)
  if-Keeps true m k hm hk = hm
  if-Keeps false m k hm hk = hk

  pub retry-Keeps :
      {A : Type 0} (bails : Error → Bool) (n : ℕ) (m : Act G A)
      → Keeps I m
      → Keeps I (retry bails n m)
  unfolding retry
  retry-Keeps bails zero m h = h
  retry-Keeps bails (suc n) m h =
      catch-Keeps m (λ e. if bails e then raise e else retry bails n m) h
        (λ e.
          if-Keeps (bails e) (raise e) (retry bails n m) (raise-Keeps e) (retry-Keeps bails n m h))

  pub query-Keeps :
      {A : Type 0} (t : M Tables A) → ((d : Tables) → I d → I (t d).1) → Keeps I {G = G} (query t)
  query-Keeps t h = record {
    keeps = λ s i. elim (Bool-cases (fails s.mongo.faults)) [
      | inl failed ↦ rw failed i
      | inr fine ↦
          rw fine (
            roll_back_keeps I s (later s.mongo.faults) s.mongo.db (t s.mongo.db) i (h s.mongo.db i))
    ];
  }

  pub run-Keeps :
      {A : Type 0} (t : M Tables A) → ((d : Tables) → I d → I (t d).1) → Keeps I {G = G} (run t)
  run-Keeps t h =
      catch-Keeps (query t) (λ e. raise upstream) (query-Keeps t h) (λ e. raise-Keeps upstream)

  pub on_graph-Keeps : {A : Type 0} (m : M G A) → Keeps I (on_graph m)
  on_graph-Keeps m = record { keeps = λ s h. graph_keeps I s (m s.graph) h }

  -- Only a body that answers has an effect.
  pub transaction-Keeps :
      {A : Type 0} (m : Act G A)
      → ((s : Stores G) → I s.mongo.db → Leaves (λ _ d. I d) m s)
      → Keeps I (transaction m)
  transaction-Keeps m h = record { keeps = λ s i. commit_keeps I s.mongo.db (m s) i (h s i).holds }

  pub with_bail-Keeps : {A : Type 0} (m : Act G A) → Keeps I m → Keeps I (with_bail m)
  with_bail-Keeps m h =
      catch-Keeps (retry is_not_found retries m) again_or_upstream
        (retry-Keeps is_not_found retries m h)
        (λ e.
          if-Keeps (passes_on e) (raise e) (raise upstream) (raise-Keeps e) (raise-Keeps upstream))

  -- What is read is known to the rest.
  pub read-Keeps :
      {A B : Type 0} (g : Tables → A) (k : A → Act G B)
      → ((t : Tables) → I t → Keeps I (k (g t)))
      → Keeps I (run (gets g) >>= k)
  read-Keeps g k h = record {
    keeps = λ s i. elim (Bool-cases (fails s.mongo.faults)) [
      | inl failed ↦ rw failed i
      | inr fine ↦ rw fine (
          (h s.mongo.db i).keeps
            (record s { mongo = record { db = s.mongo.db; faults = later s.mongo.faults } }) i)
    ];
  }
