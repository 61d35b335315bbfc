-- ===== src/Notes/Runs/Atomic.antt =====
-- Reasoning on Notes.Effects: what holds after a method that answers.
use graph_node_be.Common.{◌≡◌, refl, inl, inr, Bool, Option, none, some, List, Bool-cases}
use graph_node_be.Store.Effects.{
  ◌>>◌, gets, modify, M, Error, Result, ok, err, upstream, handle, continue, raise, roll_back,
  leave, fails, later, or_raise, ◌>>=◌,
}
use graph_node_be.Notes.Docs.{Tables}
use graph_node_be.Notes.Effects.{Stores, Act, query, run, on_graph, put_mongo, put_graph}

-- The value and the collections after a method, where it answers.
abbrev pub OnOk : {G A : Type 0} → (A → Tables → Type 0) → Result A × Stores G → Type 0
OnOk P (ok a, s) = P a s.mongo.db
OnOk P (err e, s) = Unit

abbrev pub OnOkTx : {A : Type 0} → (A → Tables → Type 0) → Result A × Tables → Type 0
OnOkTx P (ok a, t) = P a t
OnOkTx P (err e, t) = Unit

-- The same of the method run from `s`, as a type of its own for the rules below.
pub record Leaves {G A : Type 0} (P : A → Tables → Type 0) (m : Act G A) (s : Stores G)
    : Type 0 where
  pub holds : OnOk P (m s)

module _ {G A : Type 0} where
  leave_ok :
      (P : A → Tables → Type 0) (s : Stores G) (fs : List Bool) (d : Tables) (p : Result A × Tables)
      → OnOkTx P p
      → OnOk P (put_mongo s (leave fs (roll_back d p)))
  leave_ok P s fs d (ok a, t) h = h
  leave_ok P s fs d (err e, t) h = tt

  pub query_ok :
      (P : A → Tables → Type 0) (t : M Tables A) (s : Stores G)
      → OnOkTx P (t s.mongo.db)
      → OnOk P (query t s)
  query_ok P t s h = elim (Bool-cases (fails s.mongo.faults)) [
    | inl failed ↦ rw failed tt
    | inr fine ↦ rw fine (leave_ok P s (later s.mongo.faults) s.mongo.db (t s.mongo.db) h)
  ]

  handle_ok :
      (P : A → Tables → Type 0) (e : Error) (r : Result A × Stores G)
      → OnOk P r
      → OnOk P (handle (λ _. raise e) r)
  handle_ok P e (ok a, s) h = h
  handle_ok P e (err e', s) h = tt

  pub run_ok :
      (P : A → Tables → Type 0) (t : M Tables A) (s : Stores G)
      → OnOkTx P (t s.mongo.db)
      → OnOk P (run t s)
  run_ok P t s h = handle_ok P upstream (query t s) (query_ok P t s h)

  pub graph_ok :
      (P : A → Tables → Type 0) (m : M G A) (s : Stores G)
      → ((a : A) → P a s.mongo.db)
      → OnOk P (on_graph m s)
  graph_ok P m s h = go (m s.graph)
    where
      go : (r : Result A × G) → OnOk P (put_graph s r)
      go (ok a, g) = h a
      go (err e, g) = tt

continue_ok :
    {G A B : Type 0} (Q : A → Tables → Type 0) (P : B → Tables → Type 0) (f : A → Act G B)
    (r : Result A × Stores G)
    → OnOk Q r
    → ((a : A) (s : Stores G) → Q a s.mongo.db → OnOk P (f a s))
    → OnOk P (continue f r)
continue_ok Q P f (ok a, s) h k = k a s h
continue_ok Q P f (err e, s) h k = tt

pub bind_ok :
    {G A B : Type 0} (Q : A → Tables → Type 0) (P : B → Tables → Type 0) (m : Act G A)
    (f : A → Act G B) (s : Stores G)
    → OnOk Q (m s)
    → ((a : A) (s' : Stores G) → Q a s'.mongo.db → OnOk P (f a s'))
    → OnOk P ((m >>= f) s)
bind_ok Q P m f s h k = continue_ok Q P f (m s) h k

module _ {G A B : Type 0} (P : B → Tables → Type 0) (g : Tables → A) (k : A → Act G B)
    (s : Stores G) where
  IsRead : A → Tables → Type 0
  IsRead a d = (a ≡ g s.mongo.db) × (d ≡ s.mongo.db)

  read_on :
      ((s' : Stores G) → s'.mongo.db ≡ s.mongo.db → Leaves P (k (g s.mongo.db)) s')
      → (a : A) (s' : Stores G) → IsRead a s'.mongo.db
      → OnOk P (k a s')
  unfolding IsRead
  read_on h a s' (seen, same) = rw seen (h s' same).holds

  pub query_then :
      ((s' : Stores G) → s'.mongo.db ≡ s.mongo.db → Leaves P (k (g s.mongo.db)) s')
      → Leaves P (query (gets g) >>= k) s
  unfolding IsRead
  query_then h = record {
    holds =
        bind_ok IsRead P (query (gets g)) k s (query_ok IsRead (gets g) s (refl, refl)) (read_on h);
  }

  pub read_then :
      ((s' : Stores G) → s'.mongo.db ≡ s.mongo.db → Leaves P (k (g s.mongo.db)) s')
      → Leaves P (run (gets g) >>= k) s
  unfolding IsRead
  read_then h = record {
    holds = bind_ok IsRead P (run (gets g)) k s (run_ok IsRead (gets g) s (refl, refl)) (read_on h);
  }

pub write_then :
    {G B : Type 0} (P : B → Tables → Type 0) (h : Tables → Tables) (k : Act G B) (s : Stores G)
    → ((s' : Stores G) → s'.mongo.db ≡ h s.mongo.db → Leaves P k s')
    → Leaves P (run (modify h) >> k) s
write_then P h k s next = record {
  holds =
      bind_ok (λ _ d. d ≡ h s.mongo.db) P (run (modify h)) (λ _. k) s
        (run_ok (λ _ d. d ≡ h s.mongo.db) (modify h) s refl) (λ _ s' e. (next s' e).holds);
}

pub or_raise_then :
    {G A B : Type 0} (P : B → Tables → Type 0) (o : Option A) (e : Error) (k : A → Act G B)
    (s : Stores G)
    → ((a : A) → o ≡ some a → Leaves P (k a) s)
    → Leaves P (or_raise o e >>= k) s
or_raise_then P none e k s h = record { holds = tt }
or_raise_then P (some a) e k s h = record { holds = (h a refl).holds }

pub bind_then :
    {G A B : Type 0} (Q : A → Tables → Type 0) (P : B → Tables → Type 0) (m : Act G A)
    (k : A → Act G B) (s : Stores G)
    → Leaves Q m s
    → ((a : A) (s' : Stores G) → Q a s'.mongo.db → Leaves P (k a) s')
    → Leaves P (m >>= k) s
bind_then Q P m k s h next = record {
  holds = bind_ok Q P m k s h.holds (λ a s' q. (next a s' q).holds);
}
