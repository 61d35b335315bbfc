-- ===== src/Store/Preserves.antt =====
-- A property of the database that a method keeps, whatever fails on the way and however it ends:
-- one rule for each way of composing methods, for `search`.
use graph_node_be.Common.{refl, Bool, true, false, ◌≡◌, Bool-cases, inl, inr}
use graph_node_be.Store.Rows.{Database}
use graph_node_be.Store.Effects.{
  later, gets, Error, Result, ok, err, Tx, World, Action, pure, raise, raise_if, continue, ◌>>=◌,
  ◌>>◌, catch, handle, roll_back, fails, call,
}

-- The method keeps `I`.
pub record Preserves (I : Database → Type 0) {A : Type 0} (m : Action A) : Type 0 where
  pub keeps : (w : World) → I w.db → I (m w).1.db

-- The transaction keeps `I` where it does not throw.
pub record Commits (I : Database → Type 0) {A : Type 0} (t : Tx A) : Type 0 where
  pub keeps : (d : Database) → I d → I (roll_back d (t d)).1

module _ {I : Database → Type 0} where
  pub pure-Preserves : {A : Type 0} (a : A) → Preserves I (pure a)
  pure-Preserves a = record { keeps = λ w h. h }

  pub raise-Preserves : {A : Type 0} (e : Error) → Preserves I (raise {A = A} e)
  raise-Preserves e = record { keeps = λ w h. h }

  pub raise_if-Preserves : (b : Bool) (e : Error) → Preserves I (raise_if b e)
  raise_if-Preserves true e = record { keeps = λ w h. h }
  raise_if-Preserves false e = record { keeps = λ w h. h }

  continue_keeps :
      {A B : Type 0} (f : A → Action B) (r : Result A) (w : World)
      → ((a : A) → Preserves I (f a))
      → I w.db
      → I (continue f (r, w)).1.db
  continue_keeps f (ok a) w hf h = (hf a).keeps w h
  continue_keeps f (err e) w hf h = h

  pub bind-Preserves :
      {A B : Type 0} (m : Action A) (f : A → Action B)
      → Preserves I m
      → ((a : A) → Preserves I (f a))
      → Preserves I (m >>= f)
  bind-Preserves m f hm hf = record {
    keeps = λ w h. continue_keeps f (m w).0 (m w).1 hf (hm.keeps w h);
  }

  pub then-Preserves :
      {A B : Type 0} (m : Action A) (k : Action B)
      → Preserves I m
      → Preserves I k
      → Preserves I (m >> k)
  then-Preserves m k hm hk = bind-Preserves m (λ _. k) hm (λ _. hk)

  handle_keeps :
      {A : Type 0} (h : Error → Action A) (r : Result A) (w : World)
      → ((e : Error) → Preserves I (h e))
      → I w.db
      → I (handle h (r, w)).1.db
  handle_keeps h (ok a) w hh i = i
  handle_keeps h (err e) w hh i = (hh e).keeps w i

  pub catch-Preserves :
      {A : Type 0} (m : Action A) (h : Error → Action A)
      → Preserves I m
      → ((e : Error) → Preserves I (h e))
      → Preserves I (catch m h)
  catch-Preserves m h hm hh = record {
    keeps = λ w i. handle_keeps h (m w).0 (m w).1 hh (hm.keeps w i);
  }

  -- A failed call changes nothing.
  pub call-Preserves : {A : Type 0} (t : Tx A) → Commits I t → Preserves I (call t)
  call-Preserves t c = record {
    keeps = λ w i. elim (Bool-cases (fails w.faults)) [
      | inl failed ↦ rw failed i
      | inr fine ↦ rw fine (c.keeps w.db i)
    ];
  }

  pub gets-Preserves : {A : Type 0} (f : Database → A) → Preserves I (call (gets f))
  gets-Preserves f = call-Preserves (gets f) (record { keeps = λ d i. i })

  -- A read hands on what it saw: nothing else runs before the next call of this method.
  pub read-Preserves :
      {A B : Type 0} (f : Database → A) (k : A → Action B)
      → ((a : A) (w : World) → I w.db → f w.db ≡ a → I (k a w).1.db)
      → Preserves I (call (gets f) >>= k)
  read-Preserves f k h = record {
    keeps = λ w i. elim (Bool-cases (fails w.faults)) [
      | inl failed ↦ rw failed i
      | inr fine ↦ rw fine (h (f w.db) (record w { faults = later w.faults }) i refl)
    ];
  }

  pub ruleset preserves =
      (pure-Preserves, raise-Preserves, raise_if-Preserves, bind-Preserves, then-Preserves)

-- A method that begins with `K` and ends with `I`, also where it stops early.
pub record Ensures (K I : Database → Type 0) {A : Type 0} (m : Action A) : Type 0 where
  pub keeps : (w : World) → K w.db → I (m w).1.db

module _ {K I : Database → Type 0} where
  continue_ensures :
      {A B : Type 0} (f : A → Action B) (r : Result A) (w : World)
      → ((d : Database) → K d → I d)
      → ((a : A) → Ensures K I (f a))
      → K w.db
      → I (continue f (r, w)).1.db
  continue_ensures f (ok a) w weaken hf h = (hf a).keeps w h
  continue_ensures f (err e) w weaken hf h = weaken w.db h

  pub bind-Ensures :
      {A B : Type 0} (m : Action A) (f : A → Action B)
      → ((d : Database) → K d → I d)
      → Preserves K m
      → ((a : A) → Ensures K I (f a))
      → Ensures K I (m >>= f)
  bind-Ensures m f weaken hm hf = record {
    keeps = λ w h. continue_ensures f (m w).0 (m w).1 weaken hf (hm.keeps w h);
  }

  pub after-Ensures :
      {A B : Type 0} (m : Action A) (f : A → Action B)
      → Ensures K I m
      → ((a : A) → Preserves I (f a))
      → Ensures K I (m >>= f)
  after-Ensures m f hm hf = record {
    keeps = λ w h. continue_keeps f (m w).0 (m w).1 hf (hm.keeps w h);
  }

  pub call-Ensures :
      {A : Type 0} (t : Tx A)
      → ((d : Database) → K d → I d)
      → ((d : Database) → K d → I (roll_back d (t d)).1)
      → Ensures K I (call t)
  call-Ensures t weaken c = record {
    keeps = λ w i. elim (Bool-cases (fails w.faults)) [
      | inl failed ↦ rw failed (weaken w.db i)
      | inr fine ↦ rw fine (c w.db i)
    ];
  }

  pub catch-Ensures :
      {A : Type 0} (m : Action A) (h : Error → Action A)
      → Ensures K I m
      → ((e : Error) → Preserves I (h e))
      → Ensures K I (catch m h)
  catch-Ensures m h hm hh = record {
    keeps = λ w i. handle_keeps h (m w).0 (m w).1 hh (hm.keeps w i);
  }
