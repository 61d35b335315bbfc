-- ===== src/Notes/Runs/Whole.antt =====
-- Reasoning on Notes.Effects: methods of which the collections see all or nothing, whatever fails on
-- the way, commits with an unknown result included.
use graph_node_be.Notes.Runs.Atomic.{OnOk, Leaves}
use graph_node_be.Common.{
  true, false, ◌⊎◌, ◌∙◌, ap, if◌then◌else◌, subst, ℕ, zero, suc, ◌≡◌, refl, inl, inr, Bool,
  Bool-cases,
}
use graph_node_be.Store.Effects.{
  Error, Result, ok, err, upstream, unknown_commit, handle, raise, fails, later,
}
use graph_node_be.Notes.Docs.{Tables}
use graph_node_be.Notes.Effects.{
  uncommitted, Stores, Act, commit, transaction, retry, retries, is_not_found, passes_on,
  again_or_upstream, with_bail,
}

-- All of `f`, or nothing: a method that answers has done all, one that throws may have done either.
pub data AllOrNothing {G A : Type 0} (f : Tables → Tables) (before : Tables)
    : Result A × Stores G → Type 0 where
  all : (a : A) (s : Stores G) → s.mongo.db ≡ f before → AllOrNothing f before (ok a, s)
  nothing : (e : Error) (s : Stores G) → s.mongo.db ≡ before → AllOrNothing f before (err e, s)
  applied : (e : Error) (s : Stores G) → s.mongo.db ≡ f before → AllOrNothing f before (err e, s)

module _ {G A : Type 0} (f : Tables → Tables) (before : Tables) where
  uncommitted_atomic :
      (s : Stores G)
      → s.mongo.db ≡ f before
      → AllOrNothing {A = A} f before (
        err unknown_commit,
        record s { mongo = uncommitted before s.mongo.db (later s.mongo.faults) },
      )
  uncommitted_atomic s h = elim (Bool-cases (fails (later s.mongo.faults))) [
    | inl through ↦ applied unknown_commit _ (rw through h)
    | inr lost ↦ nothing unknown_commit _ (rw lost refl)
  ]

  commit_atomic :
      (r : Result A × Stores G)
      → OnOk (λ a t. t ≡ f before) r
      → AllOrNothing f before (commit before r)
  commit_atomic (err e, s) h = nothing e _ refl
  commit_atomic (ok a, s) h = elim (Bool-cases (fails s.mongo.faults)) [
    | inl failed ↦ rw failed (uncommitted_atomic s h)
    | inr fine ↦ rw fine (all a _ h)
  ]

  -- What `f` did once it does not do again.
  module _ (again : f (f before) ≡ f before) (m : Act G A)
      (once : (s : Stores G) → AllOrNothing f s.mongo.db (m s)) where
    from_after :
        (d : Tables) (r : Result A × Stores G)
        → d ≡ f before
        → AllOrNothing f d r
        → AllOrNothing f before r
    from_after d _ e (all a s h) = all a s (h ∙ ap f e ∙ again)
    from_after d _ e (nothing x s h) = applied x s (h ∙ e)
    from_after d _ e (applied x s h) = applied x s (h ∙ ap f e ∙ again)

    raised_atomic :
        (e : Error) (s : Stores G)
        → (s.mongo.db ≡ before) ⊎ (s.mongo.db ≡ f before)
        → AllOrNothing {A = A} f before (raise e s)
    raised_atomic e s (inl same) = nothing e s same
    raised_atomic e s (inr done) = applied e s done

    again_atomic :
        (b : Bool) (k : Act G A) (e : Error) (s : Stores G)
        → (s.mongo.db ≡ before) ⊎ (s.mongo.db ≡ f before)
        → AllOrNothing f before (k s)
        → AllOrNothing f before ((if b then raise e else k) s)
    again_atomic true k e s (inl same) h = nothing e s same
    again_atomic true k e s (inr done) h = applied e s done
    again_atomic false k e s start h = h

    handle_atomic :
        (k : Error → Act G A) (r : Result A × Stores G)
        → AllOrNothing f before r
        → ((e : Error) (s : Stores G)
            → (s.mongo.db ≡ before) ⊎ (s.mongo.db ≡ f before)
            → AllOrNothing f before (k e s))
        → AllOrNothing f before (handle k r)
    handle_atomic k _ (all a s e) h = all a s e
    handle_atomic k _ (nothing x s e) h = h x s (inl e)
    handle_atomic k _ (applied x s e) h = h x s (inr e)

    once_atomic :
        (s : Stores G)
        → (s.mongo.db ≡ before) ⊎ (s.mongo.db ≡ f before)
        → AllOrNothing f before (m s)
    once_atomic s (inl e) = subst (λ d. AllOrNothing f d (m s)) e (once s)
    once_atomic s (inr e) = from_after s.mongo.db (m s) e (once s)

    pub retry_atomic :
        (bails : Error → Bool) (n : ℕ) (s : Stores G)
        → (s.mongo.db ≡ before) ⊎ (s.mongo.db ≡ f before)
        → AllOrNothing f before (retry bails n m s)
    unfolding retry
    retry_atomic bails zero s start = once_atomic s start
    retry_atomic bails (suc n) s start =
        handle_atomic (λ e. if bails e then raise e else retry bails n m) (m s)
          (once_atomic s start)
          (λ e s' h. again_atomic (bails e) (retry bails n m) e s' h (retry_atomic bails n s' h))

    pub with_bail_atomic :
        (s : Stores G) → s.mongo.db ≡ before → AllOrNothing f before (with_bail m s)
    with_bail_atomic s same =
        handle_atomic again_or_upstream (retry is_not_found retries m s)
          (retry_atomic is_not_found retries s (inl same))
          (λ e s' h.
            again_atomic (passes_on e) (raise upstream) e s' h (raised_atomic upstream s' h))

pub transaction_atomic :
    {G A : Type 0} (f : Tables → Tables) (m : Act G A)
    → ((s : Stores G) → Leaves (λ a t. t ≡ f s.mongo.db) m s)
    → (s : Stores G) → AllOrNothing f s.mongo.db (transaction m s)
transaction_atomic f m h s = commit_atomic f s.mongo.db (m s) (h s).holds
