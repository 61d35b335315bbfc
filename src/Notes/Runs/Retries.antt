-- ===== src/Notes/Runs/Retries.antt =====
-- How many failing calls `withRetry` (src/shared/utils/retry.ts) makes up for.
use graph_node_be.Common.{
  ℕ, zero, suc, ◌-◌, ◌≡◌, refl, Bool, true, false, List, [], ◌∷◌, leb, if◌then◌else◌, arith,
}
use graph_node_be.Store.Effects.{M, ok, err, upstream}
use graph_node_be.Notes.Docs.{Tables}
use graph_node_be.Notes.Effects.{run, with_retry, retry}

-- The next `k` calls fail, and no later one.
abbrev pub failing : ℕ → List Bool
failing zero = []
failing (suc k) = true ∷ failing k

-- A statement on the collections that would succeed, with its retries: up to three failing calls in
-- a row change nothing in its answer and its effect. With more it throws UpstreamError after four
-- attempts, and no document has changed.
pub with_retry-run :
    {G A : Type 0} (t : M Tables A) (a : A) (d d' : Tables) (g : G) (k : ℕ)
    → t d ≡ (ok a, d')
    → with_retry (run t) (record { mongo = record { db = d; faults = failing k }; graph = g }) ≡ (
        if leb k 3 then (ok a, record { mongo = record { db = d'; faults = [] }; graph = g }) else (
          err upstream,
          record { mongo = record { db = d; faults = failing (k - 4) }; graph = g },
        ))
unfolding retry
with_retry-run t a d d' g zero e = rw e refl
with_retry-run t a d d' g (suc zero) e = rw e refl
with_retry-run t a d d' g (suc (suc zero)) e = rw e refl
with_retry-run t a d d' g (suc (suc (suc zero))) e = rw e refl
with_retry-run t a d d' g (suc (suc (suc (suc k)))) e =
    let more : leb (suc (suc (suc (suc k)))) 3 ≡ false = ground arith in
    let left : suc (suc (suc (suc k))) - 4 ≡ k = omega arith in rw (more, left) refl
