-- ===== src/Notes/Effects.antt =====
-- The state of the note service: the two collections with the faults of the calls to come, and the
-- graph store (src/infra/graph/Neo4jMacroGraphAdapter.ts), a database of its own whose state `G`
-- and operations are parameters. A statement's error with the label
-- TransientTransactionError, which `handleError` passes on unchanged, is not told apart from other
-- errors of the driver.
use graph_node_be.Common.{ℕ, zero, suc, Bool, true, false, String, List, if◌then◌else◌}
use graph_node_be.Store.Effects.{
  M, WorldOf, Error, Result, ok, err, upstream, not_found, unknown_commit, call, catch, raise,
  fails, later,
}
use graph_node_be.Notes.Docs.{Tables}

pub record Stores (G : Type 0) : Type 0 where
  pub mongo : WorldOf Tables
  pub graph : G

abbrev pub Act : Type 0 → Type 0 → Type 0
Act G = M (Stores G)

-- `GraphManagementService.deleteNodesByOrigIds` and `restoreNodesByOrigIds`.
pub record GraphNodes (G : Type 0) : Type 0 where
  pub delete_nodes_by_orig_ids : String → List String → Bool → M G (Unit {0})
  pub restore_nodes_by_orig_ids : String → List String → M G (Unit {0})

-- What a commit that fails leaves: an unknown result (UnknownTransactionCommitResult) may have
-- taken effect, as the next of the faults says.
abbrev pub uncommitted : Tables → Tables → List Bool → WorldOf Tables
uncommitted before after fs = record { db = if fails fs then after else before; faults = later fs }

module _ {G A : Type 0} where
  abbrev pub put_mongo : Stores G → Result A × WorldOf Tables → Result A × Stores G
  put_mongo s (r, w) = (r, record s { mongo = w })

  -- One statement, with the error that the driver throws.
  abbrev pub query : M Tables A → Act G A
  query t s = put_mongo s (call t s.mongo)

  -- One statement inside `try { await … } catch (err) { this.handleError(…) }`.
  abbrev pub run : M Tables A → Act G A
  run t = catch (query t) (λ e. raise upstream)

  abbrev pub put_graph : Stores G → Result A × G → Result A × Stores G
  put_graph s (r, g) = (r, record s { graph = g })

  abbrev pub on_graph : M G A → Act G A
  on_graph m s = put_graph s (m s.graph)

  -- The end of `session.withTransaction`: the commit is a call too. Where the body throws, the
  -- collections are as they were. Every statement of a body has the session, and the graph store
  -- takes no part in it.
  abbrev pub commit : Tables → Result A × Stores G → Result A × Stores G
  commit before (err e, s) = (err e, record s { mongo = record s.mongo { db = before } })
  commit before (ok a, s) =
      if fails s.mongo.faults
      then (
        err unknown_commit,
        record s { mongo = uncommitted before s.mongo.db (later s.mongo.faults) },
      )
      else (ok a, record s { mongo = record s.mongo { faults = later s.mongo.faults } })

  abbrev pub transaction : Act G A → Act G A
  transaction m s = commit s.mongo.db (m s)

-- src/shared/utils/retry.ts passes its options to the package async-retry, whose documented loop
-- this is: `n` further attempts after the first, unless the error is one that the
-- callback hands to `bail`. The waiting times are left out.
module _ {S A : Type 0} (bails : Error → Bool) where
  unfoldable pub retry : ℕ → M S A → M S A
  retry zero m = m
  retry (suc n) m = let again = retry n m in catch m (λ e. if bails e then raise e else again)

abbrev pub retries : ℕ
retries = 3

abbrev pub never : Error → Bool
never e = false

abbrev pub is_not_found : Error → Bool
is_not_found not_found = true
is_not_found _ = false

abbrev pub with_retry : {S A : Type 0} → M S A → M S A
with_retry = retry never retries

-- What the last `catch` of the folder methods throws again.
abbrev pub passes_on : Error → Bool
passes_on not_found = true
passes_on unknown_commit = true
passes_on _ = false

abbrev pub again_or_upstream : {S A : Type 0} → Error → M S A
again_or_upstream e = if passes_on e then raise e else raise upstream

-- The retry of the folder methods, and that `catch`.
abbrev pub with_bail : {S A : Type 0} → M S A → M S A
with_bail m = catch (retry is_not_found retries m) again_or_upstream
