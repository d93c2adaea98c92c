-- ===== src/Workflow/Runs.antt =====
-- Whole runs of the workflow: any operations in any order, each by any actor, with a store that
-- starts empty and artifact files that anybody may replace in between.
use mathlib.Core.List.{foldl}
use agentic_engineering_cont.Prelude.{String, ◌≡◌, refl, some, List, [], ◌∷◌}
use agentic_engineering_cont.Prelude.Platform.{Platform}
use agentic_engineering_cont.Workflow.Lifecycle.{WorkItem, closed}
use agentic_engineering_cont.Workflow.Store.{State}
use agentic_engineering_cont.Workflow.Store.Rows.{row, item_of}
use agentic_engineering_cont.Workflow.Governed.{
  WorkflowPolicy, Report, ingest_run, triage, plan, approve_execution, execute, validate,
  approve_closure,
}
use agentic_engineering_cont.Workflow.Governed.Moves.{AllSafe}
use agentic_engineering_cont.Workflow.Governed.Ingest.{ingest_run-AllSafe}
use agentic_engineering_cont.Workflow.Governed.Preparing.{triage-AllSafe, plan-AllSafe}
use agentic_engineering_cont.Workflow.Governed.Approvals.{
  approve_execution-AllSafe, approve_closure-AllSafe,
}
use agentic_engineering_cont.Workflow.Governed.Attempts.{execute-AllSafe, validate-AllSafe}
use agentic_engineering_cont.Workflow.Store.Chained.{IsChained}
use agentic_engineering_cont.Workflow.Governed.Chained.{
  Chained-ingest_run, Chained-triage, Chained-plan, Chained-approve_execution, Chained-execute,
  Chained-validate, Chained-approve_closure,
}
use agentic_engineering_cont.Workflow.Duties.{Released, ClosedBy, ItemSafe}

-- A call of a method of GovernedWorkflow, or a change of the files from outside.
pub data Operation : Type 0 where
  ingesting : (run_id actor : String) → List Report → Operation
  triaging : (id actor owner : String) → Operation
  planning : (id actor : String) → Operation
  approving_execution : (id actor decision comment : String) → Operation
  executing_plan : (id actor : String) → Operation
  validating_result : (id actor : String) → Operation
  approving_closure : (id actor decision comment : String) → Operation
  replacing_files : List (String × String) → Operation

abbrev pub empty_state : State
empty_state = record {
  db = record { items = []; plans = []; approvals = []; executions = []; events = [] };
  readings = 0;
  files = [];
}

module _ (p : Platform) (runtime_root : String) (policy : WorkflowPolicy) where
  -- The state after a call, whether it returned or raised.
  unfoldable pub perform : State → Operation → State
  perform s (ingesting run_id actor reports) =
      (ingest_run p runtime_root policy run_id actor reports s).1
  perform s (triaging id actor owner) = (triage p runtime_root policy id actor owner s).1
  perform s (planning id actor) = (plan p runtime_root policy id actor s).1
  perform s (approving_execution id actor decision comment) =
      (approve_execution p runtime_root policy id actor decision comment s).1
  perform s (executing_plan id actor) = (execute p runtime_root policy id actor s).1
  perform s (validating_result id actor) = (validate p runtime_root policy id actor s).1
  perform s (approving_closure id actor decision comment) =
      (approve_closure p runtime_root policy id actor decision comment s).1
  perform s (replacing_files files) = record s { files = files }

  abbrev pub run : State → List Operation → State
  run s operations = foldl perform s operations

  perform-AllSafe : (s : State) (op : Operation) → AllSafe s → AllSafe (perform s op)
  unfolding perform
  perform-AllSafe s (ingesting run_id actor reports) h =
      (ingest_run-AllSafe p runtime_root policy run_id actor reports).at s h
  perform-AllSafe s (triaging id actor owner) h =
      (triage-AllSafe p id runtime_root policy actor owner).at s h
  perform-AllSafe s (planning id actor) h = (plan-AllSafe p id runtime_root policy actor).at s h
  perform-AllSafe s (approving_execution id actor decision comment) h =
      (approve_execution-AllSafe p id runtime_root policy actor decision comment).at s h
  perform-AllSafe s (executing_plan id actor) h =
      (execute-AllSafe p id runtime_root policy actor).at s h
  perform-AllSafe s (validating_result id actor) h =
      (validate-AllSafe p id runtime_root policy actor).at s h
  perform-AllSafe s (approving_closure id actor decision comment) h =
      (approve_closure-AllSafe p id runtime_root policy actor decision comment).at s h
  perform-AllSafe s (replacing_files files) h = h

  run-AllSafe : (s : State) (ops : List Operation) → AllSafe s → AllSafe (run s ops)
  run-AllSafe s [] h = h
  run-AllSafe s (op ∷ ops) h = run-AllSafe (perform s op) ops (perform-AllSafe s op h)

  pub run-ItemSafe :
      (ops : List Operation) (id : String) (item : WorkItem)
      → item_of id (run empty_state ops).db.items ≡ some item
      → ItemSafe item
          (row id (run empty_state ops).db).plan
          (row id (run empty_state ops).db).approvals
          (row id (run empty_state ops).db).executions
  run-ItemSafe ops id item found =
      rw found at (run-AllSafe empty_state ops (λ j. (refl, refl, refl)) id)

  -- After any run of GovernedWorkflow's operations from an empty store, a closed item was released
  -- by an approval of the execution whose actor neither created nor planned it and ran none of its
  -- attempts; and its last approval closed it, by an actor who gave none of the earlier approvals,
  -- did not create the item and did not run its newest execution.
  pub closed-separates_duties :
      (ops : List Operation) (id : String) (item : WorkItem)
      → item_of id (run empty_state ops).db.items ≡ some item
      → item.state ≡ closed
      → Released item
          (row id (run empty_state ops).db).plan
          (row id (run empty_state ops).db).approvals
          (row id (run empty_state ops).db).executions
        × ClosedBy item
            (row id (run empty_state ops).db).approvals
            (row id (run empty_state ops).db).executions
  closed-separates_duties ops id item found done =
      let safe = run-ItemSafe ops id item found in
      (safe.released (rw done refl), safe.closed_by done)

  perform-IsChained : (s : State) (op : Operation) → IsChained p s → IsChained p (perform s op)
  unfolding perform
  perform-IsChained s (ingesting run_id actor reports) h =
      (Chained-ingest_run p runtime_root policy run_id actor reports).at s h
  perform-IsChained s (triaging id actor owner) h =
      (Chained-triage p runtime_root policy id actor owner).at s h
  perform-IsChained s (planning id actor) h = (Chained-plan p runtime_root policy id actor).at s h
  perform-IsChained s (approving_execution id actor decision comment) h =
      (Chained-approve_execution p runtime_root policy id actor decision comment).at s h
  perform-IsChained s (executing_plan id actor) h =
      (Chained-execute p runtime_root policy id actor).at s h
  perform-IsChained s (validating_result id actor) h =
      (Chained-validate p runtime_root policy id actor).at s h
  perform-IsChained s (approving_closure id actor decision comment) h =
      (Chained-approve_closure p runtime_root policy id actor decision comment).at s h
  perform-IsChained s (replacing_files files) h = h

  -- From a state whose events pass verify_event_chain, any run of GovernedWorkflow's operations
  -- leads to such a state, also through operations that raise.
  pub run-IsChained : (s : State) (ops : List Operation) → IsChained p s → IsChained p (run s ops)
  run-IsChained s [] h = h
  run-IsChained s (op ∷ ops) h = run-IsChained (perform s op) ops (perform-IsChained s op h)
