-- ===== src/Store/Queries.antt =====
-- The reading queries of src/store/store.cpp, on the rows that are behind the cache: pages of jobs and
-- of workflows, counts, and the attempts of a job.
use distributed_job_engine.Prelude.{
  ℕ, Bool, true, Option, none, some, List, [], ◌∷◌, ltb, ◌==◌, if◌then◌else◌, take, drop, length, ℤ,
  pos_part, Text,
}
use distributed_job_engine.Lifecycle.{JobState, same_state, all_states, to_string}
use distributed_job_engine.Job.{Job, AttemptRecord, WorkflowRecord}

-- `WHERE state=?1`, or no condition.
abbrev pub in_state : Option JobState → Job → Bool
in_state none job = true
in_state (some s) job = same_state job.state s

unfoldable pub select : Option JobState → List (ℕ × Job) → List Job
select state [] = []
select state ((id, job) ∷ rest) =
    let others = select state rest in if in_state state job then job ∷ others else others

-- `ORDER BY created_at_ms DESC, job_id DESC`; `above` is the order of the identifiers as texts.
abbrev pub newer : (ℕ → ℕ → Bool) → Job → Job → Bool
newer above a b =
    if a.created_at_ms == b.created_at_ms
    then above a.job_id b.job_id
    else ltb b.created_at_ms a.created_at_ms

unfoldable pub insert_newest : (ℕ → ℕ → Bool) → Job → List Job → List Job
insert_newest above job [] = job ∷ []
insert_newest above job (x ∷ xs) =
    let rest = insert_newest above job xs in if newer above job x then job ∷ x ∷ xs else x ∷ rest

unfoldable pub newest_first : (ℕ → ℕ → Bool) → List Job → List Job
unfolding insert_newest
newest_first above [] = []
newest_first above (j ∷ js) = insert_newest above j (newest_first above js)

-- SQLite takes a negative OFFSET for 0.
unfoldable pub list_jobs : (ℕ → ℕ → Bool) → Option JobState → ℕ → ℤ → List (ℕ × Job) → List Job
unfolding newest_first select take drop
list_jobs above state limit offset rows =
    take limit (drop (pos_part offset) (newest_first above (select state rows)))

unfoldable pub count_jobs : Option JobState → List (ℕ × Job) → ℕ
unfolding select
count_jobs state rows = length (select state rows)

-- `GROUP BY state`: a pair for each state that has rows.
unfoldable pub count_states : List JobState → List (ℕ × Job) → List (Text × ℕ)
unfolding count_jobs
count_states [] rows = []
count_states (s ∷ ss) rows =
    let others = count_states ss rows in
    let n = count_jobs (some s) rows in if n == 0 then others else (to_string s, n) ∷ others

abbrev pub count_by_state : List (ℕ × Job) → List (Text × ℕ)
count_by_state rows = count_states all_states rows

-- `WHERE job_id=?1 ORDER BY attempt ASC`.
unfoldable pub insert_attempt : AttemptRecord → List AttemptRecord → List AttemptRecord
insert_attempt a [] = a ∷ []
insert_attempt a (b ∷ bs) =
    let rest = insert_attempt a bs in if ltb b.attempt a.attempt then b ∷ rest else a ∷ b ∷ bs

unfoldable pub list_attempts : ℕ → List AttemptRecord → List AttemptRecord
unfolding insert_attempt
list_attempts job_id [] = []
list_attempts job_id (a ∷ rest) =
    let others = list_attempts job_id rest in
    if a.job_id == job_id then insert_attempt a others else others

-- `ORDER BY created_at_ms DESC LIMIT ?1`; of rows of one time the first inserted comes first.
unfoldable pub insert_workflow_row : WorkflowRecord → List WorkflowRecord → List WorkflowRecord
insert_workflow_row w [] = w ∷ []
insert_workflow_row w (v ∷ vs) =
    let rest = insert_workflow_row w vs in
    if ltb w.created_at_ms v.created_at_ms then v ∷ rest else w ∷ v ∷ vs

unfoldable pub workflow_rows : List (ℕ × WorkflowRecord) → List WorkflowRecord
unfolding insert_workflow_row
workflow_rows [] = []
workflow_rows ((id, w) ∷ rest) = insert_workflow_row w (workflow_rows rest)

unfoldable pub list_workflows : ℕ → List (ℕ × WorkflowRecord) → List WorkflowRecord
unfolding workflow_rows take
list_workflows limit rows = take limit (workflow_rows rows)
