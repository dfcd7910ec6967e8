-- ===== src/Engine/Remote.antt =====
-- The remote worker protocol of src/engine/engine.cpp: `register_worker`, `heartbeat_worker`,
-- `claim` and `complete`.
use distributed_job_engine.Prelude.{
  ℕ, suc, ◌+◌, Bool, true, false, ◌&&◌, Option, none, some, List, [], ◌∷◌, ◌==◌, if◌then◌else◌, ℤ,
  pos, ltz, Text, text, text_eq, lookup, insert,
}
use distributed_job_engine.Json.{Json}
use distributed_job_engine.Job.{
  Job, RunningInfo, CancelReason, timeout, user, Metrics, WorkerInfo, WorkerRecord, LeasedJob,
}
use distributed_job_engine.Queue.{QueueEntry}
use distributed_job_engine.Queue.Waiting.{Call, pop_batch}
use distributed_job_engine.Engine.State.{Env, Engine, get_job, count}
use distributed_job_engine.Engine.Attempts.{begin_attempt}
use distributed_job_engine.Engine.Completion.{count_stale, finish_attempt}

abbrev count_registered : Metrics → Metrics
count_registered m = record m { workers_registered = suc m.workers_registered }

-- `upsert_worker`; its answer is not looked at.
unfoldable pub register_worker : Env → Text → ℤ → Engine → Engine × ℕ
register_worker env name capacity e =
    let id = env.new_id 0 in
    let cap = if ltz (pos 0) capacity then capacity else pos 1 in
    let info : WorkerInfo = record {
      name = name;
      capacity = cap;
      last_heartbeat_ms = env.wall;
      alive = true;
    } in
    let rec : WorkerRecord = record {
      worker_id = id;
      name = name;
      capacity = cap;
      is_alive = true;
      registered_ms = env.wall;
      last_heartbeat_ms = env.wall;
    } in
    (
      count count_registered (record e {
        remote_workers = insert id info e.remote_workers;
        store =
            if env.workflow_writes
            then record (e.store) { workers = insert id rec e.store.workers }
            else e.store;
      }),
      id,
    )

abbrev pub beat : ℕ → WorkerInfo → WorkerInfo
beat now w = record w { last_heartbeat_ms = now; alive = true }

abbrev pub held_by : ℕ → RunningInfo → Bool
held_by worker_id info = info.remote && (info.owner == worker_id)

-- The loop over `running_`: the leases of the worker are extended.
unfoldable pub extend_leases : ℕ → ℕ → List (ℕ × RunningInfo) → List (ℕ × RunningInfo)
extend_leases worker_id expires [] = []
extend_leases worker_id expires ((id, info) ∷ rest) =
    (id, if held_by worker_id info then record info { lease_expires_ms = expires } else info)
    ∷ extend_leases worker_id expires rest

abbrev flag_of : RunningInfo → Engine → Bool
flag_of info e = elim (lookup info.cell e.cells) [ none ↦ false | some c ↦ c.flag ]

-- `out_cancelled`: the jobs of the worker whose cancel flag is up.
unfoldable pub cancelled_of : ℕ → List (ℕ × RunningInfo) → Engine → List ℕ
cancelled_of worker_id [] e = []
cancelled_of worker_id ((id, info) ∷ rest) e =
    let others = cancelled_of worker_id rest e in
    if held_by worker_id info && flag_of info e then id ∷ others else others

unfoldable pub touch_worker : ℕ → Env → Engine → Engine
touch_worker worker_id env e = elim (lookup worker_id e.store.workers) [
  | none ↦ e
  | some w ↦
      if env.workflow_writes
      then record e {
        store = record (e.store) {
          workers =
              insert worker_id (record w { last_heartbeat_ms = env.wall; is_alive = true })
                e.store.workers;
        };
      }
      else e
]

unfoldable pub heartbeat_worker : Env → ℕ → Engine → Engine × Bool × List ℕ
unfolding extend_leases cancelled_of touch_worker
heartbeat_worker env worker_id e = elim (lookup worker_id e.remote_workers) [
  | none ↦ (e, false, [])
  | some w ↦ (
    touch_worker worker_id env (record e {
      remote_workers = insert worker_id (beat env.wall w) e.remote_workers;
      running = extend_leases worker_id (env.wall + e.cfg.lease_duration_ms) e.running;
    }),
    true,
    cancelled_of worker_id e.running e,
  )
]

abbrev leased : Job → LeasedJob
leased job = record {
  job_id = job.job_id;
  type = job.type;
  payload = job.payload;
  attempt = job.attempt;
  lease_token = job.lease_token;
  timeout_ms = job.timeout_ms;
  lease_expires_ms = job.lease_expires_ms;
}

-- The loop over the batch; each round has its own clocks and randomness.
unfoldable pub claim_entries : (ℕ → Env) → ℕ → List QueueEntry → Engine → Engine × List LeasedJob
claim_entries env worker_id [] e = (e, [])
claim_entries env worker_id (entry ∷ rest) e =
    let b = begin_attempt (env 0) entry.job_id worker_id entry.eligible_at_steady true e in
    let others = claim_entries (λ i. env (suc i)) worker_id rest b.0 in
    (others.0, elim b.1 [ none ↦ others.1 | some (job, info) ↦ leased job ∷ others.1 ])

-- What `pop_batch` is given: the rounds of its wait, and the calls between its two locks.
pub record BatchWait : Type 0 where
  pub wait_ms : ℤ
  pub rounds : List (ℕ × List Call)
  pub between : List Call
  pub now : ℕ

unfoldable pub claim : (ℕ → Env) → ℕ → ℕ → BatchWait → Engine → Engine × List LeasedJob
unfolding claim_entries
claim env worker_id max_jobs wait e = elim (lookup worker_id e.remote_workers) [
  | none ↦ (e, [])
  | some w ↦
      let e' = record e {
        remote_workers = insert worker_id (beat (env 0).wall w) e.remote_workers;
      } in
      if e'.stop_requested
      then (e', [])
      else let b =
          pop_batch max_jobs (env 0).steady wait.wait_ms wait.rounds wait.between wait.now
            e'.queue in
        claim_entries (λ i. env (suc i)) worker_id b.0 (record e' { queue = b.1 })
]

pub data CompleteStatus : Type 0 where
  accepted stale_lease not_found : CompleteStatus

abbrev pub set_reason : CancelReason → RunningInfo → Engine → Engine
set_reason r info e = record e {
  cells = elim (lookup info.cell e.cells) [
    | none ↦ e.cells
    | some c ↦ insert info.cell (record c { reason = r }) e.cells
  ];
}

abbrev pub reported : Text → RunningInfo → Engine → Engine
reported status info e =
    if text_eq status (text "TIMED_OUT")
    then set_reason timeout info e
    else if text_eq status (text "CANCELLED")
    then set_reason user info e
    else e

abbrev pub is_holder : ℕ → ℕ → ℕ → RunningInfo → Bool
is_holder worker_id attempt lease_token info =
    (info.lease_token == lease_token) && (info.owner == worker_id) && (info.attempt == attempt)

-- The check of a report, under `run_mutex_`: the running entry, if the report is its holder's.
unfoldable pub check_lease : ℕ → ℕ → ℕ → ℕ → Engine → Engine × Option RunningInfo
check_lease worker_id job_id attempt lease_token e = elim (lookup job_id e.running) [
  | none ↦ (count count_stale e, none)
  | some info ↦
      if is_holder worker_id attempt lease_token info
      then (e, some info)
      else (count count_stale e, none)
]

-- The rest of `complete`, behind the lock: other calls may come in between. What `finish_attempt` does
-- with the result is not looked at.
unfoldable pub complete_held :
    Env → RunningInfo → ℕ → Text → Json → Text → Engine → Engine × CompleteStatus
complete_held env info job_id status result error e = elim (get_job job_id e) [
  | none ↦ (e, not_found)
  | some job ↦ (
    finish_attempt env job info (text_eq status (text "SUCCEEDED")) result error
        (reported status info e),
    accepted,
  )
]

unfoldable pub complete :
    Env → ℕ → ℕ → ℕ → ℕ → Text → Json → Text → Engine → Engine × CompleteStatus
unfolding check_lease complete_held
complete env worker_id job_id attempt lease_token status result error e =
    let c = check_lease worker_id job_id attempt lease_token e in
    elim c.1 [
      | none ↦ (c.0, stale_lease)
      | some info ↦ complete_held env info job_id status result error c.0
    ]
