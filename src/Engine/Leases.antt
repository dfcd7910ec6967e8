-- ===== src/Engine/Leases.antt =====
-- Leases of remote workers: a worker that is heard from keeps its jobs.
use distributed_job_engine.Prelude.{
  ℕ, ◌+◌, ◌≤◌, ◌≡◌, refl, false, ◌&&◌, some, List, [], ◌∷◌, if◌then◌else◌, lookup, arith,
}
use distributed_job_engine.Job.{RunningInfo, WorkerInfo}
use distributed_job_engine.Engine.State.{Env, Engine}
use distributed_job_engine.Engine.Remote.{heartbeat_worker, extend_leases, touch_worker, held_by}
use distributed_job_engine.Engine.Watchdog.{expired_leases, is_past}

-- The jobs of other remote workers whose lease has run out.
abbrev pub others_expired : ℕ → ℕ → List (ℕ × RunningInfo) → List ℕ
others_expired worker_id now [] = []
others_expired worker_id now ((id, info) ∷ rest) =
    let more = others_expired worker_id now rest in
    if (if held_by worker_id info then false else info.remote) && is_past now info.lease_expires_ms
    then id ∷ more
    else more

expired-extend :
    (worker_id now limit : ℕ) (running : List (ℕ × RunningInfo))
    → now ≤ limit
    → expired_leases now (extend_leases worker_id limit running)
      ≡ others_expired worker_id now running
unfolding expired_leases extend_leases
expired-extend worker_id now limit [] h = refl
expired-extend worker_id now limit ((id, info) ∷ rest) h =
    ground (arith, expired-extend worker_id now limit rest h)

touch_worker_running :
    (worker_id : ℕ) (env : Env) (e : Engine) → (touch_worker worker_id env e).running ≡ e.running
unfolding touch_worker
touch_worker_running worker_id env e = ground arith

-- After a heartbeat of a registered worker, and as long as the lease time that it is given has not
-- passed, the watchdog finds no expired lease of that worker: what it finds are the leases of other
-- workers that have run out, as before the heartbeat.
pub heartbeat_keeps_leases :
    (env : Env) (worker_id now : ℕ) (w : WorkerInfo) (e : Engine)
    → lookup worker_id e.remote_workers ≡ some w
    → now ≤ env.wall + e.cfg.lease_duration_ms
    → expired_leases now (heartbeat_worker env worker_id e).0.running
      ≡ others_expired worker_id now e.running
unfolding heartbeat_worker
heartbeat_keeps_leases env worker_id now w e known h =
    rw (known, heartbeat_worker)
      (rw touch_worker_running
        (expired-extend worker_id now (env.wall + e.cfg.lease_duration_ms) e.running h))
