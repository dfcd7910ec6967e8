-- ===== src/Engine/Reach.antt =====
-- The rounds of the walk of `skip_descendants` in src/engine/engine.cpp: what is known of them.
use distributed_job_engine.Prelude.{
  ℕ, ◌≡◌, refl, ap, sym, subst, ◌∙◌, Bool, true, false, ◌||◌, none, some, List, [], ◌∷◌, ◌==◌,
  if◌then◌else◌, contains, arith, Option-cases, Bool-cases, inl, inr, lookup-insert,
}
use distributed_job_engine.Lifecycle.{is_terminal, same_state, skipped}
use distributed_job_engine.Job.{Job}
use distributed_job_engine.Engine.State.{
  Env, Engine, get_job, set_job, update_job, persist, dequeue,
}
use distributed_job_engine.Engine.Workflow.{children_of, skip_one, push_all, Walk, visit_job, visit}
use distributed_job_engine.Engine.Rows.{Keyed, set_job-Keyed}
use distributed_job_engine.Engine.Walk.{skip_one_children}

abbrev pub has_row : ℕ → Engine → Bool
has_row k e = elim (get_job k e) [ none ↦ false | some job ↦ true ]

-- The children of `id` that the walk has seen or is going to see.
abbrev pub known : ℕ → Walk → Bool
known c w = contains c w.seen || contains c w.frontier

pub contains-push_all :
    (c : ℕ) (cs frontier : List ℕ)
    → contains c (push_all cs frontier) ≡ (contains c cs || contains c frontier)
contains-push_all c [] frontier = refl
contains-push_all c (x ∷ cs) frontier = ground (arith, contains-push_all c cs (x ∷ frontier))

-- The jobs below `p`: its children, and the children of the jobs below it that have a row.
pub data Below (e : Engine) (p : ℕ) : ℕ → Type 0 where
  child : (c : ℕ) → contains c (children_of p e) ≡ true → Below e p c
  below :
      (m c : ℕ)
      → Below e p m
      → has_row m e ≡ true
      → contains c (children_of m e) ≡ true
      → Below e p c

-- The rounds of a walk over the store of `e`, where each write succeeds.
module _ (env : Env) (e : Engine) (written : (k : ℕ) → env.writes k ≡ true) where
  pub record Reach (w : Walk) : Type 0 where
    pub same_children : w.engine.children ≡ e.children
    pub keyed : Keyed w.engine
    -- The rows of `e` are there, and only those.
    pub rows : (k : ℕ) → has_row k w.engine ≡ has_row k e
    -- A row that is not SKIPPED is the row of `e`.
    pub kept :
        (k : ℕ) (job : Job)
        → get_job k w.engine ≡ some job
        → same_state job.state skipped ≡ false
        → get_job k e ≡ some job
    -- The children of a row that was seen are known.
    pub closed :
        (k c : ℕ)
        → contains k w.seen ≡ true
        → has_row k e ≡ true
        → contains c (children_of k e) ≡ true
        → known c w ≡ true
    -- A row that was seen is terminal.
    pub over :
        (k : ℕ) (job : Job)
        → contains k w.seen ≡ true
        → get_job k w.engine ≡ some job
        → is_terminal job.state ≡ true

  see_again :
      (id : ℕ) (rest : List ℕ) (w : Walk)
      → w.frontier ≡ id ∷ rest
      → contains id w.seen ≡ true
      → Reach w
      → Reach (record w { frontier = rest })
  see_again id rest w more old r = record {
    same_children = r.same_children;
    keyed = r.keyed;
    rows = r.rows;
    kept = r.kept;
    closed = λ k c s h m. ground (arith, r.closed k c s h m, more, old);
    over = r.over;
  }

  see_missing :
      (id : ℕ) (rest : List ℕ) (w : Walk)
      → w.frontier ≡ id ∷ rest
      → get_job id w.engine ≡ none
      → Reach w
      → Reach (record w { frontier = rest; seen = id ∷ w.seen })
  see_missing id rest w more missing r = record {
    same_children = r.same_children;
    keyed = r.keyed;
    rows = r.rows;
    kept = r.kept;
    closed = λ k c s h m. ground (arith, r.closed k c, s, h, m, r.rows k, more, missing);
    over = λ k job s found. ground (arith, r.over k job, s, found, missing);
  }

  skip_one-eq :
      (job : Job) (f : Engine)
      → (skip_one env job f).0 ≡ set_job (skip_one env job f).1 (dequeue job.job_id f)
  unfolding skip_one persist update_job
  skip_one-eq job f = ground (arith, written job.job_id)

  skip_one-Keyed : (job : Job) (f : Engine) → Keyed f → Keyed (skip_one env job f).0
  unfolding get_job dequeue
  skip_one-Keyed job f keyed =
      subst Keyed (sym (skip_one-eq job f))
        (set_job-Keyed (skip_one env job f).1 (dequeue job.job_id f) keyed)

  skip_one-row :
      (job : Job) (f : Engine) (k : ℕ)
      → get_job k (skip_one env job f).0
        ≡ (if job.job_id == k then some (skip_one env job f).1 else get_job k f)
  unfolding get_job dequeue set_job skip_one
  skip_one-row job f k =
      ap (get_job k) (skip_one-eq job f)
      ∙ lookup-insert job.job_id k (skip_one env job f).1 f.store.jobs

  skip_one_over : (job : Job) (f : Engine) → (skip_one env job f).1.state ≡ skipped
  unfolding skip_one
  skip_one_over job f = refl

  see_known :
      (id : ℕ) (rest : List ℕ) (w : Walk)
      → w.frontier ≡ id ∷ rest
      → Reach w
      → (k c : ℕ) → contains k (id ∷ w.seen) ≡ true
      → has_row k e ≡ true
      → contains c (children_of k e) ≡ true
      → (contains c (id ∷ w.seen) || contains c (push_all (children_of id w.engine) rest)) ≡ true
  unfolding children_of
  see_known id rest w more r k c s h m = ground (
    arith,
    r.closed k c,
    s,
    h,
    m,
    more,
    r.same_children,
    contains-push_all c (children_of id w.engine) rest,
  )

  see_job :
      (id : ℕ) (rest : List ℕ) (w : Walk) (job : Job)
      → w.frontier ≡ id ∷ rest
      → get_job id w.engine ≡ some job
      → Reach w
      → Reach (visit_job env id rest w job)
  see_job id rest w job more found r = elim (Bool-cases (is_terminal job.state)) [
    | inl final ↦ rw final (record {
      same_children = r.same_children;
      keyed = r.keyed;
      rows = r.rows;
      kept = r.kept;
      closed = λ k c s h m. see_known id rest w more r k c s h m;
      over = λ k j s row. ground (arith, r.over k j, s, row, found, final);
    })
    | inr live ↦ rw live (record {
      same_children = skip_one_children env job w.engine ∙ r.same_children;
      keyed = skip_one-Keyed job w.engine r.keyed;
      rows =
          λ k. ground (arith, skip_one-row job w.engine k, r.rows k, r.keyed id job found, found);
      kept = λ k j row h.
          ground
            (arith, r.kept k j, row, h, skip_one-row job w.engine k, skip_one_over job w.engine);
      closed = λ k c s h m. see_known id rest w more r k c s h m;
      over = λ k j s row. ground (
        arith,
        r.over k j,
        s,
        row,
        skip_one-row job w.engine k,
        skip_one_over job w.engine,
        r.keyed id job found,
      );
    })
  ]

  pub visit-Reach :
      (id : ℕ) (rest : List ℕ) (w : Walk)
      → w.frontier ≡ id ∷ rest
      → Reach w
      → Reach (visit env id rest w)
  unfolding visit
  visit-Reach id rest w more r = elim (Bool-cases (contains id w.seen)) [
    | inl old ↦ rw old (see_again id rest w more old r)
    | inr new ↦ elim (Option-cases (get_job id w.engine)) [
      | inl missing ↦ rw new (rw missing (see_missing id rest w more missing r))
      | inr (job, found) ↦ rw new (rw found (see_job id rest w job more found r))
    ]
  ]

  pub visit-known :
      (c id : ℕ) (rest : List ℕ) (w : Walk)
      → w.frontier ≡ id ∷ rest
      → known c w ≡ true
      → known c (visit env id rest w) ≡ true
  unfolding visit
  visit-known c id rest w more h =
      ground (arith, more, h, contains-push_all c (children_of id w.engine) rest)

  -- When the frontier is empty, every job below the first ones was seen.
  pub below_seen :
      (p d : ℕ) (w : Walk)
      → Reach w
      → w.frontier ≡ []
      → ((c : ℕ) → contains c (children_of p e) ≡ true → known c w ≡ true)
      → Below e p d
      → contains d w.seen ≡ true
  below_seen p d w r none_left first (child c h) = ground (arith, first c h, none_left)
  below_seen p d w r none_left first (below m c b row h) =
      ground (arith, r.closed m c (below_seen p m w r none_left first b) row h, none_left)

  pub start-Reach :
      (frontier : List ℕ)
      → Keyed e
      → Reach (record { engine = e; frontier = frontier; seen = []; to_skip = [] })
  start-Reach frontier keyed = record {
    same_children = refl;
    keyed = keyed;
    rows = λ k. refl;
    kept = λ k j row h. row;
    closed = λ k c s h m. absurd (ground (arith, s));
    over = λ k j s found. absurd (ground (arith, s));
  }
