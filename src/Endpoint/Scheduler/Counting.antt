-- ===== src/Endpoint/Scheduler/Counting.antt =====
-- The jobs of the endpoints over a run of the scheduler: `select_free_endpoint` with
-- `EndpointHandle::new` (src/endpoint/scheduler.rs), and dropping handles
-- (src/endpoint/configured.rs).
use butido.Prelude.{
  ℕ, suc, ◌+◌, ◌≤◌, ◌<◌, ◌≡◌, ◌∙◌, ap, some, List, [], ◌∷◌, ◌++◌, arith, count, filter, In-filter,
  ◌==◌, nat_eq, eq_refl, if◌then◌else◌,
}
use butido.Endpoint.Scheduler.Selection.{In-next-sorted}
use butido.Endpoint.Scheduler.{
  Heap, Floats, is_free, select_free_endpoint, usize, new_handle, drop_handle,
}

-- The endpoints, and the handles that are not dropped yet
pub record System : Type 0 where
  pub heap : Heap
  pub handles : List ℕ

-- `num_max_jobs` is a `usize`.
unfoldable pub IsUsize : Heap → Type 0
IsUsize heap = (p : ℕ) → (heap p).num_max_jobs < 18446744073709551616

-- The tasks run on one thread, and there is no await between the choice of an endpoint and the new
-- handle, so the two are one step.
pub data Step (floats : Floats) (endpoints : List ℕ) : System → System → Type 0 where
  schedule :
      {s : System} (p : ℕ)
      → select_free_endpoint floats endpoints s.heap ≡ some p
      → Step floats endpoints s (record { heap = new_handle p s.heap; handles = p ∷ s.handles })
  finish :
      {heap : Heap} (front : List ℕ) (p : ℕ) (rest : List ℕ)
      → Step floats endpoints
          (record { heap = heap; handles = front ++ p ∷ rest })
          (record { heap = drop_handle p heap; handles = front ++ rest })

pub data Reach (floats : Floats) (endpoints : List ℕ) : System → Type 0 where
  start :
      {heap : Heap}
      → ((p : ℕ) → (heap p).running_jobs ≡ 0)
      → IsUsize heap
      → Reach floats endpoints (record { heap = heap; handles = [] })
  onward :
      {s t : System}
      → Reach floats endpoints s
      → Step floats endpoints s t
      → Reach floats endpoints t

-- The handles of an endpoint
abbrev pub handles_of : ℕ → List ℕ → ℕ
handles_of p handles = count (λ q. q == p) handles

-- The counter of an endpoint counts its handles, and is at most what the endpoint takes.
pub record Counted (s : System) : Type 0 where
  pub counts : (p : ℕ) → (s.heap p).running_jobs ≡ handles_of p s.handles
  pub bounded : (p : ℕ) → (s.heap p).running_jobs ≤ (s.heap p).num_max_jobs
  pub fits : IsUsize s.heap

handles_of-middle :
    (p q : ℕ) (front rest : List ℕ)
    → handles_of q (front ++ p ∷ rest)
      ≡ (if p == q then suc (handles_of q (front ++ rest)) else handles_of q (front ++ rest))
handles_of-middle p q [] rest = ground arith
handles_of-middle p q (x ∷ front) rest = ground (arith, handles_of-middle p q front rest)

free-lt :
    (floats : Floats) (heap : Heap) (endpoints : List ℕ) (p : ℕ)
    → select_free_endpoint floats endpoints heap ≡ some p
    → (heap p).running_jobs < (heap p).num_max_jobs
unfolding select_free_endpoint
free-lt floats heap endpoints p h =
    let held = In-next-sorted floats heap (filter (is_free floats heap) endpoints) h in
    let (_, free) = In-filter (is_free floats heap) endpoints held in ground arith

up-eq : (n : ℕ) → n < 18446744073709551615 → usize (n + 1) ≡ n + 1
up-eq n h = omega arith

down-eq : (n : ℕ) → suc n < 18446744073709551616 → usize (suc n + 18446744073709551615) ≡ n
down-eq n h = omega arith

schedule-Counted :
    (floats : Floats) (endpoints : List ℕ) (s : System) (p : ℕ)
    → select_free_endpoint floats endpoints s.heap ≡ some p
    → Counted s
    → Counted (record { heap = new_handle p s.heap; handles = p ∷ s.handles })
unfolding new_handle IsUsize
schedule-Counted floats endpoints s p h c =
    let free = free-lt floats s.heap endpoints p h in
    let fits = c.fits p in
    let up = up-eq (s.heap p).running_jobs (omega (arith, free, fits)) in
    record {
      counts =
          λ q. ground (arith, nat_eq.beq_iff q p, nat_eq.beq_iff p q, up, c.counts q, c.counts p);
      bounded = λ q. ground (arith, nat_eq.beq_iff q p, up, free, c.bounded q);
      fits = λ q. ground (arith, nat_eq.beq_iff q p, c.fits q, c.fits p);
    }

finish-Counted :
    (heap : Heap) (front : List ℕ) (p : ℕ) (rest : List ℕ)
    → Counted (record { heap = heap; handles = front ++ p ∷ rest })
    → Counted (record { heap = drop_handle p heap; handles = front ++ rest })
unfolding drop_handle IsUsize
finish-Counted heap front p rest c =
    let here' = handles_of-middle p p front rest in
    let running : (heap p).running_jobs ≡ suc (handles_of p (front ++ rest)) =
      c.counts p ∙ here' ∙ ground (arith, eq_refl p) in
    let bound = c.bounded p in
    let fits = c.fits p in
    let down = down-eq (handles_of p (front ++ rest)) (omega (arith, running, bound, fits)) in
    let down' : usize ((heap p).running_jobs + 18446744073709551615)
        ≡ handles_of p (front ++ rest) =
      ap (λ (n : ℕ). usize (n + 18446744073709551615)) running ∙ down in
    record {
      counts = λ q. ground (
        arith,
        nat_eq.beq_iff q p,
        nat_eq.beq_iff p q,
        down',
        c.counts q,
        handles_of-middle p q front rest,
      );
      bounded = λ q. ground (arith, nat_eq.beq_iff q p, down', running, c.bounded q, c.bounded p);
      fits = λ q. ground (arith, nat_eq.beq_iff q p, c.fits q, c.fits p);
    }

-- Over every run of the scheduler from idle endpoints whose maximum of jobs is a `usize`, the counter
-- of an endpoint is the number of its handles that are not dropped, it never wraps, and it is at
-- most the number of jobs that the endpoint takes.
pub Reach-Counted :
    {floats : Floats} {endpoints : List ℕ} {s : System} → Reach floats endpoints s → Counted s
unfolding IsUsize
Reach-Counted (start idle fits) = record {
  counts = λ p. idle p;
  bounded = λ p. omega (arith, idle p);
  fits = fits;
}
Reach-Counted {floats} {endpoints} (onward {s = s} r (schedule p h)) =
    schedule-Counted floats endpoints s p h (Reach-Counted r)
Reach-Counted (onward r (finish {heap = heap} front p rest)) =
    finish-Counted heap front p rest (Reach-Counted r)
