-- ===== src/Endpoint/Scheduler.antt =====
-- The choice of an endpoint for a job, and the handles that count its jobs: `EndpointScheduler`
-- (src/endpoint/scheduler.rs), `Endpoint` and `EndpointHandle` (src/endpoint/configured.rs).
pub mod Selection
pub mod Counting
mod Examples
use butido.Prelude.{
  ℕ, zero, suc, ◌+◌, String, Bool, true, false, Option, none, some, List, [], ◌∷◌, filter, ltb,
  ◌==◌, nat_eq, if◌then◌else◌,
}
use Prim.Native.Nat.{◌%◌, ◌^◌}

-- The docker connection is left out.
pub record Endpoint : Type 0 where
  pub name : String
  pub num_max_jobs : ℕ
  pub network_mode : Option String
  pub uri : String
  pub running_jobs : ℕ

-- An `Arc<Endpoint>` is a number, and the heap has the endpoint that it points to.
abbrev pub Heap : Type 0
Heap = ℕ → Endpoint

abbrev pub update : Heap → ℕ → Endpoint → Heap
update heap p e q = if q == p then e else heap q

-- `f64`, as far as the utilization of an endpoint needs it. `partial_cmp` is `none` for a NaN, and
-- `some true` if the first number is not above the second.
pub record Floats : Type 1 where
  pub F64 : Type 0
  pub of_usize : ℕ → F64
  pub div : F64 → F64 → F64
  pub mul : F64 → F64 → F64
  pub partial_le : F64 → F64 → Option Bool

module _ (floats : Floats) where
  open floats use {F64, of_usize, div, mul, partial_le}

  abbrev pub utilization : Endpoint → F64
  utilization ep = mul (div (of_usize 100) (of_usize ep.num_max_jobs)) (of_usize ep.running_jobs)

  -- `unwrap_or(Ordering::Equal)`
  abbrev pub or_equal : Option Bool → Bool
  or_equal none = true
  or_equal (some b) = b

  abbrev pub not_above : Heap → ℕ → ℕ → Bool
  not_above heap p q = or_equal (partial_le (utilization (heap p)) (utilization (heap q)))

  abbrev pub is_free : Heap → ℕ → Bool
  is_free heap p = ltb (heap p).running_jobs (heap p).num_max_jobs

  -- `sorted_by` is stable: an element goes before those that it is not above.
  abbrev pub insert_sorted : Heap → ℕ → List ℕ → List ℕ
  insert_sorted heap p [] = p ∷ []
  insert_sorted heap p (q ∷ qs) =
      let rest = insert_sorted heap p qs in if not_above heap p q then p ∷ q ∷ qs else q ∷ rest

  abbrev pub sorted : Heap → List ℕ → List ℕ
  sorted heap [] = []
  sorted heap (p ∷ ps) = insert_sorted heap p (sorted heap ps)

  abbrev pub next : List ℕ → Option ℕ
  next [] = none
  next (p ∷ ps) = some p

  -- One round of the loop of `select_free_endpoint`
  unfoldable pub select_free_endpoint : List ℕ → Heap → Option ℕ
  select_free_endpoint endpoints heap = next (sorted heap (filter (is_free heap) endpoints))

-- The arithmetic of an `AtomicUsize`
abbrev pub usize : ℕ → ℕ
usize n = n % 2 ^ 64

-- `EndpointHandle::new`
unfoldable pub new_handle : ℕ → Heap → Heap
new_handle p heap =
    update heap p (record (heap p) { running_jobs = usize ((heap p).running_jobs + 1) })

-- `Drop for EndpointHandle`: `fetch_sub(1)` wraps.
unfoldable pub drop_handle : ℕ → Heap → Heap
drop_handle p heap =
    update heap p
      (record (heap p) { running_jobs = usize ((heap p).running_jobs + 18446744073709551615) })
