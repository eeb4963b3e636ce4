-- ===== src/Endpoint/Scheduler/Examples.antt =====
-- Two endpoints, where the numbers stand for floating point numbers, and a job that starts and ends.
use butido.Prelude.{
  ℕ, ◌≡◌, refl, leb, some, none, List, [], ◌∷◌, arith, ◌==◌, nat_eq, if◌then◌else◌,
}
use Prim.Native.Nat.{◌*◌, ◌/◌}
use butido.Endpoint.Scheduler.{Heap, Floats, select_free_endpoint, new_handle, drop_handle}
use butido.Endpoint.Scheduler.Counting.{
  IsUsize, schedule, finish, Reach, start, onward, Counted, Reach-Counted,
}

abbrev rounded : Floats
rounded = record {
  F64 = ℕ;
  of_usize = λ n. n;
  div = λ a b. a / b;
  mul = λ a b. a * b;
  partial_le = λ a b. some (leb a b);
}

abbrev heap : Heap
heap p =
    if p == 0
    then record { name = "a"; num_max_jobs = 2; network_mode = none; uri = "/a"; running_jobs = 1 }
    else record { name = "b"; num_max_jobs = 4; network_mode = none; uri = "/b"; running_jobs = 1 }

abbrev endpoints : List ℕ
endpoints = 0 ∷ 1 ∷ []

-- The second endpoint is chosen, its utilization is lower.
selects : select_free_endpoint rounded endpoints heap ≡ some 1
unfolding select_free_endpoint
selects = refl

abbrev idle : Heap
idle p = record { name = "a"; num_max_jobs = 1; network_mode = none; uri = "/a"; running_jobs = 0 }

abbrev idle_endpoints : List ℕ
idle_endpoints = 0 ∷ []

idle-IsUsize : IsUsize idle
unfolding IsUsize
idle-IsUsize p = omega arith

-- A job starts and ends.
started : Reach rounded idle_endpoints (record { heap = new_handle 0 idle; handles = 0 ∷ [] })
unfolding select_free_endpoint
started = onward (start (λ p. refl) idle-IsUsize) (schedule 0 refl)

ended :
    Reach rounded idle_endpoints (record { heap = drop_handle 0 (new_handle 0 idle); handles = [] })
ended = onward started (finish [] 0 [])

Reach-Counted_example : Counted (record { heap = new_handle 0 idle; handles = 0 ∷ [] })
Reach-Counted_example = Reach-Counted started
