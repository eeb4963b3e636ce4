-- ===== src/Orchestrator/Tree/Examples.antt =====
-- Three jobs: the first needs the other two, and the second needs the third.
use butido.Prelude.{ℕ, ◌≡◌, refl, [], ◌∷◌, List, In, ok, err, ◌↔◌, map}
use butido.Orchestrator.Task.{Uuid, JobTask}
use butido.Orchestrator.Tree.{
  JobDefinition, no_root_task, depends_on_itself, senders_of, associate, wire,
}
use butido.Orchestrator.Tree.Senders.{GoesTo, DependsOn}
use butido.Orchestrator.Tree.Wiring.{wire-GoesTo, wire-root}

abbrev job : Uuid → List Uuid → JobDefinition
job u ds = record { job = u; dependencies = ds }

abbrev jobs : List JobDefinition
jobs = job 10 (11 ∷ 12 ∷ []) ∷ job 11 (12 ∷ []) ∷ job 12 [] ∷ []

abbrev tasks : List JobTask
tasks =
    record { uuid = 10; dependencies = 11 ∷ 12 ∷ []; sender = 0 ∷ [] }
    ∷ record { uuid = 11; dependencies = 12 ∷ []; sender = 11 ∷ [] }
    ∷ record { uuid = 12; dependencies = []; sender = 11 ∷ 12 ∷ [] }
    ∷ []

wire_three : wire jobs ≡ ok (10, tasks)
unfolding wire associate senders_of
wire_three = refl

wire_cycle : wire (job 1 (2 ∷ []) ∷ job 2 (1 ∷ []) ∷ []) ≡ err no_root_task
unfolding wire associate senders_of
wire_cycle = refl

wire_itself : wire (job 1 (1 ∷ []) ∷ []) ≡ err (depends_on_itself 1)
unfolding wire associate senders_of
wire_itself = refl

wire-GoesTo_example :
    (map (λ t. t.uuid) tasks ≡ map (λ j. j.job) jobs)
    × ((t : JobTask) → In t tasks → (c : ℕ) → In c t.sender ↔ GoesTo jobs t.uuid c)
wire-GoesTo_example = wire-GoesTo jobs wire_three

wire-root_example :
    ((j : JobDefinition) → In j jobs → ¬ DependsOn j j.job)
    × ((k : JobDefinition) → In k jobs → ¬ DependsOn k 10)
    × ((r : JobDefinition) × In r jobs × (r.job ≡ 10))
wire-root_example = wire-root jobs wire_three
