-- ===== src/Job/Dag/Examples.antt =====
-- The jobs of a package and the one package it depends on.
use butido.Prelude.{
  ℕ, suc, ◌<◌, ◌≡◌, refl, ap, subst, arith, List, [], ◌∷◌, map, In, here, not-In-nil, In-singleton,
  ok, ◌==◌, nat_eq, if◌then◌else◌, Bool-cases, inl, inr, true, contains_key,
}
use butido.Package.Dag.Dependencies.{DependencyType}
use butido.Package.Dag.Build.Examples.{
  list_graph, in_order, tool_a, two_packages, two_syntax, no_data, built, for_root_package-two,
  two_packages-IsKeyed, two_packages-IsMap,
}
use butido.Orchestrator.Task.{Artifacts, JobTask, artifacts_of}
use butido.Orchestrator.Tree.{JobDefinition, root_channel, senders_of, associate, wire}
use butido.Orchestrator.Execution.{run_of, finish_tree}
use butido.Orchestrator.Execution.Examples.{tasks, services, messages, execution, good}
use butido.Job.Dag.{JobSettings, from_package_dag, iter}
use butido.Job.Dag.Packages.{JobGraph, jobs_of, for_root_package-wire, for_root_package-builds}

abbrev settings : JobSettings
settings = record { script_shebang = "#!/bin/sh"; image = "debian"; phases = []; resources = [] }

abbrev one_edge : List (ℕ × ℕ × DependencyType)
one_edge = (0, 1, DependencyType.runtime) ∷ []

abbrev neighbors : ℕ → List ℕ
neighbors i = if i == 0 then 1 ∷ [] else []

abbrev position : ℕ → ℕ
position i = if i == 0 then 1 else 0

made : JobGraph one_edge
made = record {
  new_v4 = suc;
  different = λ i j e. omega (arith, e);
  neighbors = neighbors;
  neighbors_iff = λ i j. (to_edge i j, of_edge i j);
  position = position;
  position_lt = lower;
}
  where
    ends : (i j : ℕ) (kind : DependencyType) → In (i, j, kind) one_edge → (0 ≡ i) × (1 ≡ j)
    ends i j kind m =
        let e = In-singleton m in
        (ap (λ (x : ℕ × ℕ × DependencyType). x.0) e, ap (λ (x : ℕ × ℕ × DependencyType). x.1) e)

    to_edge : (i j : ℕ) → In j (neighbors i) → (kind : DependencyType) × In (i, j, kind) one_edge
    to_edge i j m = elim (Bool-cases (i == 0)) [
      | inl first ↦
          let at_i = (nat_eq.beq_iff i 0).0 first in
          let at_j : 1 ≡ j = In-singleton (rw (first, if◌then◌else◌) at m) in
          (DependencyType.runtime, here (cc))
      | inr other ↦ absurd (not-In-nil (rw (other, if◌then◌else◌) at m))
    ]

    of_edge : (i j : ℕ) → ((kind : DependencyType) × In (i, j, kind) one_edge) → In j (neighbors i)
    of_edge i j (kind, m) =
        let (at_i, at_j) = ends i j kind m in subst (λ (x : ℕ). In j (neighbors x)) at_i (here at_j)

    lower : (i j : ℕ) (kind : DependencyType) → In (i, j, kind) one_edge → position j < position i
    lower i j kind m =
        let (at_i, at_j) = ends i j kind m in
        let first : position 1 < position 0 = omega arith in
        subst (λ (x : ℕ). position j < position x) at_i
          (subst (λ (x : ℕ). position x < position 0) at_j first)

wired :
    wire (
      jobs_of list_graph two_packages two_syntax no_data in_order two_packages-IsKeyed
        two_packages-IsMap tool_a
        (here refl)
        {d = built}
        for_root_package-two
        settings
        made)
    ≡ ok (1, tasks)
unfolding made iter from_package_dag wire associate senders_of
wired = refl

abbrev jobs : List JobDefinition
jobs =
    jobs_of list_graph two_packages two_syntax no_data in_order two_packages-IsKeyed
      two_packages-IsMap tool_a (here refl) {d = built} for_root_package-two settings made

for_root_package-wire_example : (ts : List JobTask) × (wire jobs ≡ ok (made.new_v4 0, ts))
for_root_package-wire_example =
    for_root_package-wire list_graph two_packages two_syntax no_data in_order two_packages-IsKeyed
      two_packages-IsMap tool_a (here refl) {d = built} for_root_package-two settings made

for_root_package-builds_example :
    (v : Artifacts) × (finish_tree (map (run_of services messages) tasks) (messages root_channel)
      ≡ ok (artifacts_of v, []))
    × ((i : ℕ) → i < 2 → contains_key v (made.new_v4 i) ≡ true)
unfolding made
for_root_package-builds_example =
    for_root_package-builds list_graph two_packages two_syntax no_data in_order two_packages-IsKeyed
      two_packages-IsMap tool_a (here refl) {d = built} for_root_package-two settings made
      {tasks = tasks} wired services messages execution good tasks (λ t at. at)
