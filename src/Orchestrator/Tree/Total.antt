-- ===== src/Orchestrator/Tree/Total.antt =====
-- When the wiring of the tasks succeeds (src/orchestrator/orchestrator.rs, `run_tree`).
use butido.Prelude.{
  ℕ, ◌≡◌, ◌≢◌, refl, sym, ◌∙◌, ap, subst, inl, inr, true, false, Option, none, some, List, [], ◌∷◌,
  map, filter, find, In, here, there, not-In-nil, In-filter, In-map_intro, Bool-cases, ok, map_ok,
  collect, ◌==◌, nat_eq,
}
use butido.Orchestrator.Task.{Uuid, JobTask}
use butido.Orchestrator.Tree.{
  JobDefinition, channel, depends_on, sender_of, none_if_empty, senders_of, Wired, associate,
  is_root, job_task, root_of, wire,
}
use butido.Orchestrator.Tree.Senders.{DependsOn, depends_on_iff}

collect-sender_of :
    (job : JobDefinition) (js : List JobDefinition)
    → ((j : JobDefinition) → In j js → j.job ≢ job.job)
    → collect (map (sender_of job) js) ≡ ok (map (λ j. channel j.job) js)
collect-sender_of job [] other = refl
collect-sender_of job (j ∷ js) other = elim (Bool-cases (j.job == job.job)) [
  | inl same ↦ absurd (other j (here refl) ((nat_eq.beq_iff j.job job.job).0 same))
  | inr differ ↦ rw (differ, collect-sender_of job js (λ k m. other k (there m))) refl
]

-- The senders of a job, when no job depends on itself
abbrev senders : List JobDefinition → JobDefinition → Option (List ℕ)
senders jobs job = none_if_empty (map (λ j. channel j.job) (filter (depends_on job.job) jobs))

senders_of-eq-ok :
    (jobs : List JobDefinition) (job : JobDefinition)
    → ((j : JobDefinition) → In j jobs → ¬ DependsOn j j.job)
    → senders_of jobs job ≡ ok (senders jobs job)
unfolding senders_of
senders_of-eq-ok jobs job never = ap (map_ok none_if_empty) (
    collect-sender_of job (filter (depends_on job.job) jobs) (λ j m same.
      let (held, depends) = In-filter (depends_on job.job) jobs m in
      never j held (subst (DependsOn j) (sym same) ((depends_on_iff job.job j).0 depends))))

associate-eq-ok :
    (jobs rest : List JobDefinition)
    → ((j : JobDefinition) → In j jobs → ¬ DependsOn j j.job)
    → associate jobs rest ≡ ok (map (λ j. (j, senders jobs j)) rest)
unfolding associate
associate-eq-ok jobs [] never = refl
associate-eq-ok jobs (job ∷ rest) never =
    rw (senders_of-eq-ok jobs job never, associate-eq-ok jobs rest never) refl

find-In :
    (l : List Wired) {w : Wired}
    → In w l
    → is_root w ≡ true
    → (x : Wired) × (find is_root l ≡ some x)
find-In (x ∷ l) {w} m top = elim (Bool-cases (is_root x)) [
  | inl yes' ↦ (x, rw yes' refl)
  | inr no' ↦ let (y, e) = find-In l (later m no') top in (y, rw no' e)
]
  where
    later : In w (x ∷ l) → is_root x ≡ false → In w l
    later (here same) no' = let yes' : is_root x ≡ true = ap is_root same ∙ top in absurd (cc)
    later (there at) no' = at
find-In [] m top = absurd (not-In-nil m)

no_dependents :
    (jobs js : List JobDefinition) (u : Uuid)
    → ((k : JobDefinition) → In k js → ¬ DependsOn k u)
    → filter (depends_on u) js ≡ []
no_dependents jobs [] u none_depends = refl
no_dependents jobs (j ∷ js) u none_depends = elim (Bool-cases (depends_on u j)) [
  | inl depends ↦ absurd (none_depends j (here refl) ((depends_on_iff u j).0 depends))
  | inr other ↦ rw other (no_dependents jobs js u (λ k m. none_depends k (there m)))
]

-- If no job depends on itself, and there is a job that no job depends on, the wiring succeeds.
pub wire_total :
    (jobs : List JobDefinition) (r : JobDefinition)
    → ((j : JobDefinition) → In j jobs → ¬ DependsOn j j.job)
    → In r jobs
    → ((k : JobDefinition) → In k jobs → ¬ DependsOn k r.job)
    → (root : Uuid) × (tasks : List JobTask) × (wire jobs ≡ ok (root, tasks))
unfolding wire
wire_total jobs r never m top =
    let wired : List Wired = map (λ (j : JobDefinition). (j, senders jobs j)) jobs in
    let held : In (r, senders jobs r) wired =
      In-map_intro (λ (j : JobDefinition). (j, senders jobs j)) m in
    let empty = no_dependents jobs jobs r.job top in
    let is_none : senders jobs r ≡ none =
      ap (λ (l : List JobDefinition). none_if_empty (map (λ j. channel j.job) l)) empty in
    let (x, found) = find-In wired held (ap (λ (o : Option (List ℕ)). is_root (r, o)) is_none) in
    (
      x.0.job,
      map job_task wired,
      rw (associate-eq-ok jobs jobs never)
          (ap (λ (o : Option Wired). root_of o (map job_task wired)) found),
    )
