-- ===== src/Orchestrator/Tree/Wiring.antt =====
-- Every result goes to the tasks that wait for it (src/orchestrator/orchestrator.rs, `run_tree`).
use butido.Prelude.{
  ℕ, ◌≡◌, refl, sym, ◌∙◌, ap, subst, inl, inr, ◌↔◌, Option, none, some, List, [], ◌∷◌, arith, map,
  find, In, here, there, not-In-nil, In-map, In-map_intro, ok, ◌>>=◌, >>=-eq-ok, nat_eq,
}
use butido.Orchestrator.Task.{Uuid, JobTask}
use butido.Orchestrator.Tree.{
  JobDefinition, root_channel, senders_of, Wired, associate, is_root, job_task, root_of, with_root,
  wire,
}
use butido.Orchestrator.Tree.Senders.{DependsOn, channels, GoesTo, senders_of-lem}

associate-lem :
    (jobs rest : List JobDefinition) {wired : List Wired}
    → associate jobs rest ≡ ok wired
    → (map (λ w. w.0) wired ≡ rest) × ((w : Wired) → In w wired → senders_of jobs w.0 ≡ ok w.1)
unfolding associate
associate-lem jobs [] {wired} h =
    let e : [] ≡ wired = cc in
    (ap (map (λ w. w.0)) (sym e), λ w m. absurd (not-In-nil (subst (In w) (sym e) m)))
associate-lem jobs (job ∷ rest) {wired} h =
    let (senders, first, more) =
      >>=-eq-ok (senders_of jobs job)
        (λ senders. associate jobs rest >>= λ ws. ok ((job, senders) ∷ ws)) h in
    let (ws, second, made) =
      >>=-eq-ok (associate jobs rest) (λ ws. ok ((job, senders) ∷ ws)) more in
    let same : (job, senders) ∷ ws ≡ wired = cc in
    let (names, each) = associate-lem jobs rest second in
    (
      ap (map (λ w. w.0)) (sym same) ∙ ap (λ l. job ∷ l) names,
      λ w m. member w senders ws first each (subst (In w) (sym same) m),
    )
  where
    member :
        (w : Wired) (senders : Option (List ℕ)) (ws : List Wired)
        → senders_of jobs job ≡ ok senders
        → ((v : Wired) → In v ws → senders_of jobs v.0 ≡ ok v.1)
        → In w ((job, senders) ∷ ws)
        → senders_of jobs w.0 ≡ ok w.1
    member w senders ws first each (here e) = subst (λ v. senders_of jobs v.0 ≡ ok v.1) e first
    member w senders ws first each (there m) = each w m

job_task-lem :
    (w : Wired)
    → ((job_task w).uuid ≡ w.0.job)
      × ((job_task w).dependencies ≡ w.0.dependencies)
      × ((job_task w).sender ≡ channels w.1)
job_task-lem (j, none) = (refl, refl, refl)
job_task-lem (j, some s) = (refl, refl, refl)

job_of_wired :
    (wired : List Wired) {w : Wired} {jobs : List JobDefinition}
    → map (λ w. w.0) wired ≡ jobs
    → In w wired
    → In w.0 jobs
job_of_wired wired {w} e m = subst (In w.0) e (In-map_intro (λ v. v.0) m)

find_root :
    (wired : List Wired) {w : Wired} → find is_root wired ≡ some w → In w wired × (w.1 ≡ none)
find_root [] h = absurd (cc)
find_root ((j, none) ∷ wired) h = (here (cc), ap (λ (v : Wired). v.1) (sym (some_eq h)))
  where
    some_eq : {x y : Wired} → some x ≡ some y → x ≡ y
    some_eq e = cc
find_root ((j, some s) ∷ wired) h = let (m, e) = find_root wired h in (there m, e)

root_of-lem :
    (o : Option Wired) (ts : List JobTask) {root : Uuid} {tasks : List JobTask}
    → root_of o ts ≡ ok (root, tasks)
    → (w : Wired) × (o ≡ some w) × (w.0.job ≡ root) × (ts ≡ tasks)
root_of-lem none ts h = absurd (cc)
root_of-lem (some w) ts h = (w, refl, cc, cc)

uuids :
    (wired : List Wired)
    → map (λ t. t.uuid) (map job_task wired) ≡ map (λ j. j.job) (map (λ w. w.0) wired)
uuids [] = refl
uuids (w ∷ wired) = rw ((job_task-lem w).0, uuids wired)

-- The wiring of `jobs`, taken apart
record Parts (jobs : List JobDefinition) (root : Uuid) (tasks : List JobTask) : Type 0 where
  wired : List Wired
  names : map (λ w. w.0) wired ≡ jobs
  each : (w : Wired) → In w wired → senders_of jobs w.0 ≡ ok w.1
  made : map job_task wired ≡ tasks
  top : Wired
  found : find is_root wired ≡ some top
  root_name : top.0.job ≡ root

parts :
    (jobs : List JobDefinition) {root : Uuid} {tasks : List JobTask}
    → wire jobs ≡ ok (root, tasks)
    → Parts jobs root tasks
unfolding wire
parts jobs {root} {tasks} h =
    let (wired, first, rest) = >>=-eq-ok (associate jobs jobs) with_root h in
    let (names, each) = associate-lem jobs jobs first in
    let (top, found, root_name, made) =
      root_of-lem (find is_root wired) (map job_task wired) rest in
    record {
      wired = wired;
      names = names;
      each = each;
      made = made;
      top = top;
      found = found;
      root_name = root_name;
    }

-- If the wiring succeeds, every job has one task, in the order of the jobs, and the result of a task
-- goes to exactly the tasks whose jobs depend on it, or to the orchestrator if no job does.
pub wire-GoesTo :
    (jobs : List JobDefinition) {root : Uuid} {tasks : List JobTask}
    → wire jobs ≡ ok (root, tasks)
    → (map (λ t. t.uuid) tasks ≡ map (λ j. j.job) jobs)
      × ((t : JobTask) → In t tasks → (c : ℕ) → In c t.sender ↔ GoesTo jobs t.uuid c)
wire-GoesTo jobs {root} {tasks} h =
    let p = parts jobs h in
    (
      ap (map (λ (t : JobTask). t.uuid)) (sym p.made)
          ∙ uuids p.wired
          ∙ ap (map (λ (j : JobDefinition). j.job)) p.names,
      λ t m c.
          let (w, at, same) = In-map job_task p.wired (subst (In t) (sym p.made) m) in
          let (name, _, sender) = job_task-lem w in
          let goes = (senders_of-lem jobs w.0 (p.each w at)).0 c in
          let sends : t.sender ≡ channels w.1 =
            ap (λ (x : JobTask). x.sender) (sym same) ∙ sender in
          let named : w.0.job ≡ t.uuid = sym name ∙ ap (λ (x : JobTask). x.uuid) same in
          (
            λ n. subst (λ u. GoesTo jobs u c) named (goes.0 (subst (In c) sends n)),
            λ g. subst (In c) (sym sends) (goes.1 (subst (λ u. GoesTo jobs u c) (sym named) g)),
          ),
    )

-- The job of a task
pub record TaskOf (t : JobTask) (j : JobDefinition) : Type 0 where
  pub named : j.job ≡ t.uuid
  pub same_dependencies : j.dependencies ≡ t.dependencies

TaskOf-job_task : (w : Wired) → TaskOf (job_task w) w.0
TaskOf-job_task w =
    let (name, deps, _) = job_task-lem w in
    record { named = sym name; same_dependencies = sym deps }

-- Every task is that of a job, and every job has a task.
pub wire-TaskOf :
    (jobs : List JobDefinition) {root : Uuid} {tasks : List JobTask}
    → wire jobs ≡ ok (root, tasks)
    → ((t : JobTask) → In t tasks → (j : JobDefinition) × In j jobs × TaskOf t j)
      × ((j : JobDefinition) → In j jobs → (t : JobTask) × In t tasks × TaskOf t j)
wire-TaskOf jobs h =
    let p = parts jobs h in
    (
      λ t m.
          let (w, at, same) = In-map job_task p.wired (subst (In t) (sym p.made) m) in
          (
            w.0,
            job_of_wired p.wired p.names at,
            subst (λ (x : JobTask). TaskOf x w.0) same (TaskOf-job_task w),
          ),
      λ j m.
          let (w, at, same) = In-map (λ (v : Wired). v.0) p.wired (subst (In j) (sym p.names) m) in
          (
            job_task w,
            subst (In (job_task w)) p.made (In-map_intro job_task at),
            subst (TaskOf (job_task w)) same (TaskOf-job_task w),
          ),
    )

-- If the wiring succeeds, no job depends on itself, and the root is a job that no job depends on.
pub wire-root :
    (jobs : List JobDefinition) {root : Uuid} {tasks : List JobTask}
    → wire jobs ≡ ok (root, tasks)
    → ((j : JobDefinition) → In j jobs → ¬ DependsOn j j.job)
      × ((k : JobDefinition) → In k jobs → ¬ DependsOn k root)
      × ((r : JobDefinition) × In r jobs × (r.job ≡ root))
wire-root jobs {root} h =
    let p = parts jobs h in
    let (at, none_sends) = find_root p.wired p.found in
    let r = job_of_wired p.wired p.names at in
    (
      λ j m.
          let (w, held, same) =
            In-map (λ (v : Wired). v.0) p.wired (subst (In j) (sym p.names) m) in
          subst (λ k. ¬ DependsOn k k.job) same
            ((senders_of-lem jobs w.0 (p.each w held)).1 (subst (λ k. In k jobs) (sym same) m)),
      λ k m d.
          let goes = (senders_of-lem jobs p.top.0 (p.each p.top at)).0 root_channel in
          let target =
            (goes.0
              (subst (λ o. In root_channel (channels o)) (sym none_sends) (here refl))).target in
          elim target [
            | inl (_, _, _, same) ↦ absurd (omega arith)
            | inr (unused, _) ↦ unused k m (subst (DependsOn k) (sym p.root_name) d)
          ],
      (p.top.0, r, p.root_name),
    )
