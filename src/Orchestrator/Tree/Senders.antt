-- ===== src/Orchestrator/Tree/Senders.antt =====
-- Where the result of a job goes (src/orchestrator/orchestrator.rs, `run_tree`).
use butido.Prelude.{
  ℕ, ◌≡◌, ◌≢◌, refl, sym, ◌∙◌, ap, subst, ◌⊎◌, inl, inr, ◌↔◌, true, Option, none, some, List, [],
  ◌∷◌, map, filter, In, here, there, not-In-nil, In-singleton, In-filter, In-filter_intro, In-map,
  In-map_intro, In-of_any, any_of_In, Bool-cases, Result, ok, err, map_ok-eq-ok, collect, ◌==◌,
  nat_eq, if◌then◌else◌,
}
use butido.Orchestrator.Task.{Uuid}
use butido.Orchestrator.Tree.{
  JobDefinition, TreeError, depends_on_itself, root_channel, channel, depends_on, sender_of,
  none_if_empty, senders_of,
}

abbrev pub DependsOn : JobDefinition → Uuid → Type 0
DependsOn j u = In u j.dependencies

pub depends_on_iff : (u : Uuid) (j : JobDefinition) → (depends_on u j ≡ true) ↔ DependsOn j u
depends_on_iff u j = (
  λ h.
      let (d, m, e) = In-of_any (λ d. d == u) j.dependencies h in
      subst (λ x. In x j.dependencies) ((nat_eq.beq_iff d u).0 e) m,
  λ m. any_of_In (λ d. d == u) m ((nat_eq.beq_iff u u).1 refl),
)

-- A result that is collected from the dependents of a job lists their channels.
collected :
    (job : JobDefinition) (js : List JobDefinition) (ss : List ℕ)
    → collect (map (sender_of job) js) ≡ ok ss
    → (ss ≡ map (λ j. channel j.job) js) × ((j : JobDefinition) → In j js → j.job ≢ job.job)
collected job [] ss h = (cc, λ j m. absurd (not-In-nil m))
collected job (j ∷ js) ss h = elim (Bool-cases (j.job == job.job)) [
  | inl same ↦ absurd (refused (rw (same, if◌then◌else◌) at h))
  | inr other ↦
      let (rest, e, made) =
        map_ok-eq-ok (λ l. channel j.job ∷ l) (collect (map (sender_of job) js))
          (rw (other, if◌then◌else◌) at h) in
      let (same_rest, distinct) = collected job js rest e in
      (
        sym made ∙ ap (λ l. channel j.job ∷ l) same_rest,
        λ k m same. none_same k m distinct (λ eq. cc ((nat_eq.beq_iff j.job job.job).1 eq)) same,
      )
]
  where
    refused : ◌≡◌ {A = Result TreeError (List ℕ)} (err (depends_on_itself job.job)) (ok ss) → ⊥
    refused e = cc

    none_same :
        (k : JobDefinition)
        → In k (j ∷ js)
        → ((i : JobDefinition) → In i js → i.job ≢ job.job)
        → j.job ≢ job.job
        → k.job ≢ job.job
    none_same k (here e) distinct other same = other (ap (λ (i : JobDefinition). i.job) e ∙ same)
    none_same k (there m) distinct other same = distinct k m same

-- The channels that `senders` names, `none` for the root's.
abbrev pub channels : Option (List ℕ) → List ℕ
channels none = root_channel ∷ []
channels (some s) = s

-- Where the result of a job goes: to every task whose job depends on it, and to the orchestrator if
-- there is none.
pub record GoesTo (jobs : List JobDefinition) (u : Uuid) (c : ℕ) : Type 0 where
  pub target :
      ((k : JobDefinition) × In k jobs × DependsOn k u × (channel k.job ≡ c))
      ⊎ (((k : JobDefinition) → In k jobs → ¬ DependsOn k u) × (c ≡ root_channel))

pub nobody :
    (u : Uuid) (jobs : List JobDefinition)
    → filter (depends_on u) jobs ≡ []
    → (k : JobDefinition) → In k jobs
    → ¬ DependsOn k u
nobody u jobs e k m d =
    not-In-nil (subst (In k) e (In-filter_intro (depends_on u) m ((depends_on_iff u k).1 d)))

module _ (jobs : List JobDefinition) (job : JobDefinition) where
  dependents : List JobDefinition
  dependents = filter (depends_on job.job) jobs

  GoesTo-dependents :
      (ds : List JobDefinition) {c : ℕ}
      → ds ≡ filter (depends_on job.job) jobs
      → In c (channels (none_if_empty (map (λ j. channel j.job) ds)))
      → GoesTo jobs job.job c
  GoesTo-dependents [] e m = record {
    target = inr (nobody job.job jobs (sym e), sym (In-singleton m));
  }
  GoesTo-dependents (d ∷ ds) e m =
      let (k, at, same) = In-map (λ (j : JobDefinition). channel j.job) (d ∷ ds) m in
      let (held, h) = In-filter (depends_on job.job) jobs (subst (In k) e at) in
      record { target = inl (k, held, (depends_on_iff job.job k).0 h, same) }

  dependents_GoesTo :
      (ds : List JobDefinition) (c : ℕ)
      → ds ≡ filter (depends_on job.job) jobs
      → GoesTo jobs job.job c
      → In c (channels (none_if_empty (map (λ j. channel j.job) ds)))
  dependents_GoesTo [] c e g = elim g.target [
    | inr (_, root) ↦ here (sym root)
    | inl (k, m, d, _) ↦ absurd (nobody job.job jobs (sym e) k m d)
  ]
  dependents_GoesTo (x ∷ ds) c e g = elim g.target [
    | inr (none_depends, _) ↦
        let (held, h) = In-filter (depends_on job.job) jobs (subst (In x) e (here refl)) in
        absurd (none_depends x held ((depends_on_iff job.job x).0 h))
    | inl (k, m, d, same) ↦
        subst (λ n. In n (map (λ (j : JobDefinition). channel j.job) (x ∷ ds))) same
          (In-map_intro (λ (j : JobDefinition). channel j.job)
            (subst (In k) (sym e)
              (In-filter_intro (depends_on job.job) m ((depends_on_iff job.job k).1 d))))
  ]

  pub senders_of-lem :
      {o : Option (List ℕ)}
      → senders_of jobs job ≡ ok o
      → ((c : ℕ) → In c (channels o) ↔ GoesTo jobs job.job c)
        × (In job jobs → ¬ DependsOn job job.job)
  unfolding senders_of
  senders_of-lem {o} h =
      let (ss, e, made) =
        map_ok-eq-ok none_if_empty
          (collect (map (sender_of job) (filter (depends_on job.job) jobs))) h in
      let (same, distinct) = collected job (filter (depends_on job.job) jobs) ss e in
      let shape : none_if_empty
            (map (λ (j : JobDefinition). channel j.job) (filter (depends_on job.job) jobs))
          ≡ o =
        ap none_if_empty (sym same) ∙ made in
      (
        λ c. (
          λ m.
              GoesTo-dependents (filter (depends_on job.job) jobs) refl
                (subst (λ x. In c (channels x)) (sym shape) m),
          λ g.
              subst (λ x. In c (channels x)) shape
                (dependents_GoesTo (filter (depends_on job.job) jobs) c refl g),
        ),
        λ m d.
            distinct job (In-filter_intro (depends_on job.job) m ((depends_on_iff job.job job).1 d))
              refl,
      )
