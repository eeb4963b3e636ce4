-- ===== src/Package/Condition/Matching.antt =====
-- What `Condition::matches` decides, against a reading of the three parts of a condition.
use butido.Prelude.{
  String, Bool, true, false, Option, none, some, List, [], ◌∷◌, ◌≡◌, refl, subst, ◌↔◌, arith, any,
  In, In-of_any, any_of_In, In-of_all, all_of_In, ok, ◌==◌, string_eq, eq_refl, Bool-cases, inl,
  inr, not, if◌then◌else◌,
}
use butido.Package.Condition.{
  EnvironmentVariableName, OneOrMore, one, more, Condition, ConditionData, Check, is_some_eq,
  find_env, check_env, check_env_eq, check_in_image, matches,
}

abbrev Env : Type 0
Env = List (EnvironmentVariableName × String)

-- The variable is set, to whatever value.
abbrev pub HasVariable : Env → EnvironmentVariableName → Type 0
HasVariable env n = (v : String) × In (n, v) env

-- The first entry for the variable has the value.
pub data FirstValue (n : EnvironmentVariableName) (v : String) : Env → Type 0 where
  found : {m w : String} {env : Env} → m ≡ n → w ≡ v → FirstValue n v ((m, w) ∷ env)
  later :
      {m w : String} {env : Env} → ¬ (m ≡ n) → FirstValue n v env → FirstValue n v ((m, w) ∷ env)

abbrev pub HasEnvMet : Option (OneOrMore EnvironmentVariableName) → Env → Type 0
HasEnvMet none env = Unit
HasEnvMet (some (one n)) env = HasVariable env n
HasEnvMet (some (more ns)) env = (n : EnvironmentVariableName) → In n ns → HasVariable env n

abbrev pub EnvEqMet : Option (List (EnvironmentVariableName × String)) → Env → Type 0
EnvEqMet none env = Unit
EnvEqMet (some req) env = (r : EnvironmentVariableName × String) → In r req → FirstValue r.0 r.1 env

abbrev pub InImageMet : Option (OneOrMore String) → Option String → Type 0
InImageMet none image = Unit
InImageMet (some (one i)) image = image ≡ some i
InImageMet (some (more is)) image = (i : String) × In i is × (image ≡ some i)

-- All three parts of the condition hold of the data; a part that is not given always holds.
pub record IsMet (c : Condition) (d : ConditionData) : Type 0 where
  pub has_env : HasEnvMet c.has_env d.env
  pub env_eq : EnvEqMet c.env_eq d.env
  pub in_image : InImageMet c.in_image d.image_name

any_name_iff : (n : String) (env : Env) → (any (λ e. e.0 == n) env ≡ true) ↔ HasVariable env n
any_name_iff n env = (
  λ h.
      let ((m, v), at, e) = In-of_any _ env h in
      (v, subst (λ k. In (k, v) env) ((string_eq.beq_iff m n).0 e) at),
  λ (v, at). any_of_In _ at (eq_refl n),
)

any_name_sym : (n : String) (env : Env) → any (λ e. n == e.0) env ≡ any (λ e. e.0 == n) env
any_name_sym n [] = refl
any_name_sym n ((m, v) ∷ env) =
    ground (arith, any_name_sym n env, string_eq.beq_iff m n, string_eq.beq_iff n m)

passed : (b : Bool) → ◌≡◌ {A = Check} (if not b then ok false else ok true) (ok true) → b ≡ true
passed b h = ground arith

has_env_iff :
    (o : Option (OneOrMore EnvironmentVariableName)) (d : ConditionData)
    → (check_env o d ≡ ok true) ↔ HasEnvMet o d.env
unfolding check_env
has_env_iff none d = (λ h. tt, λ h. refl)
has_env_iff (some (one n)) d = (
  λ h. (any_name_iff n d.env).0 (rw (any_name_sym n d.env) at (passed _ h)),
  λ m. rw (any_name_sym n d.env, (any_name_iff n d.env).1 m),
)
has_env_iff (some (more ns)) d = (
  λ h n m. (any_name_iff n d.env).0 (In-of_all _ (passed _ h) m),
  λ m.
      rw
        (all_of_In (λ n. any (λ e. e.0 == n) d.env) ns (λ n at. (any_name_iff n d.env).1 (m n at))),
)

is_some_eq_iff : (o : Option String) (v : String) → (is_some_eq o v ≡ true) ↔ (o ≡ some v)
is_some_eq_iff none v = ground arith
is_some_eq_iff (some x) v = ground (arith, string_eq.beq_iff x v)

is_some_eq-FirstValue :
    (n v : String) {env : Env} → FirstValue n v env → is_some_eq (find_env n env) v ≡ true
is_some_eq-FirstValue n v (found {m = m} {w = w} e f) =
    rw ((string_eq.beq_iff m n).1 e) ((string_eq.beq_iff w v).1 f)
is_some_eq-FirstValue n v (later {m = m} other f) = elim (Bool-cases (m == n)) [
  | inl e ↦ absurd (other ((string_eq.beq_iff m n).0 e))
  | inr e ↦ rw e (is_some_eq-FirstValue n v f)
]

FirstValue-of_find :
    (n v : String) (env : Env) → is_some_eq (find_env n env) v ≡ true → FirstValue n v env
FirstValue-of_find n v [] h = absurd (cc)
FirstValue-of_find n v ((m, w) ∷ env) h = elim (Bool-cases (m == n)) [
  | inl e ↦ found ((string_eq.beq_iff m n).0 e) ((string_eq.beq_iff w v).0 (rw e at h))
  | inr e ↦
      later (λ p. absurd (cc ((string_eq.beq_iff m n).1 p)))
        (FirstValue-of_find n v env (rw e at h))
]

env_eq_iff :
    (o : Option (List (EnvironmentVariableName × String))) (d : ConditionData)
    → (check_env_eq o d ≡ ok true) ↔ EnvEqMet o d.env
unfolding check_env_eq
env_eq_iff none d = (λ h. tt, λ h. refl)
env_eq_iff (some req) d = (
  λ h r m. FirstValue-of_find r.0 r.1 d.env (In-of_all _ (passed _ h) m),
  λ m. rw (
      all_of_In (λ r. is_some_eq (find_env r.0 d.env) r.1) req
        (λ r at. is_some_eq-FirstValue r.0 r.1 (m r at))),
)

in_image_iff :
    (o : Option (OneOrMore String)) (d : ConditionData)
    → (check_in_image o d ≡ ok true) ↔ InImageMet o d.image_name
unfolding check_in_image
in_image_iff none d = (λ h. tt, λ h. refl)
in_image_iff (some (one i)) d =
    (λ h. (is_some_eq_iff d.image_name i).0 (cc), λ m. rw ((is_some_eq_iff d.image_name i).1 m))
in_image_iff (some (more is)) d = (
  λ h.
      let (i, at, e) = In-of_any (λ i. is_some_eq d.image_name i) is (cc) in
      (i, at, (is_some_eq_iff d.image_name i).0 e),
  λ (i, at, e).
      rw (any_of_In (λ i. is_some_eq d.image_name i) at ((is_some_eq_iff d.image_name i).1 e)),
)

-- `matches` returns `true` exactly when every given part of the condition is met: each variable of
-- `has_env` is set, the first entry of each variable of `env_eq` has the required value, and the
-- image is one of `in_image`.
pub matches_iff : (c : Condition) (d : ConditionData) → (matches c d ≡ ok true) ↔ IsMet c d
unfolding matches
matches_iff c d = (
  λ h.
      let parts : (check_env c.has_env d ≡ ok true)
          × (check_env_eq c.env_eq d ≡ ok true)
          × (check_in_image c.in_image d ≡ ok true) =
        ground arith in
      record {
        has_env = (has_env_iff c.has_env d).0 parts.0;
        env_eq = (env_eq_iff c.env_eq d).0 parts.1;
        in_image = (in_image_iff c.in_image d).0 parts.2;
      },
  λ m. rw (
    (has_env_iff c.has_env d).1 m.has_env,
    (env_eq_iff c.env_eq d).1 m.env_eq,
    (in_image_iff c.in_image d).1 m.in_image,
  ),
)
