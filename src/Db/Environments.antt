-- ===== src/Db/Environments.antt =====
-- The comparison of environments (src/db/find_artifacts.rs, `environments_equal`).
use butido.Prelude.{
  ◌≡◌, refl, sym, ◌∙◌, ap, subst, ◌⊎◌, ◌↔◌, inl, inr, String, Bool, true, false, ◌&&◌, ◌||◌, Option,
  none, some, [], ◌∷◌, arith, any, all, In, here, there, not-In-nil, In-of_all, all_of_In,
  any_of_In, In-of_any, map_get, ◌==◌, string_eq, pair_eq, eq_refl, Bool-cases, Option-cases,
  if◌then◌else◌,
}
use butido.Job.{Environment, entries}

-- `if let Some(val) = hm.get(&key) { value == val } else { false }`
abbrev pub value_is : Option String → String → Bool
value_is none value = false
value_is (some val) value = value == val

abbrev pub is_in_pkg_env : Option Environment → String × String → Bool
is_in_pkg_env none e = false
is_in_pkg_env (some hm) e = value_is (map_get e.0 hm) e.1

abbrev pub is_in_add_env : Environment → String × String → Bool
is_in_add_env add_env e = any (λ a. a.0 == e.0 && a.1 == e.1) add_env

-- `job_env.contains(&(…))`
abbrev pub contains_pair : Environment → String × String → Bool
contains_pair job_env e = any (λ j. j == e) job_env

unfoldable pub environments_equal : Environment → Option Environment → Environment → Bool
environments_equal job_env pkg_env add_env =
    all (λ e. is_in_pkg_env pkg_env e || is_in_add_env add_env e) job_env
    && all (λ e. contains_pair job_env e) (entries pkg_env)
    && all (λ e. contains_pair job_env e) add_env

-- A `HashMap` has one value for a key.
abbrev pub IsMapping : Environment → Type 0
IsMapping hm = (k v : String) → In (k, v) hm → map_get k hm ≡ some v

In-of_get : (k v : String) (hm : Environment) → map_get k hm ≡ some v → In (k, v) hm
In-of_get k v [] h = absurd (cc)
In-of_get k v ((j, w) ∷ hm) h = elim (Bool-cases (j == k)) [
  | inl same ↦
      let w_is : some w ≡ some v = rw (same, if◌then◌else◌) at h in
      let k_is : j ≡ k = (string_eq.beq_iff j k).0 same in
      here (ap (λ (x : String). (x, w)) k_is ∙ ap (λ (x : String). (k, x)) (cc))
  | inr other ↦ there (In-of_get k v hm (rw (other, if◌then◌else◌) at h))
]

In-pkg_iff :
    (pkg_env : Option Environment)
    → IsMapping (entries pkg_env)
    → (e : String × String) → (is_in_pkg_env pkg_env e ≡ true) ↔ In e (entries pkg_env)
In-pkg_iff none once e = (λ h. absurd (cc), λ m. absurd (not-In-nil m))
In-pkg_iff (some hm) once (k, v) = (
  λ h. elim (Option-cases (map_get k hm)) [
    | inl missing ↦ absurd (cc (ap (λ (o : Option String). value_is o v) missing))
    | inr (w, found) ↦
        let is : (v == w) ≡ true = ap (λ (o : Option String). value_is o v) (sym found) ∙ h in
        In-of_get k v hm (found ∙ ap (λ (x : String). some x) (sym ((string_eq.beq_iff v w).0 is)))
  ],
  λ m. ap (λ (o : Option String). value_is o v) (once k v m) ∙ eq_refl v,
)

In-add_iff :
    (add_env : Environment) (e : String × String) → (is_in_add_env add_env e ≡ true) ↔ In e add_env
In-add_iff add_env (k, v) = (
  λ h.
      let ((j, w), at, same) = In-of_any (λ a. a.0 == k && a.1 == v) add_env h in
      let j_is = (string_eq.beq_iff j k).0 (ground arith) in
      let w_is = (string_eq.beq_iff w v).0 (ground arith) in
      subst (λ (x : String × String). In x add_env) (cc) at,
  λ m. any_of_In (λ a. a.0 == k && a.1 == v) m (ground (arith, eq_refl k, eq_refl v)),
)

contains_iff :
    (job_env : Environment) (e : String × String) → (contains_pair job_env e ≡ true) ↔ In e job_env
contains_iff job_env e = (
  λ h.
      let (j, at, same) = In-of_any (λ j. j == e) job_env h in
      subst (λ (x : String × String). In x job_env) ((pair_eq.beq_iff j e).0 same) at,
  λ m. any_of_In (λ j. j == e) m (eq_refl e),
)

-- A job's environment equals that of the package with the additional variables exactly when it has
-- the same variables with the same values.
pub environments_equal_iff :
    (job_env : Environment) (pkg_env : Option Environment) (add_env : Environment)
    → IsMapping (entries pkg_env)
    → (environments_equal job_env pkg_env add_env ≡ true)
      ↔ ((e : String × String) → In e job_env ↔ (In e (entries pkg_env) ⊎ In e add_env))
unfolding environments_equal
environments_equal_iff job_env pkg_env add_env once = (
  λ h e.
      let job_found : all (λ e. is_in_pkg_env pkg_env e || is_in_add_env add_env e) job_env ≡ true =
        ground arith in
      let pkg_found : all (λ e. contains_pair job_env e) (entries pkg_env) ≡ true = ground arith in
      let add_found : all (λ e. contains_pair job_env e) add_env ≡ true = ground arith in
      (
        λ m. elim (Bool-cases (is_in_pkg_env pkg_env e)) [
          | inl in_pkg ↦ inl ((In-pkg_iff pkg_env once e).0 in_pkg)
          | inr not_pkg ↦
              let either = In-of_all _ job_found m in
              inr ((In-add_iff add_env e).0 (ground (arith, either, not_pkg)))
        ],
        λ x. elim x [
          | inl m ↦ (contains_iff job_env e).0 (In-of_all _ pkg_found m)
          | inr m ↦ (contains_iff job_env e).0 (In-of_all _ add_found m)
        ],
      ),
  λ same.
      let job_found =
        all_of_In (λ e. is_in_pkg_env pkg_env e || is_in_add_env add_env e) job_env
          (λ e m. elim ((same e).0 m) [
            | inl in_pkg ↦ let t = (In-pkg_iff pkg_env once e).1 in_pkg in ground (arith, t)
            | inr in_add ↦ let t = (In-add_iff add_env e).1 in_add in ground (arith, t)
          ]) in
      let pkg_found =
        all_of_In (λ e. contains_pair job_env e) (entries pkg_env)
          (λ e m. (contains_iff job_env e).1 ((same e).1 (inl m))) in
      let add_found =
        all_of_In (λ e. contains_pair job_env e) add_env
          (λ e m. (contains_iff job_env e).1 ((same e).1 (inr m))) in
      rw (job_found, pkg_found, add_found) refl,
)
