-- ===== src/Package/Condition.antt =====
-- Conditions on dependencies (src/package/dependency/condition.rs).
pub mod Matching
mod Examples
use butido.Prelude.{
  String, Bool, true, false, Option, none, some, List, not, any, all, find, Result, ok, ◌>>=◌, ◌==◌,
  string_eq, if◌then◌else◌,
}

-- `EnvironmentVariableName` and `ImageName` are newtypes around `String`.
abbrev pub EnvironmentVariableName : Type 0
EnvironmentVariableName = String

abbrev pub ImageName : Type 0
ImageName = String

pub data OneOrMore (T : Type 0) : Type 0 where
  one : T → OneOrMore T
  more : List T → OneOrMore T

-- A `BTreeMap` is the list of its entries.
pub record Condition : Type 0 where
  pub has_env : Option (OneOrMore EnvironmentVariableName)
  pub env_eq : Option (List (EnvironmentVariableName × String))
  pub in_image : Option (OneOrMore String)

pub record ConditionData : Type 0 where
  pub image_name : Option ImageName
  pub env : List (EnvironmentVariableName × String)

-- The checks return `Result<bool>` in the source; nothing in them makes an error.
pub data ConditionError : Type 0 where

abbrev pub Check : Type 0
Check = Result ConditionError Bool

-- `.map(|x| x == v).unwrap_or(false)`
abbrev pub is_some_eq : Option String → String → Bool
is_some_eq none v = false
is_some_eq (some x) v = x == v

-- `.map(|(_, value)| value)`
abbrev pub value_of : Option (EnvironmentVariableName × String) → Option String
value_of none = none
value_of (some (n, v)) = some v

abbrev pub find_env :
    EnvironmentVariableName → List (EnvironmentVariableName × String) → Option String
find_env n env = value_of (find (λ e. e.0 == n) env)

has_env_holds : OneOrMore EnvironmentVariableName → ConditionData → Bool
has_env_holds (one n) d = any (λ e. n == e.0) d.env
has_env_holds (more ns) d = all (λ n. any (λ e. e.0 == n) d.env) ns

check_env : Option (OneOrMore EnvironmentVariableName) → ConditionData → Check
unfolding has_env_holds
check_env none d = ok true
check_env (some c) d = if not (has_env_holds c d) then ok false else ok true

pub matches_env_cond : Condition → ConditionData → Check
unfolding check_env
matches_env_cond c d = check_env c.has_env d

env_eq_holds : List (EnvironmentVariableName × String) → ConditionData → Bool
env_eq_holds req d = all (λ r. is_some_eq (find_env r.0 d.env) r.1) req

check_env_eq : Option (List (EnvironmentVariableName × String)) → ConditionData → Check
unfolding env_eq_holds
check_env_eq none d = ok true
check_env_eq (some c) d = if not (env_eq_holds c d) then ok false else ok true

pub matches_env_eq_cond : Condition → ConditionData → Check
unfolding check_env_eq
matches_env_eq_cond c d = check_env_eq c.env_eq d

in_image_holds : OneOrMore String → ConditionData → Bool
in_image_holds (one image) d = is_some_eq d.image_name image
in_image_holds (more images) d = any (λ image. is_some_eq d.image_name image) images

check_in_image : Option (OneOrMore String) → ConditionData → Check
unfolding in_image_holds
check_in_image none d = ok true
check_in_image (some c) d = ok (in_image_holds c d)

pub matches_in_image_cond : Condition → ConditionData → Check
unfolding check_in_image
matches_in_image_cond c d = check_in_image c.in_image d

unfoldable pub matches : Condition → ConditionData → Check
unfolding matches_env_cond matches_env_eq_cond matches_in_image_cond
matches c d = do
  env ← matches_env_cond c d
  if not env then ok false else do
    env_eq ← matches_env_eq_cond c d
    if not env_eq
        then ok false
        else do in_image ← matches_in_image_cond c d; if not in_image then ok false else ok true
