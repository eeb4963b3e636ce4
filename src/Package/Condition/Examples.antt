-- ===== src/Package/Condition/Examples.antt =====
-- `Condition::matches` on the data of the source's tests.
use butido.Prelude.{◌≡◌, refl, true, false, some, [], ◌∷◌, ok, ◌↔◌}
use butido.Package.Condition.{Condition, ConditionData, one, matches}
use butido.Package.Condition.Matching.{IsMet, matches_iff}

abbrev wanted : Condition
wanted = record {
  has_env = some (one "A");
  env_eq = some (("A", "1") ∷ []);
  in_image = some (one "required_image");
}

abbrev matching : ConditionData
matching = record { image_name = some "required_image"; env = ("A", "1") ∷ [] }

abbrev other_value : ConditionData
other_value = record { image_name = some "required_image"; env = ("A", "2") ∷ ("A", "1") ∷ [] }

matches-wanted : (matches wanted matching ≡ ok true) × (matches wanted other_value ≡ ok false)
unfolding matches
matches-wanted = (refl, refl)

matches_iff_example : (matches wanted matching ≡ ok true) ↔ IsMet wanted matching
matches_iff_example = matches_iff wanted matching
