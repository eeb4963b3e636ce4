-- ===== src/Commands/Build/Checks.antt =====
-- On which image the packages of a graph are built (src/commands/build.rs).
use butido.Prelude.{
  ◌≡◌, refl, sym, subst, inl, inr, Option, none, some, List, [], ◌∷◌, arith, map, any, In, here,
  there, not-In-nil, In-of_any, any_of_In, Result, ok, err, >>=-eq-ok, map_ok-eq-ok, collect, ◌==◌,
  string_eq, eq_refl, Bool-cases,
}
use butido.Package.Condition.{ImageName}
use butido.Package.Types.{Key, key, Package}
use butido.Commands.Build.{BuildError, check_allowed, check_denied, check_image, check_images}

-- The image is in the list of allowed images and not in that of denied ones, where there are any.
pub record MayBuild (image : ImageName) (pkg : Package) : Type 0 where
  pub allowed : (l : List ImageName) → pkg.allowed_images ≡ some l → In image l
  pub not_denied : (l : List ImageName) → pkg.denied_images ≡ some l → ¬ In image l

allowed-eq-ok :
    (k : Key) (image : ImageName) (o : Option (List ImageName)) (l : List ImageName)
    → check_allowed k image o ≡ ok tt
    → o ≡ some l
    → In image l
allowed-eq-ok k image none l h e = absurd (cc)
allowed-eq-ok k image (some allowlist) l h e = elim (Bool-cases (any (λ i. i == image) allowlist)) [
  | inr missing ↦ absurd (ground arith)
  | inl found ↦
      let (i, at, same) = In-of_any (λ i. i == image) allowlist found in
      let same_list : allowlist ≡ l = cc in
      subst (In image) same_list
        (subst (λ (x : ImageName). In x allowlist) ((string_eq.beq_iff i image).0 same) at)
]

denied-eq-ok :
    (k : Key) (image : ImageName) (o : Option (List ImageName)) (l : List ImageName)
    → check_denied k image o ≡ ok tt
    → o ≡ some l
    → ¬ In image l
denied-eq-ok k image none l h e m = absurd (cc)
denied-eq-ok k image (some deniedlist) l h e m =
    let same_list : deniedlist ≡ l = cc in
    let found =
      any_of_In (λ denied. image == denied) (subst (In image) (sym same_list) m) (eq_refl image) in
    absurd (ground (arith, found))

-- If the check of the images succeeds, every package may be built on the image.
pub check_images-MayBuild :
    (image : ImageName) (packages : List Package) {us : List (Unit {0})}
    → check_images image packages ≡ ok us
    → (p : Package) → In p packages
    → MayBuild image p
unfolding check_images
check_images-MayBuild image [] h p m = absurd (not-In-nil m)
check_images-MayBuild image (q ∷ packages) {us} h p m =
    of_first (check_image image q) refl
      (λ vs c l. check_images-MayBuild image packages {us = vs} c p l) h m
  where
    one : check_image image q ≡ ok tt → MayBuild image q
    one e =
        let (u, allowed, denied) =
          >>=-eq-ok (check_allowed (key q) image q.allowed_images)
            (λ u. check_denied (key q) image q.denied_images) e in
        record {
          allowed = λ l is. allowed-eq-ok (key q) image q.allowed_images l allowed is;
          not_denied = λ l is. denied-eq-ok (key q) image q.denied_images l denied is;
        }

    of_first :
        (r : Result BuildError (Unit {0}))
        → check_image image q ≡ r
        → ((vs : List (Unit {0}))
            → collect (map (check_image image) packages) ≡ ok vs
            → In p packages
            → MayBuild image p)
        → collect (r ∷ map (check_image image) packages) ≡ ok us
        → In p (q ∷ packages)
        → MayBuild image p
    of_first (err x) e below g l = absurd (cc)
    of_first (ok u) e below g (here same) = subst (MayBuild image) same (one e)
    of_first (ok u) e below g (there l) =
        let (vs, collected, _) =
          map_ok-eq-ok (λ (us' : List (Unit {0})). u ∷ us')
            (collect (map (check_image image) packages)) g in
        below vs collected l
