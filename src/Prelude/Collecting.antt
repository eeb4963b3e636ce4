-- ===== src/Prelude/Collecting.antt =====
-- What a collected list holds.
use mathlib.Core.Path.{◌≡◌, refl, sym, ap, subst}
use mathlib.Core.List.{List, [], ◌∷◌}
use butido.Prelude.Fallible.{Result, ok, err, collect, map_ok-eq-ok}
use butido.Prelude.Lists.{In, here, there, not-In-nil}

-- Every value that is collected is a result of the list.
pub In-collect :
    {E : Type 0} {A : Type 0} (rs : List (Result E A)) {as' : List A} {a : A}
    → collect rs ≡ ok as'
    → In a as'
    → In (ok a) rs
In-collect [] {as'} {a} h m = let e : [] ≡ as' = cc in absurd (not-In-nil (subst (In a) (sym e) m))
In-collect (err e ∷ rs) h m = absurd (cc)
In-collect {E} {A} (ok x ∷ rs) {as'} {a} h m =
    let (rest, collected, e) = map_ok-eq-ok (λ l. x ∷ l) (collect rs) h in
    split rest (λ l. In-collect rs collected l) (subst (In a) (sym e) m)
  where
    split : (rest : List A) → (In a rest → In (ok a) rs) → In a (x ∷ rest) → In (ok a) (ok x ∷ rs)
    split rest below (here same) = here (ap (λ (y : A). ok y) same)
    split rest below (there l) = there (below l)

-- When a list is collected, every result in it is a value that is collected.
pub collect-In :
    {E : Type 0} {A : Type 0} {r : Result E A} {rs : List (Result E A)} {as' : List A}
    → collect rs ≡ ok as'
    → In r rs
    → (a : A) × (r ≡ ok a) × In a as'
collect-In {rs = err e ∷ rs} h m = absurd (cc)
collect-In {rs = ok x ∷ rs} {as'} h (here same) =
    let (rest, collected, e) = map_ok-eq-ok (λ l. x ∷ l) (collect rs) h in
    (x, sym same, subst (In x) e (here refl))
collect-In {A = A} {rs = ok x ∷ rs} {as'} h (there m) =
    let (rest, collected, e) = map_ok-eq-ok (λ l. x ∷ l) (collect rs) h in
    let (a, is, at) = collect-In collected m in (a, is, subst (λ (l : List A). In a l) e (there at))
collect-In {rs = []} h m = absurd (not-In-nil m)
