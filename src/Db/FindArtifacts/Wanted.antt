-- ===== src/Db/FindArtifacts/Wanted.antt =====
-- Which rows the query selects (src/db/find_artifacts.rs).
use butido.Package.Condition.{ImageName}
use butido.Prelude.{
  any, any_of_In, In-of_any, eq_refl, ◌==◌, map_ok-eq-ok, ◌≡◌, refl, sym, ◌∙◌, ap, subst, inl, inr,
  String, true, Option, none, some, List, arith, In, ok, map_ok, string_eq, Bool-cases,
  if◌then◌else◌,
}
use butido.Job.{Script}
use butido.Db.FindArtifacts.{
  Row, FindArtifacts, is_allowed, is_not_denied, is_or_any, script, is_selected,
}
use butido.Prelude.{Result}
use butido.Orchestrator.Task.{Error}

module _ (f : FindArtifacts) where
  -- The artifact of the row is of the wanted package, and its job ran the wanted script, if the
  -- script is compared, in a wanted image.
  pub record IsWanted (row : Row) : Type 0 where
    pub name : row.name ≡ f.package'.name
    pub version : row.version ≡ f.package'.version
    pub allowed :
        (images : List ImageName) → f.package'.allowed_images ≡ some images → In row.image images
    pub not_denied :
        (images : List ImageName) → f.package'.denied_images ≡ some images → ¬ In row.image images
    pub same_script : f.script_filter ≡ true → f.build_script ≡ ok row.script_text
    pub same_image : (image : ImageName) → f.image_name ≡ some image → row.image ≡ image

  is_allowed-In :
      (o : Option (List ImageName)) (image : ImageName)
      → is_allowed o image ≡ true
      → (images : List ImageName) → o ≡ some images
      → In image images
  is_allowed-In none image h images e = absurd (cc)
  is_allowed-In (some is) image h images e =
      let same : is ≡ images = cc in
      let (i, at, found) = In-of_any (λ i. i == image) is h in
      subst (In image) same
        (subst (λ (x : ImageName). In x is) ((string_eq.beq_iff i image).0 found) at)

  is_not_denied-In :
      (o : Option (List ImageName)) (image : ImageName)
      → is_not_denied o image ≡ true
      → (images : List ImageName) → o ≡ some images
      → ¬ In image images
  is_not_denied-In none image h images e m = absurd (cc)
  is_not_denied-In (some is) image h images e m =
      let same : is ≡ images = cc in
      let found : any (λ i. i == image) is ≡ true =
        any_of_In (λ i. i == image) (subst (In image) (sym same) m) (eq_refl image) in
      absurd (ground arith)

  is_or_any-same : (o : Option String) (s t : String) → is_or_any o s ≡ true → o ≡ some t → s ≡ t
  is_or_any-same none s t h e = absurd (cc)
  is_or_any-same (some x) s t h e = let same = (string_eq.beq_iff s x).0 h in cc

  script-same :
      (s : Option Script) (text : Script)
      → script f ≡ ok s
      → is_or_any s text ≡ true
      → f.script_filter ≡ true
      → f.build_script ≡ ok text
  script-same s text scripted h compared =
      let made : map_ok (λ s. some s) f.build_script ≡ ok s =
        rw (compared, if◌then◌else◌) at scripted in
      let (x, builds, e) = map_ok-eq-ok (λ s. some s) f.build_script made in
      let same = is_or_any-same s text x h (sym e) in builds ∙ ap (λ (y : String). ok y) (sym same)

  pub is_selected-IsWanted :
      (s : Option Script) (row : Row) → script f ≡ ok s → is_selected f s row ≡ true → IsWanted row
  is_selected-IsWanted s row scripted h =
      let parts : (row.name == f.package'.name ≡ true)
          × (row.version == f.package'.version ≡ true)
          × (is_allowed f.package'.allowed_images row.image ≡ true)
          × (is_not_denied f.package'.denied_images row.image ≡ true)
          × (is_or_any s row.script_text ≡ true)
          × (is_or_any f.image_name row.image ≡ true) =
        ground arith in
      let (n, v, a, d, t, i) = parts in
      record {
        name = (string_eq.beq_iff row.name f.package'.name).0 n;
        version = (string_eq.beq_iff row.version f.package'.version).0 v;
        allowed = is_allowed-In f.package'.allowed_images row.image a;
        not_denied = is_not_denied-In f.package'.denied_images row.image d;
        same_script = script-same s row.script_text scripted t;
        same_image = λ image e. is_or_any-same f.image_name row.image image i e;
      }

  is_allowed_intro :
      (o : Option (List ImageName)) (image : ImageName)
      → ((images : List ImageName) → o ≡ some images → In image images)
      → is_allowed o image ≡ true
  is_allowed_intro none image h = refl
  is_allowed_intro (some is) image h = any_of_In (λ i. i == image) (h is refl) (eq_refl image)

  is_not_denied_intro :
      (o : Option (List ImageName)) (image : ImageName)
      → ((images : List ImageName) → o ≡ some images → ¬ In image images)
      → is_not_denied o image ≡ true
  is_not_denied_intro none image h = refl
  is_not_denied_intro (some is) image h = elim (Bool-cases (any (λ i. i == image) is)) [
    | inl found ↦
        let (i, at, same) = In-of_any (λ i. i == image) is found in
        absurd
          (h is refl (subst (λ (x : ImageName). In x is) ((string_eq.beq_iff i image).0 same) at))
    | inr missing ↦ rw missing refl
  ]

  is_or_any_intro :
      (o : Option String) (s : String) → ((t : String) → o ≡ some t → s ≡ t) → is_or_any o s ≡ true
  is_or_any_intro none s h = refl
  is_or_any_intro (some t) s h = (string_eq.beq_iff s t).1 (h t refl)

  wanted_script :
      (s : Option Script) (text t : Script)
      → script f ≡ ok s
      → (f.script_filter ≡ true → f.build_script ≡ ok text)
      → s ≡ some t
      → text ≡ t
  wanted_script s text t scripted same e = elim (Bool-cases f.script_filter) [
    | inl compared ↦
        let made : map_ok (λ s. some s) f.build_script ≡ ok s =
          rw (compared, if◌then◌else◌) at scripted in
        let (x, builds, is) = map_ok-eq-ok (λ s. some s) f.build_script made in
        let builds' = same compared in cc
    | inr ignored ↦
        let made : ◌≡◌ {A = Result Error (Option Script)} (ok none) (ok s) =
          rw (ignored, if◌then◌else◌) at scripted in
        absurd (cc)
  ]

  -- The filters select every row that is wanted.
  pub is_selected_intro :
      (s : Option Script) (row : Row) → script f ≡ ok s → IsWanted row → is_selected f s row ≡ true
  is_selected_intro s row scripted w =
      rw
        (
          (string_eq.beq_iff row.name f.package'.name).1 w.name,
          (string_eq.beq_iff row.version f.package'.version).1 w.version,
          is_allowed_intro f.package'.allowed_images row.image w.allowed,
          is_not_denied_intro f.package'.denied_images row.image w.not_denied,
          is_or_any_intro s row.script_text
              (λ t e. wanted_script s row.script_text t scripted w.same_script e),
          is_or_any_intro f.image_name row.image w.same_image,
        )
        refl
