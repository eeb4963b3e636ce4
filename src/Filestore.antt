-- ===== src/Filestore.antt =====
-- The artifacts of a store (src/filestore/util.rs, staging.rs, release.rs and path.rs).
pub mod Staging
mod Examples
use butido.Prelude.{
  String, Bool, true, Option, some, List, [], ◌∷◌, any, find, ◌==◌, string_eq, if◌then◌else◌, ◌≡◌,
  refl, ◌∙◌, inl, inr, arith, Bool-cases,
}

-- A path below a store, and the directory of a store
abbrev pub ArtifactPath : Type 0
ArtifactPath = String

abbrev pub StoreRoot : Type 0
StoreRoot = String

-- A `HashSet` is the list of its values.
pub record FileStoreImpl : Type 0 where
  pub root_path : StoreRoot
  pub store : List ArtifactPath

-- `StagingStore` and `ReleaseStore` wrap this type, and pass the calls on.
unfoldable pub get : FileStoreImpl → ArtifactPath → Option ArtifactPath
get s p = find (λ q. q == p) s.store

unfoldable pub load_from_path : FileStoreImpl → ArtifactPath → FileStoreImpl × ArtifactPath
load_from_path s p = (if any (λ q. q == p) s.store then s else record s { store = p ∷ s.store }, p)

-- `FullArtifactPath`
pub record FullArtifactPath : Type 0 where
  pub root : StoreRoot
  pub artifact_path : ArtifactPath

abbrev pub is_in_staging_store : FullArtifactPath → FileStoreImpl → Bool
is_in_staging_store p staging = staging.root_path == p.root

found_same : (p : String) (l : List String) {q : String} → find (λ x. x == p) l ≡ some q → q ≡ p
found_same p [] h = absurd (cc)
found_same p (x ∷ l) {q} h = elim (Bool-cases (x == p)) [
  | inl same ↦
      let e : some x ≡ some q = rw (same, if◌then◌else◌) at h in
      let e' : q ≡ x = cc in e' ∙ (string_eq.beq_iff x p).0 same
  | inr other ↦ found_same p l (rw (other, if◌then◌else◌) at h)
]

-- An artifact that is found is the one that was asked for.
pub get_same : (s : FileStoreImpl) (p : ArtifactPath) {q : ArtifactPath} → get s p ≡ some q → q ≡ p
unfolding get
get_same s p h = found_same p s.store h

find_self :
    (p : String) (l : List String) → any (λ q. q == p) l ≡ true → find (λ q. q == p) l ≡ some p
find_self p [] h = absurd (cc)
find_self p (q ∷ l) h = ground (arith, string_eq.beq_iff q p, find_self p l)

-- After loading a path the store has it, and every other path as before; the root stays.
pub get-load_from_path :
    (s : FileStoreImpl) (p q : ArtifactPath)
    → (get (load_from_path s p).0 q ≡ (if p == q then some p else get s q))
      × ((load_from_path s p).0.root_path ≡ s.root_path)
unfolding get load_from_path
get-load_from_path s p q = (
  elim (Bool-cases (any (λ r. r == p) s.store)) [
    | inl known ↦ rw known (ground (arith, string_eq.beq_iff p q, find_self p s.store known))
    | inr new ↦ rw new refl
  ],
  ground arith,
)
