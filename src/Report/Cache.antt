-- ===== src/Report/Cache.antt =====
-- internal/report/cache.go: the cache of suite trees and its files. The trees are of any type. A Go map
-- is the list of its entries in the order in which a `range` loop would meet them. The checksum of the
-- source code, the answers of Git and the file system are parameters of the operations that use them.
pub mod Name
pub mod Asked
pub mod Stale
pub mod Update
pub mod Disk
pub mod Files
pub mod Get
pub mod Store
mod Tests
use medik8s_system_tests.Base.{
  ℕ, ◌≡◌, ◌↔◌, inl, inr, Bool, true, false, not, ◌&&◌, List, [], ◌∷◌, Option, none, some, arith,
  if◌then◌else◌, Comparable, ◌==◌,
}
use medik8s_system_tests.Go.Strings.{Text, text_eq}

pub record CacheKey : Type 0 where
  pub branch : Text
  pub revision : Text

abbrev pub key_beq : CacheKey → CacheKey → Bool
key_beq a b = a.branch == b.branch && a.revision == b.revision

-- `none` is a miss in `lookup`.
unfoldable pub lookup_key {ℓ} : {A : Type ℓ} → CacheKey → List (CacheKey × A) → Option A
lookup_key key [] = none
lookup_key key ((other, tree) ∷ trees) =
    let later = lookup_key key trees in if key_beq other key then some tree else later

-- `delete(cache.Trees, key)`
unfoldable pub delete_key {ℓ} : {A : Type ℓ} → CacheKey → List (CacheKey × A) → List (CacheKey × A)
delete_key key [] = []
delete_key key ((other, tree) ∷ trees) =
    let later = delete_key key trees in if key_beq other key then later else (other, tree) ∷ later

-- `cachedRevisions[branch] = revision`
unfoldable pub set_revision : Text → Text → List (Text × Text) → List (Text × Text)
set_revision branch revision [] = (branch, revision) ∷ []
set_revision branch revision ((other, old) ∷ revisions) =
    let later = set_revision branch revision revisions in
    if other == branch then (other, revision) ∷ revisions else (other, old) ∷ later

unfoldable pub cached_revisions {ℓ} :
    {A : Type ℓ} → List (CacheKey × A) → List (Text × Text) → List (Text × Text)
unfolding set_revision
cached_revisions [] revisions = revisions
cached_revisions ((key, tree) ∷ trees) revisions =
    cached_revisions trees (set_revision key.branch key.revision revisions)

-- `remoteRevision, ok := remoteRevisions[cachedBranch]; ok && cachedRevision == remoteRevision`
unfoldable pub is_current : (remote : Text → Option Text) → Text → Text → Bool
is_current remote branch revision = elim (remote branch) [
  | none ↦ false
  | some newest ↦ revision == newest
]

-- The second loop of `Update`.
unfoldable pub drop_stale {ℓ} :
    {A : Type ℓ}
    → (remote : Text → Option Text) → List (Text × Text)
    → List (CacheKey × A)
    → List (CacheKey × A)
unfolding is_current delete_key
drop_stale remote [] trees = trees
drop_stale remote ((branch, revision) ∷ revisions) trees = drop_stale remote revisions (
    if is_current remote branch revision
    then trees
    else delete_key (record { branch = branch; revision = revision }) trees)

-- `maps.Keys(cachedRevisions)`
abbrev pub branches_of : List (Text × Text) → List Text
branches_of [] = []
branches_of ((branch, revision) ∷ revisions) = branch ∷ branches_of revisions

-- `remoteRevisions[branch]`
unfoldable pub find_revision : List (Text × Text) → Text → Option Text
find_revision [] branch = none
find_revision ((other, revision) ∷ revisions) branch =
    let later = find_revision revisions branch in if other == branch then some revision else later

-- `Update`: the trees that are left, and whether it returns without an error. `remote` is what
-- `GetRemoteRevisions` returns for the branches; `none` is its error.
unfoldable pub update {ℓ} :
    {A : Type ℓ}
    → (source_code_sum : Text) → (remote : List Text → Option (List (Text × Text)))
    → List (CacheKey × A)
    → List (CacheKey × A) × Bool
unfolding drop_stale cached_revisions
update source_code_sum remote trees =
    let revisions = cached_revisions trees [] in
    if source_code_sum == [] then ([], true) else elim (remote (branches_of revisions)) [
      | none ↦ (trees, false)
      | some latest ↦ (drop_stale (find_revision latest) revisions trees, true)
    ]
