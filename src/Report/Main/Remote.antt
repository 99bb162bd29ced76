-- ===== src/Report/Main/Remote.antt =====
-- The trees of the branches that match patterns.
use medik8s_system_tests.Base.{
  ◌⊎◌, ◌≡◌, refl, ap, ◌∙◌, subst, inl, inr, Bool, true, false, List, [], ◌∷◌, Option, none, some,
  arith, Bool-cases, ◌==◌,
}
use medik8s_system_tests.Go.Strings.{Text, text_eq}
use medik8s_system_tests.Report.Tree.{SuiteTree}
use medik8s_system_tests.Report.Cache.{CacheKey, lookup_key}
use medik8s_system_tests.Report.Cache.Store.{match_revisions, match_remote}
use medik8s_system_tests.Report.Command.{get_remote_revisions, remote_url}
use medik8s_system_tests.Report.Main.{Outcome, returns, fails, panics, Trees, Tool}
use medik8s_system_tests.Report.Main.Collect.{
  fill_entry, fill_each, then_fill, put_entry, fill_matches, get_from_cache_or_clone,
}

abbrev pub key_of : Text → Text → CacheKey
key_of branch revision = record { branch = branch; revision = revision }

-- A tree for each branch and its revision, which is the cached one where there is one.
abbrev pub IsFilled : Trees → List (Text × Text) → Trees → Type 0
IsFilled cached [] [] = Unit
IsFilled cached [] (entry ∷ entries) = ⊥
IsFilled cached (revision ∷ revisions) [] = ⊥
IsFilled cached ((branch, revision) ∷ revisions) ((key, tree) ∷ filled) =
    (key ≡ key_of branch revision)
    × ((lookup_key (key_of branch revision) cached ≡ none)
        ⊎ (lookup_key (key_of branch revision) cached ≡ some tree))
    × IsFilled cached revisions filled

abbrev is_returned : Outcome Trees → Bool
is_returned (returns filled) = true
is_returned fails = false
is_returned panics = false

module _ {W C : Type 0} (tool : Tool W C) where
  abbrev OrFilled : Trees → List (Text × Text) → Outcome Trees → Type 0
  OrFilled cached revisions (returns filled) = IsFilled cached revisions filled
  OrFilled cached revisions fails = Unit
  OrFilled cached revisions panics = Unit

  put_entry-OrFilled :
      (cached : Trees) (branch revision : Text) (revisions : List (Text × Text)) (tree : SuiteTree)
      (r : W × Outcome Trees × Trees)
      → (lookup_key (key_of branch revision) cached ≡ none)
        ⊎ (lookup_key (key_of branch revision) cached ≡ some tree)
      → OrFilled cached revisions r.1
      → OrFilled cached
          ((branch, revision) ∷ revisions)
          (put_entry tool (key_of branch revision) tree r).1
  put_entry-OrFilled cached branch revision revisions tree (w, returns filled, trees) at h =
      (refl, at, h)
  put_entry-OrFilled cached branch revision revisions tree (w, fails, trees) at h = tt
  put_entry-OrFilled cached branch revision revisions tree (w, panics, trees) at h = tt

  then_fill-OrFilled :
      (cached : Trees) (branch revision : Text) (revisions : List (Text × Text))
      (next : W → Trees → W × Outcome Trees × Trees) (r : W × Outcome SuiteTree × Trees)
      → ((w : W) (trees : Trees) → OrFilled cached revisions (next w trees).1)
      → ((tree : SuiteTree)
          → r.1 ≡ returns tree
          → (lookup_key (key_of branch revision) cached ≡ none)
            ⊎ (lookup_key (key_of branch revision) cached ≡ some tree))
      → OrFilled cached
          ((branch, revision) ∷ revisions)
          (then_fill tool (key_of branch revision) next r).1
  then_fill-OrFilled cached branch revision revisions next (w, fails, trees) h at = tt
  then_fill-OrFilled cached branch revision revisions next (w, panics, trees) h at = tt
  then_fill-OrFilled cached branch revision revisions next (w, returns tree, trees) h at =
      put_entry-OrFilled cached branch revision revisions tree (next w trees) (at tree refl)
        (h w trees)

  abbrev value_of : SuiteTree → Outcome SuiteTree → SuiteTree
  value_of other (returns tree) = tree
  value_of other fails = other
  value_of other panics = other

  fill_entry-at :
      (cached : Trees) (key : CacheKey) (found : Option SuiteTree) (w : W) (trees : Trees)
      (tree : SuiteTree)
      → lookup_key key cached ≡ found
      → (fill_entry tool key found w trees).1 ≡ returns tree
      → (lookup_key key cached ≡ none) ⊎ (lookup_key key cached ≡ some tree)
  unfolding fill_entry
  fill_entry-at cached key none w trees tree at h = inl at
  fill_entry-at cached key (some old) w trees tree at h =
      let same : old ≡ tree = ap (value_of old) h in inr (at ∙ ap some same)

  fill_each-OrFilled :
      (cached : Trees) (revisions : List (Text × Text)) (w : W) (trees : Trees)
      → OrFilled cached revisions
          (fill_each tool (match_revisions tool.cache cached revisions) w trees).1
  unfolding fill_each match_revisions
  fill_each-OrFilled cached [] w trees = tt
  fill_each-OrFilled cached ((branch, revision) ∷ revisions) w trees =
      let key = key_of branch revision in
      then_fill-OrFilled cached branch revision revisions
        (fill_each tool (match_revisions tool.cache cached revisions))
        (fill_entry tool key (lookup_key key cached) w trees) (fill_each-OrFilled cached revisions)
        (λ tree h. fill_entry-at cached key (lookup_key key cached) w trees tree refl h)

  fill_matches-OrFilled :
      (cached : Trees) (revisions : Option (List (Text × Text))) (w : W) (filled : Trees)
      → (fill_matches tool (match_remote tool.cache cached revisions) w cached).1 ≡ returns filled
      → (known : List (Text × Text)) × (revisions ≡ some known) × IsFilled cached known filled
  unfolding fill_matches match_remote
  fill_matches-OrFilled cached none w filled = λ h. absurd (ground (arith, ap is_returned h))
  fill_matches-OrFilled cached (some revisions) w filled =
      elim (Bool-cases (tool.stats tool.temp_dir w)) [
        | inl e ↦ rw e (λ h. (
          revisions,
          refl,
          subst (OrFilled cached revisions) h (fill_each-OrFilled cached revisions w cached),
        ))
        | inr e ↦ rw e (λ h. absurd (ground (arith, ap is_returned h)))
      ]

  -- When `getFromCacheOrClone` returns no error, the remote revisions of the patterns are known, and it
  -- returns a tree for each of these branches and its revision, in their order: the cached tree, if
  -- there is one.
  pub get_from_cache_or_clone-IsFilled :
      (patterns : List Text) (w : W) (cached filled : Trees)
      → (get_from_cache_or_clone tool patterns w cached).1 ≡ returns filled
      → (revisions : List (Text × Text)) × ((get_remote_revisions tool.machine remote_url patterns
            w).1
          ≡ some revisions)
        × IsFilled cached revisions filled
  unfolding get_from_cache_or_clone
  get_from_cache_or_clone-IsFilled patterns w cached filled =
      let asked = get_remote_revisions tool.machine remote_url patterns w in
      elim (Bool-cases (tool.cache.source_code_sum == [])) [
        | inl e ↦ rw e (λ h. absurd (ground (arith, ap is_returned h)))
        | inr e ↦ rw e (fill_matches-OrFilled cached asked.1 asked.0 filled)
      ]
