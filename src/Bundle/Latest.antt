-- ===== src/Bundle/Latest.antt =====
-- The bundle that is found is the latest.
use Prim.Native.Nat.{Ordering}
use mathlib.Core.Option.{some-injective}
use medik8s_system_tests.Base.{
  ◌≡◌, ◌⊎◌, refl, sym, ap, ◌∙◌, subst, true, false, List, [], ◌∷◌, ◌++◌, Option, none, some, ltb,
  ◌^◌, nat_eq, arith, Bool-cases, Option-cases, inl, inr, All, Any,
}
use medik8s_system_tests.Base.Int.{ℤ, pos, negsuc}
use medik8s_system_tests.Go.Strings.{Text, text_eq}
use medik8s_system_tests.Bundle.Tags.{
  Version, ltz, compare_then, compare_version, is_gt, Latest, take_tag, take_tags, no_version,
  tag_in, decimal, downstream_ga_version, latest_ga_bundle, find_submatch, atoi, atoi_each,
  version_of,
}

ltz_trans : (a b c : ℤ) → ltz a b ≡ true → ltz b c ≡ true → ltz a c ≡ true
ltz_trans (pos a) (pos b) (pos c) h k = ground (arith, h, k)
ltz_trans (pos a) (pos b) (negsuc c) h k = k
ltz_trans (pos a) (negsuc b) c h k = absurd (ground (arith, h))
ltz_trans (negsuc a) b (pos c) h k = refl
ltz_trans (negsuc a) (pos b) (negsuc c) h k = absurd (ground (arith, k))
ltz_trans (negsuc a) (negsuc b) (negsuc c) h k = ground (arith, h, k)

ltz-same : (a b : ℤ) → ltz a b ≡ false → ltz b a ≡ false → a ≡ b
ltz-same (pos a) (pos b) h k = ap pos (ground (arith, h, k))
ltz-same (pos a) (negsuc b) h k = absurd (ground (arith, k))
ltz-same (negsuc a) (pos b) h k = absurd (ground (arith, h))
ltz-same (negsuc a) (negsuc b) h k = ap negsuc (ground (arith, h, k))

ltz-asym : (a b : ℤ) → ltz a b ≡ true → ltz b a ≡ false
ltz-asym (pos a) (pos b) h = ground (arith, h)
ltz-asym (pos a) (negsuc b) h = absurd (ground (arith, h))
ltz-asym (negsuc a) (pos b) h = refl
ltz-asym (negsuc a) (negsuc b) h = ground (arith, h)

-- One version is greater, by this number or the next.
compare_then-gt :
    (a b : ℤ) (next : Ordering)
    → is_gt (compare_then a b next) ≡ true
    → (ltz b a ≡ true) ⊎ ((a ≡ b) × (is_gt next ≡ true))
compare_then-gt a b next = elim (Bool-cases (ltz a b)) [
  | inl e ↦ rw e (λ h. absurd (ground (arith, h)))
  | inr e ↦ elim (Bool-cases (ltz b a)) [
    | inl f ↦ rw (e, f) (λ h. inl refl)
    | inr f ↦ rw (e, f) (λ h. inr (ltz-same a b e f, h))
  ]
]

gt-compare_then :
    (a b : ℤ) (next : Ordering) → ltz b a ≡ true → is_gt (compare_then a b next) ≡ true
gt-compare_then a b next h = rw (ltz-asym b a h, h) refl

same-compare_then : (a : ℤ) (next : Ordering) → compare_then a a next ≡ next
same-compare_then a next = elim (Bool-cases (ltz a a)) [
  | inl e ↦ absurd (ground (arith, e, ltz-asym a a e))
  | inr e ↦ rw e refl
]

compare_then_trans :
    (a b c : ℤ) (ab bc ac : Ordering)
    → (is_gt ab ≡ true → is_gt bc ≡ true → is_gt ac ≡ true)
    → is_gt (compare_then a b ab) ≡ true
    → is_gt (compare_then b c bc) ≡ true
    → is_gt (compare_then a c ac) ≡ true
compare_then_trans a b c ab bc ac next h k = elim (compare_then-gt a b ab h) [
  | inl x ↦ elim (compare_then-gt b c bc k) [
    | inl y ↦ gt-compare_then a c ac (ltz_trans c b a y x)
    | inr (y, n) ↦ gt-compare_then a c ac (subst (λ z. ltz z a ≡ true) y x)
  ]
  | inr (x, m) ↦ elim (compare_then-gt b c bc k) [
    | inl y ↦ gt-compare_then a c ac (subst (λ z. ltz c z ≡ true) (sym x) y)
    | inr (y, n) ↦
        subst (λ z. is_gt (compare_then a z ac) ≡ true) (x ∙ y)
          (ap is_gt (same-compare_then a ac) ∙ next m n)
  ]
]

compare_version_trans :
    (a b c : Version)
    → is_gt (compare_version a b) ≡ true
    → is_gt (compare_version b c) ≡ true
    → is_gt (compare_version a c) ≡ true
unfolding compare_version
compare_version_trans a b c =
    let last : ℤ → ℤ → Ordering = λ x y. compare_then x y Ordering.eq in
    let middle : Version → Version → Ordering =
      λ x y. compare_then x.minor y.minor (last x.patch y.patch) in
    compare_then_trans a.major b.major c.major (middle a b) (middle b c) (middle a c) (
      compare_then_trans a.minor b.minor c.minor (last a.patch b.patch) (last b.patch c.patch)
        (last a.patch c.patch)
        (compare_then_trans a.patch b.patch c.patch Ordering.eq Ordering.eq Ordering.eq (λ h k. h)))

-- The first version is not greater than the second.
abbrev pub AtMost : Version → Version → Type 0
AtMost version bound = is_gt (compare_version version bound) ≡ false

-- The tags' versions are not greater.
abbrev pub Bounds : Version → List Text → Type 0
Bounds bound tags =
    All
      (λ tag. (version : Version) → downstream_ga_version tag ≡ some version → AtMost version bound)
      tags

AtMost-grows : (a b c : Version) → is_gt (compare_version c b) ≡ true → AtMost a b → AtMost a c
AtMost-grows a b c grows most = elim (Bool-cases (is_gt (compare_version a c))) [
  | inl e ↦ absurd (ground (arith, most, compare_version_trans a c b e grows))
  | inr e ↦ e
]

take_tag-grows :
    (tag : Text) (found : Option Version) (latest : Latest) (a : Version)
    → AtMost a latest.1
    → AtMost a (take_tag tag found latest).1
take_tag-grows tag none latest a most = most
take_tag-grows tag (some version) (name, bound) a most =
    elim (Bool-cases (is_gt (compare_version version bound))) [
      | inl e ↦ rw e (AtMost-grows a bound version e most)
      | inr e ↦ rw e most
    ]

AtMost-same : (a : Version) → AtMost a a
unfolding compare_version
AtMost-same a = ap is_gt (
    same-compare_then a.major
      (compare_then a.minor a.minor (compare_then a.patch a.patch Ordering.eq))
    ∙ same-compare_then a.minor (compare_then a.patch a.patch Ordering.eq)
    ∙ same-compare_then a.patch Ordering.eq)

take_tag-AtMost :
    (tag : Text) (version : Version) (latest : Latest)
    → AtMost version (take_tag tag (some version) latest).1
take_tag-AtMost tag version (name, bound) =
    elim (Bool-cases (is_gt (compare_version version bound))) [
      | inl e ↦ rw e (AtMost-same version)
      | inr e ↦ rw e e
    ]

take_tags-grows :
    (tags : List Text) (latest : Latest) (a : Version)
    → AtMost a latest.1
    → AtMost a (take_tags tags latest).1
unfolding take_tags
take_tags-grows [] latest a most = most
take_tags-grows (tag ∷ tags) latest a most =
    take_tags-grows tags (take_tag tag (downstream_ga_version tag) latest) a
      (take_tag-grows tag (downstream_ga_version tag) latest a most)

take_tags-Bounds : (tags : List Text) (latest : Latest) → Bounds (take_tags tags latest).1 tags
unfolding take_tags
take_tags-Bounds [] latest = tt
take_tags-Bounds (tag ∷ tags) latest =
    let next = take_tag tag (downstream_ga_version tag) latest in
    (
      (λ version at. take_tags-grows tags next version (
          subst (λ o. AtMost version (take_tag tag o latest).1) (sym at)
            (take_tag-AtMost tag version latest))),
      take_tags-Bounds tags next,
    )

-- A tag with its version.
abbrev pub Names : Latest → Text → Type 0
Names latest tag = (latest.0 ≡ tag) × (downstream_ga_version tag ≡ some latest.1)

take_tag-Names :
    (tag : Text) (found : Option Version) (latest : Latest)
    → downstream_ga_version tag ≡ found
    → (take_tag tag found latest ≡ latest) ⊎ Names (take_tag tag found latest) tag
take_tag-Names tag none latest at = inl refl
take_tag-Names tag (some version) (name, bound) at =
    elim (Bool-cases (is_gt (compare_version version bound))) [
      | inl e ↦ rw e (inr (refl, at))
      | inr e ↦ rw e (inl refl)
    ]

take_tags-Names :
    (tags : List Text) (latest : Latest)
    → (take_tags tags latest ≡ latest) ⊎ Any (Names (take_tags tags latest)) tags
unfolding take_tags
take_tags-Names [] latest = inl refl
take_tags-Names (tag ∷ tags) latest =
    let next = take_tag tag (downstream_ga_version tag) latest in
    elim (take_tags-Names tags next) [
      | inl same ↦ elim (take_tag-Names tag (downstream_ga_version tag) latest refl) [
        | inl kept ↦ inl (same ∙ kept)
        | inr named ↦ inr (inl (subst (λ l. Names l tag) (sym same) named))
      ]
      | inr any ↦ inr (inr any)
    ]

atoi-pos : (text : Text) (value : ℤ) → atoi text ≡ some value → ltz (negsuc 0) value ≡ true
unfolding atoi
atoi-pos text value = elim (Bool-cases (ltb (decimal 0 text) (2 ^ 63))) [
  | inl e ↦ rw e (λ h.
      subst (λ z. ltz (negsuc 0) z ≡ true) (some-injective (pos (decimal 0 text)) value h) refl)
  | inr e ↦ rw e (λ h. absurd (ground (arith, h)))
]

abbrev major_of : Option Version → Option ℤ
major_of none = none
major_of (some version) = some version.major

version_of-major :
    (a b c : Option ℤ) (version : Version)
    → version_of a b c ≡ some version
    → a ≡ some version.major
version_of-major none b c version h = absurd (cc)
version_of-major (some a) none c version h = absurd (cc)
version_of-major (some a) (some b) none version h = absurd (cc)
version_of-major (some a) (some b) (some c) version h = ap major_of h

-- A version that is read from a tag is greater than the first bound.
downstream_ga_version-greater :
    (tag : Text) (version : Version)
    → downstream_ga_version tag ≡ some version
    → is_gt (compare_version version no_version) ≡ true
unfolding downstream_ga_version compare_version
downstream_ga_version-greater tag version = greater (find_submatch tag)
  where
    greater :
        (parts : Option (Text × Text × Text))
        → atoi_each parts ≡ some version
        → is_gt (compare_version version no_version) ≡ true
    greater none h = absurd (cc)
    greater (some (a, b, c)) h =
        gt-compare_then version.major (negsuc 0)
          (compare_then version.minor (negsuc 0)
            (compare_then version.patch (negsuc 0) Ordering.eq))
          (atoi-pos a version.major (version_of-major (atoi a) (atoi b) (atoi c) version h))

-- What is picked among the tags of a repository: nothing when none of them is a version, else one whose
-- version is not less than another's.
abbrev pub Picked : (repository : Text) → List Text → Option Text → Type 0
Picked repository tags none = All (λ tag. downstream_ga_version tag ≡ none) tags
Picked repository tags (some bundle) =
    (latest : Latest) × (bundle ≡ repository ++ (58 ∷ latest.0))
    × Any (Names latest) tags
    × Bounds latest.1 tags

Bounds-none :
    (tags : List Text) → Bounds no_version tags → All (λ tag. downstream_ga_version tag ≡ none) tags
Bounds-none [] bounds = tt
Bounds-none (tag ∷ tags) (here, bounds) = (
  elim (Option-cases (downstream_ga_version tag)) [
    | inl e ↦ e
    | inr (version, e) ↦
        absurd (ground (arith, here version e, downstream_ga_version-greater tag version e))
  ],
  Bounds-none tags bounds,
)

-- No tag of a version is empty.
empty-Names : (version : Version) (tags : List Text) → Any (Names ([], version)) tags → ⊥
unfolding downstream_ga_version find_submatch
empty-Names version [] any = elim any [ ]
empty-Names version (tag ∷ tags) (inr any) = empty-Names version tags any
empty-Names version (tag ∷ tags) (inl (same, at)) =
    let no : none ≡ some version = ap downstream_ga_version same ∙ at in absurd (cc)

Names-tag_in :
    (repository : Text) (latest : Latest) (tags : List Text)
    → Any (Names latest) tags
    → tag_in repository latest ≡ some (repository ++ (58 ∷ latest.0))
Names-tag_in repository (c ∷ name, version) tags any = refl
Names-tag_in repository ([], version) tags any = absurd (empty-Names version tags any)

-- `findLatestGABundle` picks, of the tags that are listed, one that is a version `vX.Y.Z` and the greatest
-- of these, and fails exactly when there is none.
pub latest_ga_bundle-Picked :
    (repository : Text) (tags : List Text)
    → Picked repository tags (latest_ga_bundle repository tags)
unfolding latest_ga_bundle
latest_ga_bundle-Picked repository tags =
    let latest = take_tags tags ([], no_version) in
    let bounds = take_tags-Bounds tags ([], no_version) in
    elim (take_tags-Names tags ([], no_version)) [
      | inl same ↦
          subst (λ l. Picked repository tags (tag_in repository l)) (sym same)
            (Bounds-none tags (subst (λ l. Bounds l.1 tags) same bounds))
      | inr any ↦
          subst (Picked repository tags) (sym (Names-tag_in repository latest tags any))
            (latest, refl, any, bounds)
    ]
