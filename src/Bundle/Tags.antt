-- ===== src/Bundle/Tags.antt =====
-- The tags of a repository of bundles: `downstreamGAVersion`, `compareVersion` and the loop of
-- `findLatestGABundle`. The regular expression is read as a `v` and three numbers between dots.
use Prim.Native.Nat.{Ordering}
use medik8s_system_tests.Base.{
  ℕ, ◌+◌, ◌-◌, ◌*◌, ◌^◌, Bool, true, false, ◌&&◌, List, [], ◌∷◌, ◌++◌, Option, none, some, ltb, leb,
  if◌then◌else◌, ◌==◌, nat_eq,
}
use medik8s_system_tests.Base.Int.{ℤ, pos, negsuc}
use medik8s_system_tests.Go.Strings.{Text, text_eq, split}

-- `[3]int`
pub record Version : Type 0 where
  pub major : ℤ
  pub minor : ℤ
  pub patch : ℤ

unfoldable pub are_digits : Text → Bool
are_digits [] = true
are_digits (c ∷ text) = (leb 48 c && leb c 57) && are_digits text

-- `[0-9]+`
abbrev pub is_number : Text → Bool
is_number [] = false
is_number (c ∷ text) = are_digits (c ∷ text)

abbrev pub numbers : List Text → Option (Text × Text × Text)
numbers (a ∷ b ∷ c ∷ []) =
    if is_number a && (is_number b && is_number c) then some (a, b, c) else none
numbers _ = none

abbrev pub behind_v : Text → Option (Text × Text × Text)
behind_v [] = none
behind_v (c ∷ text) = if c == 118 then numbers (split 46 text) else none

-- `downstreamGATag.FindStringSubmatch`
unfoldable pub find_submatch : Text → Option (Text × Text × Text)
unfolding are_digits split
find_submatch = behind_v

unfoldable pub decimal : ℕ → Text → ℕ
decimal value [] = value
decimal value (c ∷ text) = decimal (10 * value + (c - 48)) text

-- `strconv.Atoi` of digits.
unfoldable pub atoi : Text → Option ℤ
unfolding decimal
atoi text = if ltb (decimal 0 text) (2 ^ 63) then some (pos (decimal 0 text)) else none

abbrev pub version_of : (major minor patch : Option ℤ) → Option Version
version_of (some a) (some b) (some c) = some (record { major = a; minor = b; patch = c })
version_of _ _ _ = none

abbrev pub atoi_each : Option (Text × Text × Text) → Option Version
atoi_each none = none
atoi_each (some (a, b, c)) = version_of (atoi a) (atoi b) (atoi c)

-- `downstreamGAVersion`
unfoldable pub downstream_ga_version : Text → Option Version
unfolding find_submatch atoi
downstream_ga_version tag = atoi_each (find_submatch tag)

abbrev pub ltz : ℤ → ℤ → Bool
ltz (pos m) (pos n) = ltb m n
ltz (pos m) (negsuc n) = false
ltz (negsuc m) (pos n) = true
ltz (negsuc m) (negsuc n) = ltb n m

abbrev pub compare_then : (left right : ℤ) → Ordering → Ordering
compare_then left right next =
    if ltz left right then Ordering.lt else if ltz right left then Ordering.gt else next

-- `compareVersion`; -1, 0 and 1 are `lt`, `eq` and `gt`.
unfoldable pub compare_version : Version → Version → Ordering
compare_version left right =
    compare_then left.major right.major
      (compare_then left.minor right.minor (compare_then left.patch right.patch Ordering.eq))

abbrev pub is_gt : Ordering → Bool
is_gt Ordering.gt = true
is_gt _ = false

-- `latestTag` and `latestVersion`
abbrev pub Latest : Type 0
Latest = Text × Version

abbrev pub take_tag : Text → Option Version → Latest → Latest
take_tag tag none latest = latest
take_tag tag (some version) (latest_tag, latest_version) =
    if is_gt (compare_version version latest_version)
    then (tag, version)
    else (latest_tag, latest_version)

unfoldable pub take_tags : List Text → Latest → Latest
unfolding downstream_ga_version compare_version
take_tags [] latest = latest
take_tags (tag ∷ tags) latest = take_tags tags (take_tag tag (downstream_ga_version tag) latest)

abbrev pub no_version : Version
no_version = record { major = negsuc 0; minor = negsuc 0; patch = negsuc 0 }

abbrev pub tag_in : (repository : Text) → Latest → Option Text
tag_in repository ([], version) = none
tag_in repository (c ∷ tag, version) = some (repository ++ (58 ∷ (c ∷ tag)))

-- `findLatestGABundle`, of the tags that `skopeo` lists.
unfoldable pub latest_ga_bundle : (repository : Text) → List Text → Option Text
unfolding take_tags
latest_ga_bundle repository tags = tag_in repository (take_tags tags ([], no_version))
