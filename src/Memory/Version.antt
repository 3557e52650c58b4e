-- ===== src/Memory/Version.antt =====
-- `version_compatibility` of src/recallops/store.py. Scores are in hundredths. The pattern's `\d`
-- is the interpreter's table of decimal digits, a parameter. The pattern needs no backtracking: a
-- number is followed by what is no digit.
use recallops.Common.{
  List, Option, String, ℕ, Bool, if◌then◌else◌, none, some, ◌∷◌, [], leb, list_beq, true, ◌==◌,
  codes, false, nat_eq, ◌&&◌, ◌||◌, all_codes, string_eq, not,
}
use recallops.Domain.{CompatibilityPolicy, semver_patch, semver_minor, policy_eq}

-- The interpreter's tables of decimal digits and of white space.
pub record Unicode : Type 0 where
  pub decimal_digit : ℕ → Bool
  pub space : ℕ → Bool

module _ (u : Unicode) where
  -- the longest prefix of digits, and the rest
  span_digits : List ℕ → List ℕ × List ℕ
  span_digits [] = ([], [])
  span_digits (c ∷ cs) =
      let (ds, rest) = span_digits cs in if u.decimal_digit c then (c ∷ ds, rest) else ([], c ∷ cs)

  -- `0|[1-9]\d*`
  number : List ℕ → Option (List ℕ × List ℕ)
  unfolding span_digits
  number [] = none
  number (c ∷ cs) =
      if c == b'0'
      then some (c ∷ [], cs)
      else if leb b'1' c && leb c b'9'
      then (let (ds, rest) = span_digits cs in some (c ∷ ds, rest))
      else none

  -- `\.` and a number
  dot_number : List ℕ → Option (List ℕ × List ℕ)
  unfolding number
  dot_number [] = none
  dot_number (c ∷ cs) = if c == b'.' then number cs else none

  -- `[0-9A-Za-z.-]`
  abbrev is_suffix_char : ℕ → Bool
  is_suffix_char c =
      (leb b'0' c && leb c b'9')
      || (leb b'A' c && leb c b'Z')
      || (leb b'a' c && leb c b'z')
      || c == b'.'
      || c == b'-'

  -- `(?:[-+][0-9A-Za-z.-]+)?$`
  suffix : List ℕ → Bool
  suffix [] = true
  suffix (c ∷ []) = false
  suffix (c ∷ d ∷ cs) = (c == b'-' || c == b'+') && all_codes is_suffix_char (d ∷ cs)

  -- `(?:\.(?P<patch>…))?` and the suffix
  patch_suffix : List ℕ → Bool
  unfolding dot_number suffix
  patch_suffix [] = true
  patch_suffix (c ∷ cs) =
      if c == b'.'
      then elim (dot_number (c ∷ cs)) [ none ↦ false | some (patch, rest) ↦ suffix rest ]
      else suffix (c ∷ cs)

  -- `[vV]?`
  strip_v : List ℕ → List ℕ
  strip_v [] = []
  strip_v (c ∷ cs) = if c == b'v' || c == b'V' then cs else c ∷ cs

  minor_of : List ℕ → Option (List ℕ × List ℕ) → Option (List ℕ × List ℕ)
  unfolding patch_suffix
  minor_of major none = none
  minor_of major (some (minor, rest)) = if patch_suffix rest then some (major, minor) else none

  major_of : Option (List ℕ × List ℕ) → Option (List ℕ × List ℕ)
  unfolding minor_of
  major_of none = none
  major_of (some (major, rest)) = minor_of major (dot_number rest)

  -- `_SEMANTIC_VERSION.fullmatch`: the major and the minor group
  pub semantic_version : List ℕ → Option (List ℕ × List ℕ)
  unfolding major_of strip_v
  semantic_version cs = major_of (number (strip_v cs))

  -- The score of two versions that both match.
  score_groups : CompatibilityPolicy → Option (List ℕ × List ℕ) → Option (List ℕ × List ℕ) → ℕ
  score_groups policy (some (major, minor)) (some (major', minor')) =
      let same_major = list_beq major major' in
      let same_minor = same_major && list_beq minor minor' in
      if policy == semver_patch && same_minor
      then 100
      else if policy == semver_minor && same_major
      then 100
      else if not same_major
      then 0
      else if not same_minor
      then 35
      else 80
  score_groups policy _ _ = 20

  unfoldable pub version_compatibility : String → String → CompatibilityPolicy → ℕ
  unfolding score_groups semantic_version
  version_compatibility memory_version incident_version policy =
      if memory_version == incident_version
      then 100
      else score_groups policy (semantic_version (codes memory_version))
          (semantic_version (codes incident_version))
