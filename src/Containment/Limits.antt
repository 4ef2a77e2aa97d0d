-- ===== src/Containment/Limits.antt =====
-- src/sddgov/production_containment.py: `CgroupLimits.__post_init__`.
use Prim.Native.Char.{Char, code}
use agentic_sdd_governance.Base.{
  ℕ, ◌+◌, ◌*◌, String, Bool, true, false, not, ◌&&◌, ◌||◌, Option, none, some, eqb, ltb,
  if◌then◌else◌,
}
use agentic_sdd_governance.Python.Value.{ℤ, pos, negsuc}
use agentic_sdd_governance.Containment.Violation.{Outcome, done, violation}

pub record Limits : Type 0 where
  pub pids_max : ℤ
  pub memory_max : ℤ
  pub cpu_max : String

-- `text.partition(" ")`: the text before the first space, and the one after it; `none` where there
-- is no space.
unfoldable pub partition : String → String × Option String
partition String.[] = ("", none)
partition (String.◌∷◌ c text) =
    let (before, after) = partition text in
    if eqb (code c) b' ' then ("", some text) else (String.◌∷◌ c before, after)

module _ (decimal : Char → Option ℕ) where
  -- `text.isdecimal()`, where `decimal` gives the value of a decimal digit.
  unfoldable pub all_decimal : String → Bool
  all_decimal String.[] = true
  all_decimal (String.◌∷◌ c text) =
      elim (decimal c) [ none ↦ false | some digit ↦ true ] && all_decimal text

  unfoldable pub is_decimal : String → Bool
  unfolding all_decimal
  is_decimal String.[] = false
  is_decimal (String.◌∷◌ c text) = all_decimal (String.◌∷◌ c text)

  -- `int(text)` of a text of decimal digits
  unfoldable pub number_of : ℕ → String → ℕ
  number_of total String.[] = total
  number_of total (String.◌∷◌ c text) =
      number_of (total * 10 + elim (decimal c) [ none ↦ 0 | some digit ↦ digit ]) text

  abbrev is_positive : ℤ → Bool
  is_positive (pos n) = ltb 0 n
  is_positive (negsuc n) = false

  unfoldable pub check_quota : String → Option String → Limits → Outcome Limits
  unfolding is_decimal number_of
  check_quota quota none limits = violation "cgroup_limits_invalid"
  check_quota quota (some period) limits =
      if not (is_decimal quota) || not (is_decimal period)
      then violation "cgroup_limits_invalid"
      else if ltb (number_of 0 quota) 1 || ltb (number_of 0 period) 1
      then violation "cgroup_limits_invalid"
      else done limits

  -- `CgroupLimits(…)`
  unfoldable pub make_limits : Limits → Outcome Limits
  unfolding check_quota partition
  make_limits limits =
      if not (is_positive limits.pids_max) || not (is_positive limits.memory_max)
      then violation "cgroup_limits_invalid"
      else check_quota (partition limits.cpu_max).0 (partition limits.cpu_max).1 limits
