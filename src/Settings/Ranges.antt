-- ===== src/Settings/Ranges.antt =====
-- global.js, main.js: the periods that charts can show.
use rocketmq.Shared.{
  ℕ, Bool, true, false, Option, none, some, List, [], ◌∷◌, ◌++◌, ◌==◌, Text, codes, text_eq, Dict,
  lookup, insert, if◌then◌else◌,
}
use rocketmq.Requests.Query.{◌>>=◌}
use rocketmq.Prefs.Cookie.{shown_text}
use rocketmq.Prefs.Store.{Browser, get_pref, store_pref}

-- A period: the value of its option, and its name.
abbrev pub Period : Type 0
Period = Text × Text

-- `default_ranges`
unfoldable pub default_ranges : List (ℕ × Period)
default_ranges =
    (60, (codes "60|5", codes "Last minute"))
    ∷ (600, (codes "600|5", codes "Last ten minutes"))
    ∷ (3600, (codes "3600|60", codes "Last hour"))
    ∷ (28800, (codes "28800|600", codes "Last eight hours"))
    ∷ (86400, (codes "86400|1800", codes "Last day"))
    ∷ []

abbrev pub last_minute : Period
last_minute = (codes "60|5", codes "Last minute")

-- `default_ranges[srp_range]`, where there is one
unfoldable pub find_range : ℕ → List (ℕ × Period) → Option Period
find_range n [] = none
find_range n ((m, period) ∷ ranges) = if n == m then some period else find_range n ranges

-- `CHART_RANGES`
pub record ChartRanges : Type 0 where
  pub global : List Period
  pub basic : List Period

-- One round of the loop over the retention policies of a type.
unfoldable pub pushed : ℕ → Option Period → List Period → Bool → List Period × Bool
pushed n none periods added = (periods, added)
pushed n (some period) periods added = (periods ++ period ∷ [], if n == 60 then true else added)

-- The loop: the periods, and `last_minute_added`.
unfoldable pub push_ranges : List ℕ → List Period → Bool → List Period × Bool
unfolding pushed
push_ranges [] periods added = (periods, added)
push_ranges (n ∷ policies) periods added =
    let (more, found) = pushed n (find_range n default_ranges) periods added in
    push_ranges policies more found

-- The periods of a type, of which the server may say nothing.
unfoldable pub setup_range_type : Option (List ℕ) → List Period → List Period
unfolding push_ranges
setup_range_type none periods = periods
setup_range_type (some policies) periods =
    let (pushed, added) = push_ranges policies periods false in
    if added then pushed else last_minute ∷ pushed

-- `setup_chart_ranges(srp)`, on `CHART_RANGES`
unfoldable pub setup_chart_ranges : Dict (List ℕ) → ChartRanges → ChartRanges
setup_chart_ranges srp ranges = record {
  global = setup_range_type (lookup (codes "global") srp) ranges.global;
  basic = setup_range_type (lookup (codes "basic") srp) ranges.basic;
}

-- The loop of `setup_chart_ranges` over `ALL_CHART_RANGES`.
unfoldable pub all_ranges : List (ℕ × Period) → Dict Text → Dict Text
all_ranges [] dict = dict
all_ranges ((n, (value, name)) ∷ ranges) dict = all_ranges ranges (insert value name dict)

-- `get_chart_range_type(arg)`, but for its warning
unfoldable pub get_chart_range_type : Text → Text
get_chart_range_type arg =
    if text_eq arg (codes "lengths-over")
    then codes "global"
    else if text_eq arg (codes "msg-rates-over")
    then codes "global"
    else codes "basic"

-- `CHART_RANGES[range_type]`, for the two types
unfoldable pub periods_of : Text → ChartRanges → List Period
periods_of range_type ranges =
    if text_eq range_type (codes "global") then ranges.global else ranges.basic

-- The loop of `ensure_queues_chart_range`: whether the range is valid, and `fixup_range`.
unfoldable pub check_range : Option Text → List Period → Option Text → Bool × Option Text
check_range range [] fixup = (false, fixup)
check_range range ((value, name) ∷ periods) fixup =
    let rest = check_range range periods (some value) in
    elim range [ none ↦ rest | some r ↦ if text_eq r value then (true, fixup) else rest ]

-- `ensure_queues_chart_range()`
unfoldable pub ensure_queues_chart_range : ChartRanges → Browser → Option Browser
unfolding check_range
ensure_queues_chart_range ranges b = get_pref (codes "chart-range") none b >>= λ range.
    let (valid, fixup) =
      check_range range (periods_of (get_chart_range_type (codes "queues")) ranges) none in
    if valid then some b else store_pref (codes "chart-range") (shown_text fixup) b
