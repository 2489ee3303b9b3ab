-- ===== src/Settings/Periods.antt =====
-- main.js: the range that charts of queues show is one of the periods.
use rocketmq.Shared.{
  ℕ, ◌≡◌, refl, sym, ap, ◌∙◌, arith, Bool, true, false, Bool-cases, inl, inr, Option, none, some,
  List, [], ◌∷◌, ◌++◌, Text, codes, text_eq, text_eq_iff, text_eq_refl, starts_with, includes, map,
  Dict, lookup, insert, lookup-insert, if◌then◌else◌,
}
use rocketmq.Prefs.Cookie.{shown_text}
use rocketmq.Prefs.Store.{Browser, get_pref, store_pref, default_pref, or_else, storage_key}
use rocketmq.Settings.Ranges.{
  Period, last_minute, default_ranges, find_range, ChartRanges, pushed, push_ranges,
  setup_range_type, setup_chart_ranges, get_chart_range_type, periods_of, check_range,
  ensure_queues_chart_range,
}

-- The values of periods.
abbrev pub values : List Period → List Text
values periods = map (λ p. p.0) periods

abbrev HasPeriod : List Period → Type 0
HasPeriod periods = (p : Period) × (rest : List Period) × (periods ≡ p ∷ rest)

append-HasPeriod : (periods : List Period) (p : Period) → HasPeriod (periods ++ p ∷ [])
append-HasPeriod [] p = (p, [], refl)
append-HasPeriod (q ∷ periods) p = (q, periods ++ p ∷ [], refl)

pushed-HasPeriod :
    (n : ℕ) (o : Option Period) (periods : List Period) (added : Bool)
    → (added ≡ true → HasPeriod periods)
    → (pushed n o periods added).1 ≡ true
    → HasPeriod (pushed n o periods added).0
unfolding pushed
pushed-HasPeriod n none periods added h done = h done
pushed-HasPeriod n (some period) periods added h done = append-HasPeriod periods period

-- Where the last minute was added, there is a period.
push_ranges-HasPeriod :
    (policies : List ℕ) (periods : List Period) (added : Bool)
    → (added ≡ true → HasPeriod periods)
    → (push_ranges policies periods added).1 ≡ true
    → HasPeriod (push_ranges policies periods added).0
unfolding push_ranges
push_ranges-HasPeriod [] periods added h done = h done
push_ranges-HasPeriod (n ∷ policies) periods added h done =
    push_ranges-HasPeriod policies (pushed n (find_range n default_ranges) periods added).0
      (pushed n (find_range n default_ranges) periods added).1
      (pushed-HasPeriod n (find_range n default_ranges) periods added h) done

setup_range_type-HasPeriod :
    (policies : List ℕ) (periods : List Period)
    → HasPeriod (setup_range_type (some policies) periods)
unfolding setup_range_type
setup_range_type-HasPeriod policies periods =
    elim (Bool-cases (push_ranges policies periods false).1) [
      | inl added ↦
          rw (added)
            (push_ranges-HasPeriod policies periods false (λ h. absurd (ground arith)) added)
      | inr missing ↦ rw (missing) (last_minute, (push_ranges policies periods false).0, refl)
    ]

-- The range that is left: the valid one, or the last one.
module _ (r : Text) where
  left_range : Bool × Option Text → Option Text
  left_range (valid, fixup) = if valid then some r else fixup

  check_range-some :
      (periods : List Period) (f : Text)
      → (v : Text) × (left_range (check_range (some r) periods (some f)) ≡ some v)
        × (includes v (f ∷ values periods) ≡ true)
  unfolding check_range left_range includes
  check_range-some [] f = (f, refl, rw (text_eq_refl f) refl)
  check_range-some ((value, name) ∷ periods) f = elim (Bool-cases (text_eq r value)) [
    | inl same ↦
        let back = (text_eq_iff value r).1 (sym ((text_eq_iff r value).0 same)) in
        rw (same) (r, refl, rw (back) (ground arith))
    | inr other ↦
        let (v, left, in_list) = check_range-some periods value in
        rw (other) (v, left, rw (in_list) (ground arith))
  ]

  check_range-HasPeriod :
      (periods : List Period)
      → HasPeriod periods
      → (v : Text) × (left_range (check_range (some r) periods none) ≡ some v)
        × (includes v (values periods) ≡ true)
  unfolding check_range left_range includes
  check_range-HasPeriod periods (p, rest, e) = rw (e) (elim (Bool-cases (text_eq r p.0)) [
    | inl same ↦
        let back = (text_eq_iff p.0 r).1 (sym ((text_eq_iff r p.0).0 same)) in
        rw (same) (r, refl, rw (back) refl)
    | inr other ↦
        let (v, left, in_list) = check_range-some rest p.0 in rw (other) (v, left, in_list)
  ])

default_pref-chart_range :
    (b : Browser) → default_pref b.columns (codes "chart-range") ≡ some (codes "60|5")
unfolding default_pref starts_with text_eq
default_pref-chart_range b = refl

-- The range of a browser with local storage: what it keeps, or the last minute.
abbrev kept_range : Option Text → Text
kept_range none = codes "60|5"
kept_range (some v) = v

or_else-kept_range : (o : Option Text) → or_else o (some (codes "60|5")) ≡ some (kept_range o)
or_else-kept_range none = refl
or_else-kept_range (some v) = refl

get_pref-chart_range :
    (b : Browser) (items : Dict Text)
    → b.storage ≡ some items
    → get_pref (codes "chart-range") none b
      ≡ some (some (kept_range (lookup (storage_key (codes "chart-range")) items)))
unfolding get_pref
get_pref-chart_range b items e =
    rw
      (
        e,
        default_pref-chart_range b,
        or_else-kept_range (lookup (storage_key (codes "chart-range")) items),
      )
      refl

-- The preference is left as it is, or is the last range.
fixed_range :
    (range : Text) (checked : Bool × Option Text) (v : Text) (b : Browser) (items : Dict Text)
    → b.storage ≡ some items
    → get_pref (codes "chart-range") none b ≡ some (some range)
    → left_range range checked ≡ some v
    → (c : Browser) × ((if checked.0
          then some b
          else store_pref (codes "chart-range") (shown_text checked.1) b)
        ≡ some c)
      × (get_pref (codes "chart-range") none c ≡ some (some v))
unfolding left_range store_pref
fixed_range range (true, fixup) v b items e read left = (b, refl, read ∙ ap (λ o. some o) left)
fixed_range range (false, fixup) v b items e read left =
    let key = storage_key (codes "chart-range") in
    let stored = insert key v items in
    let c = record b { storage = some stored } in
    let looked : lookup key stored ≡ some v =
      rw (lookup-insert key key v items, text_eq_refl key) refl in
    (
      c,
      rw (left, e) refl,
      get_pref-chart_range c stored refl ∙ ap (λ o. some (some (kept_range o))) looked,
    )

basic_periods :
    (ranges : ChartRanges)
    → periods_of (get_chart_range_type (codes "queues")) ranges ≡ ranges.basic
unfolding periods_of get_chart_range_type text_eq
basic_periods ranges = refl

-- With local storage, and with basic retention policies from the server, the range that charts of queues
-- show is, after `ensure_queues_chart_range`, one of the periods that `setup_chart_ranges` found.
pub ensure_queues_chart_range-setup_chart_ranges :
    (srp : Dict (List ℕ)) (policies : List ℕ) (before : ChartRanges) (b : Browser)
    (items : Dict Text)
    → lookup (codes "basic") srp ≡ some policies
    → b.storage ≡ some items
    → (c : Browser) × (range : Text) × (ensure_queues_chart_range (setup_chart_ranges srp before) b
        ≡ some c)
      × (get_pref (codes "chart-range") none c ≡ some (some range))
      × (includes range (values (setup_chart_ranges srp before).basic) ≡ true)
unfolding ensure_queues_chart_range setup_chart_ranges
ensure_queues_chart_range-setup_chart_ranges srp policies before b items given e =
    let range = kept_range (lookup (storage_key (codes "chart-range")) items) in
    let periods = setup_range_type (some policies) before.basic in
    let read = get_pref-chart_range b items e in
    let (v, left, in_list) =
      check_range-HasPeriod range periods (setup_range_type-HasPeriod policies before.basic) in
    let (c, done, found) =
      fixed_range range (check_range (some range) periods none) v b items e read left in
    (c, v, rw (read, basic_periods, given) done, found, rw (given) in_list)
