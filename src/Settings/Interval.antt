-- ===== src/Settings/Interval.antt =====
-- main.js: how often a page is updated.
use rocketmq.Shared.{
  ℕ, ◌≡◌, refl, true, Option, none, some, List, [], ◌∷◌, ◌+◌, ◌⊎◌, inl, inr, ℤ, pos, negsuc, Text,
  codes, text_eq, text_eq_refl, starts_with, Dict, lookup, insert, lookup-insert, if◌then◌else◌,
  parse_int,
}
use rocketmq.Requests.Query.{◌>>=◌}
use rocketmq.Prefs.Store.{Browser, get_pref, store_pref, default_pref, storage_key}
use rocketmq.Console.{Console, set_timer_interval}

-- A period for `setInterval`, which takes a negative one for 0.
unfoldable pub period_of : Option ℤ → Option ℕ
period_of none = none
period_of (some (pos n)) = some n
period_of (some (negsuc n)) = some 0

-- The interval that `update_interval` takes from the preference.
unfoldable pub read_interval : Option Text → Option ℕ
unfolding period_of
read_interval none = some 5000
read_interval (some interval) = if text_eq interval [] then none else period_of (parse_int interval)

-- The first option with this value: the loop of `update_interval`.
unfoldable pub find_option : Text → List Text → Option ℕ
find_option value [] = none
find_option value (o ∷ options) =
    let later = find_option value options in
    if text_eq o value then some 0 else elim later [ none ↦ none | some n ↦ some (n + 1) ]

-- `update_interval()`, with the options of the selection: the page, and the option that is selected,
-- `none` where the selection stays as it is
unfoldable pub update_interval : List Text → Browser → Console → Option (Console × Option ℕ)
unfolding read_interval find_option
update_interval options b c = get_pref (codes "interval") none b >>= λ interval. some (
  set_timer_interval (read_interval interval) c,
  elim interval [ none ↦ none | some value ↦ find_option value options ],
)

-- The interval of a selected option. `setInterval` takes NaN for 0.
unfoldable pub selected_interval : Text → Option ℕ
unfolding period_of
selected_interval interval =
    if text_eq interval []
    then none
    else elim (parse_int interval) [ none ↦ some 0 | some n ↦ period_of (some n) ]

-- The handler of `#update-every` in `setup_constant_events`.
unfoldable pub on_interval_change : Text → Browser → Console → Option (Browser × Console)
unfolding selected_interval
on_interval_change interval b c = store_pref (codes "interval") interval b >>= λ d.
    some (d, set_timer_interval (selected_interval interval) c)

default_pref-interval : (b : Browser) → default_pref b.columns (codes "interval") ≡ none
unfolding default_pref starts_with text_eq
default_pref-interval b = refl

read_selected :
    (interval : Text)
    → (text_eq interval [] ≡ true) ⊎ ((n : ℤ) × (parse_int interval ≡ some n))
    → read_interval (some interval) ≡ selected_interval interval
unfolding read_interval selected_interval
read_selected interval (inl empty) = rw (empty) refl
read_selected interval (inr (n, number)) = rw (number) refl

-- With local storage, an option for the interval that is empty or reads as a number, once selected, is
-- taken again by every page that loads later: with the same interval, and with the first option of its
-- value selected.
pub update_interval-on_interval_change :
    (interval : Text) (options : List Text) (b : Browser) (items : Dict Text) (c later : Console)
    → b.storage ≡ some items
    → (text_eq interval [] ≡ true) ⊎ ((n : ℤ) × (parse_int interval ≡ some n))
    → (d : Browser) × (on_interval_change interval b c
        ≡ some (d, set_timer_interval (selected_interval interval) c))
      × (update_interval options d later
          ≡ some
              (set_timer_interval (selected_interval interval) later, find_option interval options))
unfolding on_interval_change update_interval store_pref get_pref
update_interval-on_interval_change interval options b items c later e h =
    let key = storage_key (codes "interval") in
    let d = record b { storage = some (insert key interval items) } in
    let looked : lookup key (insert key interval items) ≡ some interval =
      rw (lookup-insert key key interval items, text_eq_refl key) refl in
    (d, rw (e) refl, rw (default_pref-interval d, looked, read_selected interval h) refl)
