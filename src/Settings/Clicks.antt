-- ===== src/Settings/Clicks.antt =====
-- main.js: sections are shown again as the user left them.
use rocketmq.Shared.{
  ℕ, zero, suc, ◌≡◌, refl, sym, ap, ◌∙◌, subst, false, Option, some, List, [], ◌∷◌, Text, text_eq,
  text_eq_iff, map, Dict, lookup, All, arith,
}
use rocketmq.Prefs.Store.{Browser}
use rocketmq.Settings.Sections.{
  Section, setup_visibility, toggled, toggle_visibility, click_at, run_toggles, written,
}
use rocketmq.Settings.Remembered.{
  key_of, IsPlain, IsApart, shown_section, IsKept, set_up, setup_visibility-kept, Toggled,
  toggle_lem, toggled_lem,
}

-- What a click leaves of the storage.
record Written (template : Text) (page : List Section) (items : Dict Text)
    (r : Option (List Section × Browser)) : Type 0 where
  after : List Section
  end : Browser
  stored : Dict Text
  done : r ≡ some (after, end)
  storage : end.storage ≡ some stored
  kept : All (IsKept template stored) after
  same : map (λ s. s.heading) after ≡ map (λ s. s.heading) page
  others :
      (h : Text)
      → All (λ s. text_eq h s.heading ≡ false) page
      → lookup (key_of template h) stored ≡ lookup (key_of template h) items

text_eq_sym : (s t : Text) → text_eq s t ≡ text_eq t s
text_eq_sym s t = ground (arith, text_eq_iff s t, text_eq_iff t s)

-- Sections with other headings keep what they show.
others_lem :
    (template h : Text) (items stored : Dict Text) (page : List Section)
    → ((g : Text)
        → text_eq h g ≡ false
        → lookup (key_of template g) stored ≡ lookup (key_of template g) items)
    → All (λ g. text_eq h g ≡ false) (map (λ s. s.heading) page)
    → All (IsKept template items) page
    → All (IsKept template stored) page
others_lem template h items stored [] same apart kept = tt
others_lem template h items stored (s ∷ page) same (a, apart) ((plain, k), kept) =
    ((plain, rw (same s.heading a) k), others_lem template h items stored page same apart kept)

toggled-IsKept :
    (template : Text) (s : Section) {b : Browser} {items : Dict Text}
    → IsPlain s
    → (t : Toggled template s b items) → IsKept template t.stored (toggled s)
unfolding shown_section
toggled-IsKept template s plain t = rw (toggled_lem s) (plain, rw (t.shown) refl)

toggled_heading : (s : Section) → (toggled s).heading ≡ s.heading
unfolding shown_section
toggled_heading s = rw (toggled_lem s) refl

click_first :
    (template : Text) (s : Section) (page : List Section) (b : Browser) (items : Dict Text)
    → b.storage ≡ some items
    → IsApart (map (λ r. r.heading) (s ∷ page))
    → All (IsKept template items) (s ∷ page)
    → Written template (s ∷ page) items (click_at template zero (s ∷ page) b)
unfolding click_at toggle_visibility
click_first template s page b items e (apart, _) ((plain, k), kept) =
    let t = toggle_lem template s b items e plain in
    record {
      after = toggled s ∷ page;
      end = t.end;
      stored = t.stored;
      done = rw (t.done) refl;
      storage = t.storage;
      kept = (
        toggled-IsKept template s plain t,
        others_lem template s.heading items t.stored page t.others apart kept,
      );
      same = ap (λ h. h ∷ map (λ r. r.heading) page) (toggled_heading s);
      others = λ h far. t.others h (text_eq_sym s.heading h ∙ far.0);
    }

map-far :
    (h : Text) (page : List Section)
    → All (λ g. text_eq h g ≡ false) (map (λ s. s.heading) page)
    → All (λ s. text_eq h s.heading ≡ false) page
map-far h [] far = tt
map-far h (s ∷ page) (p, far) = (p, map-far h page far)

-- A click on a section leaves a page that shows what the storage says.
click_lem :
    (template : Text) (n : ℕ) (page : List Section) (b : Browser) (items : Dict Text)
    → b.storage ≡ some items
    → IsApart (map (λ r. r.heading) page)
    → All (IsKept template items) page
    → Written template page items (click_at template n page b)
unfolding click_at
click_lem template n [] b items e apart kept = record {
  after = [];
  end = b;
  stored = items;
  done = refl;
  storage = e;
  kept = tt;
  same = refl;
  others = λ h far. refl;
}
click_lem template zero (s ∷ page) b items e apart kept =
    click_first template s page b items e apart kept
click_lem template (suc n) (s ∷ page) b items e (apart, later) ((plain, k), kept) =
    let w = click_lem template n page b items e later kept in
    record {
      after = s ∷ w.after;
      end = w.end;
      stored = w.stored;
      done = rw (w.done) refl;
      storage = w.storage;
      kept = ((plain, rw (w.others s.heading (map-far s.heading page apart)) k), w.kept);
      same = ap (λ hs. s.heading ∷ hs) w.same;
      others = λ h far. w.others h far.1;
    }

clicks_lem :
    (template : Text) (clicks : List ℕ) (page : List Section) (b : Browser) (items : Dict Text)
    → b.storage ≡ some items
    → IsApart (map (λ r. r.heading) page)
    → All (IsKept template items) page
    → (after : List Section) × (end : Browser) × (run_toggles template clicks page b
        ≡ some (after, end))
      × (setup_visibility template (map written after) end ≡ some after)
unfolding run_toggles
clicks_lem template [] page b items e apart kept =
    (page, b, refl, setup_visibility-kept template page b items e kept)
clicks_lem template (n ∷ clicks) page b items e apart kept =
    let w = click_lem template n page b items e apart kept in
    let (after, end, done, shown) =
      clicks_lem template clicks w.after w.end w.stored w.storage (subst IsApart (sym w.same) apart)
        w.kept in
    (after, end, rw (w.done) done, shown)

-- With local storage, a page whose sections have different headings, keep a preference and have one of
-- the classes `section` and `section-hidden` is set up, takes any clicks on its headings, and is set up
-- again, from its template, with every section shown or hidden as the clicks left it.
pub setup_visibility-run_toggles :
    (template : Text) (clicks : List ℕ) (sections : List Section) (b : Browser) (items : Dict Text)
    → b.storage ≡ some items
    → IsApart (map (λ s. s.heading) sections)
    → All IsPlain sections
    → (page : List Section) × (after : List Section) × (end : Browser) × (setup_visibility template
          (map written sections)
          b
        ≡ some page)
      × (run_toggles template clicks page b ≡ some (after, end))
      × (setup_visibility template (map written after) end ≡ some after)
setup_visibility-run_toggles template clicks sections b items e apart plain =
    let (page, done, kept, same) = set_up template sections b items e plain in
    let (after, end, clicked, shown) =
      clicks_lem template clicks page b items e (subst IsApart (sym same) apart) kept in
    (page, after, end, done, clicked, shown)
