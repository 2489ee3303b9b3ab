-- ===== src/Settings/Remembered.antt =====
-- main.js: what the storage says of the sections of a page.
use rocketmq.Shared.{
  ◌≡◌, refl, ap, ◌∙◌, Bool, true, false, not, Bool-cases, inl, inr, Option, none, some, List, [],
  ◌∷◌, ◌++◌, Text, codes, text_eq, map, Dict, lookup, insert, remove, lookup-insert, lookup-remove,
  All, starts_with, arith, if◌then◌else◌, text_eq_refl,
}
use rocketmq.Prefs.Store.{
  Browser, get_pref, store_pref, clear_pref, section_pref, storage_key, default_pref, or_else,
}
use rocketmq.Settings.Sections.{
  Section, is_shown, setup_section, setup_visibility, write_toggle, toggled, written,
}

-- The key of a heading in the local storage.
abbrev pub key_of : Text → Text → Text
key_of template heading = storage_key (section_pref template heading)

-- A section that keeps a preference and has one of the two classes.
abbrev pub IsPlain : Section → Type 0
IsPlain s = (s.disable_pref ≡ false) × (s.is_hidden ≡ not s.is_section)

-- Headings that differ from one another.
abbrev pub IsApart : List Text → Type 0
IsApart [] = Unit
IsApart (h ∷ hs) = All (λ g. text_eq h g ≡ false) hs × IsApart hs

-- A section with the classes and the style of a shown or of a hidden one.
unfoldable pub shown_section : Section → Bool → Section
shown_section s shown = record s { visible = shown; invisible = not shown; block = shown }

-- Whether the storage says that a section is shown.
abbrev pub stored_shown : Text → Dict Text → Section → Bool
stored_shown template items s = is_shown (lookup (key_of template s.heading) items) s.is_section

-- A section that shows what the storage says.
abbrev pub IsKept : Text → Dict Text → Section → Type 0
IsKept template items s = IsPlain s × (shown_section s (stored_shown template items s) ≡ s)

pub text_eq-append : (s x y : Text) → text_eq (s ++ x) (s ++ y) ≡ text_eq x y
unfolding text_eq
text_eq-append [] x y = refl
text_eq-append (c ∷ s) x y = rw (text_eq-append s x y) (ground arith)

text_eq-key_of :
    (template h g : Text) → text_eq (key_of template h) (key_of template g) ≡ text_eq h g
text_eq-key_of template h g =
    text_eq-append (codes "rabbitmq.visible|") (template ++ (codes "|" ++ h))
      (template ++ (codes "|" ++ g))
    ∙ (text_eq-append template (codes "|" ++ h) (codes "|" ++ g) ∙ text_eq-append (codes "|") h g)

default_pref-section_pref :
    (b : Browser) (template h : Text) → default_pref b.columns (section_pref template h) ≡ none
unfolding default_pref starts_with text_eq
default_pref-section_pref b template h = refl

or_else-none : (v : Option Text) → or_else v none ≡ v
or_else-none none = refl
or_else-none (some v) = refl

get_pref-section_pref :
    (template h : Text) (b : Browser) {items : Dict Text}
    → b.storage ≡ some items
    → get_pref (section_pref template h) none b ≡ some (lookup (key_of template h) items)
unfolding get_pref
get_pref-section_pref template h b {items} e =
    rw (e, default_pref-section_pref b template h, or_else-none (lookup (key_of template h) items))
      refl

pick_lem :
    (s : Section) (x : Bool)
    → (if x then shown_section s true else shown_section s false) ≡ shown_section s x
pick_lem s true = refl
pick_lem s false = refl

-- A section as it is written is set up to show what the storage says.
setup_section-written :
    (template : Text) (s : Section) (b : Browser) (items : Dict Text)
    → b.storage ≡ some items
    → s.disable_pref ≡ false
    → setup_section template (written s) b ≡ some (shown_section s (stored_shown template items s))
unfolding setup_section shown_section
setup_section-written template s b items e enabled =
    rw (enabled, get_pref-section_pref template s.heading b e)
      (ap (λ r. some r)
        (pick_lem (record s { disable_pref = false }) (stored_shown template items s)))

-- A page that shows what the storage says is set up again as it is.
pub setup_visibility-kept :
    (template : Text) (page : List Section) (b : Browser) (items : Dict Text)
    → b.storage ≡ some items
    → All (IsKept template items) page
    → setup_visibility template (map written page) b ≡ some page
unfolding setup_visibility
setup_visibility-kept template [] b items e h = refl
setup_visibility-kept template (s ∷ page) b items e ((plain, kept), h) =
    rw
      (
        setup_section-written template s b items e plain.0,
        kept,
        setup_visibility-kept template page b items e h,
      )
      refl

-- A page as it is written is set up to show what the storage says.
pub set_up :
    (template : Text) (sections : List Section) (b : Browser) (items : Dict Text)
    → b.storage ≡ some items
    → All IsPlain sections
    → (page : List Section) × (setup_visibility template (map written sections) b ≡ some page)
      × All (IsKept template items) page
      × (map (λ s. s.heading) page ≡ map (λ s. s.heading) sections)
unfolding setup_visibility shown_section
set_up template [] b items e h = ([], refl, tt, refl)
set_up template (s ∷ sections) b items e (plain, h) =
    let (page, done, kept, same) = set_up template sections b items e h in
    (
      shown_section s (stored_shown template items s) ∷ page,
      rw (setup_section-written template s b items e plain.0, done) refl,
      ((plain, refl), kept),
      ap (λ hs. s.heading ∷ hs) same,
    )

-- What `toggle_visibility` leaves of the storage.
pub record Toggled (template : Text) (s : Section) (b : Browser) (items : Dict Text) : Type 0 where
  pub end : Browser
  pub stored : Dict Text
  pub done : write_toggle template s b ≡ some end
  pub storage : end.storage ≡ some stored
  pub shown : stored_shown template stored s ≡ not s.visible
  pub others :
      (h : Text)
      → text_eq s.heading h ≡ false
      → lookup (key_of template h) stored ≡ lookup (key_of template h) items

module _ (template : Text) (s : Section) (b : Browser) (items : Dict Text)
    (e : b.storage ≡ some items) where
  stored_pref :
      (v : Text)
      → write_toggle template s b ≡ store_pref (section_pref template s.heading) v b
      → text_eq v (codes "t") ≡ not s.visible
      → Toggled template s b items
  unfolding store_pref is_shown
  stored_pref v asked shown = record {
    end = record b { storage = some (insert (key_of template s.heading) v items) };
    stored = insert (key_of template s.heading) v items;
    done = asked ∙ rw (e) refl;
    storage = refl;
    shown =
        rw
          (
            lookup-insert (key_of template s.heading) (key_of template s.heading) v items,
            text_eq_refl (key_of template s.heading),
          )
          shown;
    others = λ h apart.
        rw
          (
            lookup-insert (key_of template s.heading) (key_of template h) v items,
            text_eq-key_of template s.heading h,
            apart,
          )
          refl;
  }

  cleared_pref :
      write_toggle template s b ≡ clear_pref (section_pref template s.heading) b
      → s.is_section ≡ not s.visible
      → Toggled template s b items
  unfolding clear_pref is_shown
  cleared_pref asked shown = record {
    end = record b { storage = some (remove (key_of template s.heading) items) };
    stored = remove (key_of template s.heading) items;
    done = asked ∙ rw (e) refl;
    storage = refl;
    shown =
        rw
          (
            lookup-remove (key_of template s.heading) (key_of template s.heading) items,
            text_eq_refl (key_of template s.heading),
          )
          shown;
    others = λ h apart.
        rw
          (
            lookup-remove (key_of template s.heading) (key_of template h) items,
            text_eq-key_of template s.heading h,
            apart,
          )
          refl;
  }

  pub toggle_lem : IsPlain s → Toggled template s b items
  unfolding write_toggle text_eq
  toggle_lem (enabled, hidden) = elim (Bool-cases s.visible) [
    | inl v ↦ elim (Bool-cases s.is_section) [
      | inl c ↦ stored_pref (codes "f") (rw (v, c) refl) (rw (v) refl)
      | inr c ↦ cleared_pref (rw (v, c) refl) (rw (v, c) refl)
    ]
    | inr v ↦ elim (Bool-cases s.is_section) [
      | inl c ↦ cleared_pref (rw (v, hidden, c) refl) (rw (v, c) refl)
      | inr c ↦ stored_pref (codes "t") (rw (v, hidden, c) refl) (rw (v) refl)
    ]
  ]

pub toggled_lem : (s : Section) → toggled s ≡ shown_section s (not s.visible)
unfolding toggled shown_section
toggled_lem s = elim (Bool-cases s.visible) [ inl v ↦ rw (v) refl | inr v ↦ rw (v) refl ]
