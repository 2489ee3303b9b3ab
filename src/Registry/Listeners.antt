-- ===== src/Registry/Listeners.antt =====
-- global.js: what the registries promise to the templates.
use rocketmq.Shared.{
  Bool, true, false, Option, none, some, [], ◌∷◌, ◌≡◌, refl, arith, Text, Dict, text_eq_refl,
  is_some, filter, map, lookup, insert, remove, keys, Option-cases, if_elim, ap, inl, inr, ◌||◌,
}
use rocketmq.Registry.{
  Listener, Given, null_value, object, other_value, is_blank, register_application_listener,
  unregister_application_listener, notify,
}

remove-lacking : {V : Type 0} (name : Text) (d : Dict V) → lookup name d ≡ none → remove name d ≡ d
unfolding lookup remove
remove-lacking name [] e = refl
remove-lacking name ((k, v) ∷ d) e = ground (arith, remove-lacking name d)

remove-insert :
    {V : Type 0} (name : Text) (v : V) (d : Dict V)
    → lookup name d ≡ none
    → remove name (insert name v d) ≡ d
unfolding lookup remove insert
remove-insert name v [] e = rw (text_eq_refl name) refl
remove-insert name v ((k, w) ∷ d) e = ground (arith, text_eq_refl name, remove-insert name v d)

-- Where a name is free, registering under it, whatever is given, and removing the name leaves the
-- registry as it was.
pub unregister-register :
    (name : Text) (given : Given) (listeners : Dict Listener)
    → lookup name listeners ≡ none
    → unregister_application_listener name
        (register_application_listener (some name) given listeners).1
      ≡ listeners
unfolding unregister_application_listener register_application_listener
unregister-register name null_value listeners free = remove-lacking name listeners free
unregister-register name other_value listeners free = remove-lacking name listeners free
unregister-register name (object l) listeners free =
    let P : Bool × Dict Listener → Type 0 = λ result. remove name result.1 ≡ listeners in
    if_elim P (is_blank name || is_some (lookup name listeners)) (false, listeners)
      (true, insert name l listeners) (remove-lacking name listeners free)
      (remove-insert name l listeners free)

-- A notification calls the method of every listener that has it, once and in the order of the
-- registry, also after a listener that throws.
pub notify-names :
    (method : Listener → Option Bool) (listeners : Dict Listener)
    → map (λ o. o.name) (notify method listeners)
      ≡ keys (filter (λ entry. is_some (method entry.1)) listeners)
unfolding notify keys
notify-names method [] = refl
notify-names method ((name, l) ∷ listeners) = elim (Option-cases (method l)) [
  | inl e ↦ rw (e) (notify-names method listeners)
  | inr (throws, e) ↦ rw (e) (ap (λ names. name ∷ names) (notify-names method listeners))
]
