-- ===== src/Registry.antt =====
-- global.js: the registries of post-processors and of listeners of the application. Their functions are
-- the templates': of each run the model keeps that it happened.
use rocketmq.Shared.{
  Bool, true, false, not, ◌&&◌, ◌||◌, Option, none, some, List, [], ◌∷◌, ◌++◌, Text, codes, Dict,
  text_eq, is_some, is_space, lookup, insert, remove, keys, if◌then◌else◌,
}
pub mod Listeners

-- `registerPostProcessor`: its result is false where the name is taken, else undefined.
unfoldable pub register_post_processor {ℓ} : {F : Type ℓ} → Text → F → Dict F → Option Bool × Dict F
register_post_processor name post_processor processors =
    if is_some (lookup name processors)
    then (some false, processors)
    else (none, insert name post_processor processors)

unfoldable pub is_postprocessor_registered {ℓ} : {F : Type ℓ} → Text → Dict F → Bool
is_postprocessor_registered name processors = is_some (lookup name processors)

unfoldable pub unregister_post_processor {ℓ} : {F : Type ℓ} → Text → Dict F → Dict F
unregister_post_processor name processors = remove name processors

-- `clear_postprocessors`
unfoldable pub clear_postprocessors {ℓ} : {F : Type ℓ} → Dict F → Dict F
clear_postprocessors processors = []

-- A listener: the methods that it has, each one with whether it throws.
pub record Listener : Type 0 where
  pub on_refresh : Option Bool
  pub on_vhost_change : Option Bool
  pub on_tab_activated : Option Bool

-- What is given as a listener: `null` or `undefined`, an object, something else.
pub data Given : Type 0 where
  null_value : Given
  object : Listener → Given
  other_value : Given

-- `name.trim() === ''`
unfoldable pub is_blank : Text → Bool
is_blank [] = true
is_blank (c ∷ s) = is_space c && is_blank s

-- `registerApplicationListener`, where `none` is a name that is null or undefined
unfoldable pub register_application_listener :
    Option Text → Given → Dict Listener → Bool × Dict Listener
unfolding is_blank
register_application_listener none given listeners = (false, listeners)
register_application_listener (some name) null_value listeners = (false, listeners)
register_application_listener (some name) other_value listeners = (false, listeners)
register_application_listener (some name) (object listener) listeners =
    if is_blank name || is_some (lookup name listeners)
    then (false, listeners)
    else (true, insert name listener listeners)

unfoldable pub unregister_application_listener : Text → Dict Listener → Dict Listener
unregister_application_listener name listeners = remove name listeners

-- One call of a method in a `try`: of the name, with whether it threw.
pub record Outcome : Type 0 where
  pub name : Text
  pub failed : Bool

abbrev outcome_of : Text → Option Bool → List Outcome → List Outcome
outcome_of name none rest = rest
outcome_of name (some throws) rest = record { name = name; failed = throws } ∷ rest

-- `notifyOnRefresh`, `notifyOnVhostChange` and `notifyActivatedTab`, which differ in the method.
unfoldable pub notify : (Listener → Option Bool) → Dict Listener → List Outcome
notify method [] = []
notify method ((name, listener) ∷ listeners) =
    outcome_of name (method listener) (notify method listeners)

abbrev pub notify_on_refresh : Dict Listener → List Outcome
notify_on_refresh = notify λ l. l.on_refresh

abbrev pub notify_on_vhost_change : Dict Listener → List Outcome
notify_on_vhost_change = notify λ l. l.on_vhost_change

abbrev pub notify_activated_tab : Dict Listener → List Outcome
notify_activated_tab = notify λ l. l.on_tab_activated

-- `invokeRegisteredPostProcessors`, on post-processors that leave the registry as it is: each one with
-- whether it throws.
unfoldable pub invoke_registered_post_processors : Dict Bool → List Outcome
invoke_registered_post_processors [] = []
invoke_registered_post_processors ((name, throws) ∷ processors) =
    record { name = name; failed = throws } ∷ invoke_registered_post_processors processors
