-- ===== src/Warnings.antt =====
-- main.js: `update_warnings`.
use rocketmq.Shared.{
  Bool, true, false, not, ◌&&◌, ◌||◌, Option, none, some, List, [], ◌∷◌, ◌++◌, Text, codes, text_eq,
  if◌then◌else◌,
}

-- What the function reads of a feature flag.
pub record FeatureFlag : Type 0 where
  pub state : Text
  pub stability : Text

-- The class `with-warnings` of the two elements, and the content of the third.
pub record Banner : Type 0 where
  pub main_warns : Bool
  pub rhs_warns : Bool
  pub warnings : Text

-- The loop over the flags: `needs_enabling`
unfoldable pub needs_enabling : List FeatureFlag → Bool
needs_enabling [] = false
needs_enabling (f ∷ flags) =
    (text_eq f.state (codes "disabled") && not (text_eq f.stability (codes "experimental")))
    || needs_enabling flags

unfoldable pub needs_deprecating : {A : Type 0} → List A → Bool
needs_deprecating [] = false
needs_deprecating (x ∷ features) = true

-- `l1`
unfoldable pub warnings_html : Bool → Bool → Text
warnings_html enabling deprecating =
    codes "<p class=\"warning\">"
    ++ ((if enabling
          then codes
              "<span>&#9888;</span> All stable feature flags must be enabled after completing an upgrade. <a href=\"https://www.rabbitmq.com/feature-flags.html\">[Learn more]</a>"
          else [])
        ++ ((if enabling && deprecating then codes "<br/>" else [])
            ++ ((if deprecating
                  then codes
                      "<span>&#9888;</span> Deprecated features are being used. <a href=\"https://www.rabbitmq.com/feature-flags.html\">[Learn more]</a>"
                  else [])
                ++ codes "</p>")))

-- What is parsed of a reply: a call that fails gives false, which has no length.
abbrev list_of : {A : Type 0} → Option (List A) → List A
list_of none = []
list_of (some xs) = xs

-- `update_warnings()`, with the replies to its two calls
unfoldable pub update_warnings :
    {Feature : Type 0} → Option (List FeatureFlag) → Option (List Feature) → Banner → Banner
unfolding needs_enabling needs_deprecating warnings_html
update_warnings feature_flags deprecated_features b =
    let enabling = needs_enabling (list_of feature_flags) in
    let deprecating = needs_deprecating (list_of deprecated_features) in
    if enabling || deprecating
    then record {
      main_warns = true;
      rhs_warns = true;
      warnings = warnings_html enabling deprecating;
    }
    else record b { main_warns = false; rhs_warns = false }
