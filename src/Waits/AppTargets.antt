-- ===== src/Waits/AppTargets.antt =====
-- app_targets.py: which package a requested app may show as.
use androidctl.Prelude.{
  Text, text, text_eq, Bool, ◌&&◌, Option, none, some, List, [], ◌∷◌, if◌then◌else◌, any,
}

pub data MatchType : Type 0 where
  exact alias : MatchType

pub record AppTargetMatch : Type 0 where
  pub requested_package_name : Text
  pub resolved_package_name : Text
  pub match_type : MatchType

abbrev settings : Text
settings = text "com.android.settings"

abbrev intelligence : Text
intelligence = text "com.android.settings.intelligence"

abbrev google_intelligence : Text
google_intelligence = text "com.google.android.settings.intelligence"

abbrev pub app_target_aliases : List (Text × Text)
app_target_aliases =
    (settings, intelligence)
    ∷ (settings, google_intelligence)
    ∷ (intelligence, google_intelligence)
    ∷ (google_intelligence, intelligence)
    ∷ []

-- `(requested, actual) in APP_TARGET_ALIASES`
unfoldable pub is_alias : Text → Text → Bool
is_alias requested actual =
    any (λ p. text_eq requested p.0 && text_eq actual p.1) app_target_aliases

abbrev matched : Text → Text → MatchType → AppTargetMatch
matched requested actual how = record {
  requested_package_name = requested;
  resolved_package_name = actual;
  match_type = how;
}

unfoldable pub match_app_target : Text → Option Text → Option AppTargetMatch
unfolding is_alias
match_app_target requested none = none
match_app_target requested (some actual) =
    if text_eq actual requested
    then some (matched requested actual exact)
    else if is_alias requested actual
    then some (matched requested actual alias)
    else none
