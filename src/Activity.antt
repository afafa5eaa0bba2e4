-- ===== src/Activity.antt =====
-- Recent activity: internal/activity/activity.go.
pub mod Bots
pub mod Feed
use warmrunners.Base.{
  String, Bool, true, false, Option, none, some, List, [], ◌∷◌, if◌then◌else◌, ◌==◌,
}

-- `BuiltinDenylist`
unfoldable pub builtin_denylist : List String
builtin_denylist =
    "dependabot[bot]" ∷ "renovate[bot]" ∷ "github-actions[bot]" ∷ "mergify[bot]" ∷ "codecov[bot]"
    ∷ "copilot-pull-request-reviewer[bot]" ∷ "self-hosted-renovate[bot]" ∷ []

-- `strings.HasSuffix`
unfoldable pub has_suffix : String → String → Bool
has_suffix String.[] suffix = suffix == String.[]
has_suffix (String.◌∷◌ c s) suffix = if String.◌∷◌ c s == suffix then true else has_suffix s suffix

-- The loop over the denylist.
unfoldable pub on_denylist : String → List String → Bool
on_denylist login [] = false
on_denylist login (d ∷ denylist) = if d == login then true else on_denylist login denylist

-- `IsBotActor`: the reason, or `none` for a run that is not a bot's.
unfoldable pub bot_reason : String → String → String → List String → Option String
bot_reason actor_type triggering_actor_type actor_login denylist =
    if actor_login == ""
    then none
    else if actor_type == "Bot"
    then some "bot_type"
    else if triggering_actor_type == "Bot"
    then some "trigger_bot_type"
    else if has_suffix actor_login "[bot]"
    then some "bot_suffix"
    else if on_denylist actor_login denylist
    then some "denylist"
    else none
