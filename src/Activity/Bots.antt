-- ===== src/Activity/Bots.antt =====
-- Which actors the bot filter holds back.
use warmrunners.Base.{
  String, ◌≡◌, refl, true, not, ◌&&◌, ◌||◌, some, List, [], ◌∷◌, ◌++◌, arith, ◌==◌, contains,
  is_some,
}
use warmrunners.Activity.{has_suffix, on_denylist, bot_reason}

on_denylist-eq-contains :
    (login : String) (denylist : List String) → on_denylist login denylist ≡ contains denylist login
unfolding on_denylist contains
on_denylist-eq-contains login [] = refl
on_denylist-eq-contains login (d ∷ denylist) =
    ground (arith, on_denylist-eq-contains login denylist)

-- A run counts as a bot's exactly where its actor has a login and one of four things holds: the actor or
-- the triggering actor is of type Bot, the login ends in [bot], or it is on the denylist.
pub bot_reason-is_some :
    (actor trigger login : String) (denylist : List String)
    → is_some (bot_reason actor trigger login denylist) ≡ (
        not (login == "")
        && (actor == "Bot"
            || trigger == "Bot"
            || has_suffix login "[bot]"
            || contains denylist login))
unfolding bot_reason
bot_reason-is_some actor trigger login denylist =
    ground (arith, on_denylist-eq-contains login denylist)

on_denylist-append :
    (login : String) (denylist more : List String)
    → on_denylist login denylist ≡ true
    → on_denylist login (denylist ++ more) ≡ true
unfolding on_denylist
on_denylist-append login [] more h = cc
on_denylist-append login (d ∷ denylist) more h =
    ground (arith, on_denylist-append login denylist more)

-- Entries that a user appends to a denylist never re-admit a run, nor change the reason it was held for.
pub bot_reason-append :
    (actor trigger login reason : String) (denylist more : List String)
    → bot_reason actor trigger login denylist ≡ some reason
    → bot_reason actor trigger login (denylist ++ more) ≡ some reason
unfolding bot_reason
bot_reason-append actor trigger login reason denylist more h =
    ground (arith, on_denylist-append login denylist more)
