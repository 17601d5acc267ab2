-- ===== src/Tools/Examples.antt =====
-- The permissions at the upsell and the fit agent.
use neutail.Base.{◌≡◌, refl, ◌≢◌, false, nat_eq, string_eq, pair_eq, ok}
use neutail.Base.Lists.{All}
use neutail.Tools.{can_call, normalize_agent, named, fit, upsell, name}
use neutail.Tools.Granted.{Answer, can_call-Answer, can_call-recorders, recorders}

can_call-Answer_example : Answer (name "upsell_agent") "product_get"
can_call-Answer_example = can_call-Answer (name "upsell_agent") "product_get"

names_fit : normalize_agent (name "fit_agent") ≡ ok fit
unfolding normalize_agent named
names_fit = refl

not_upsell : fit ≢ upsell
not_upsell e = cc

can_call-recorders_example : All (λ tool. can_call (name "fit_agent") tool ≡ ok false) recorders
can_call-recorders_example = can_call-recorders (name "fit_agent") fit names_fit not_upsell
