-- ===== src/Tests/Loads.antt =====
-- A load of a few requests.
use vomero_sandbox.Common.{◌≡◌, ◌↔◌, ℕ, List, [], ◌∷◌, ℤ, pos, refl, true, text_eq}
use vomero_sandbox.Server.Handling.{do_post, Payload}
use vomero_sandbox.Client.{fire_one, reply_of, percentile, sort_times}
use vomero_sandbox.Client.Agreeing.{IsGood, counted_ok}
use vomero_sandbox.Tests.Requests.{asked, clerk, desk}

abbrev latencies : List ℤ
latencies = pos 30 ∷ pos 10 ∷ pos 20 ∷ pos 40 ∷ []

median : percentile (sort_times latencies) 50 100 ≡ pos 30
unfolding percentile sort_times
median = refl

counted_ok_example :
    (code : ℕ) × (p : Payload) × ((do_post asked clerk desk).1.answers ≡ (code, p) ∷ desk.answers)
    × (((fire_one (reply_of true code p)).0 ≡ true) ↔ ((true ≡ true) × IsGood asked clerk desk p))
unfolding text_eq do_post vomero_sandbox.Pool.State.◌>>=◌
counted_ok_example = counted_ok asked clerk (λ code p w. refl) refl true desk refl
