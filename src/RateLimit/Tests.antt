-- ===== src/RateLimit/Tests.antt =====
-- Three requests under a limit of two.
use mern_chat_app.Common.{◌≡◌, ◌≤◌, refl, arith, true, none, [], ◌∷◌}
use mern_chat_app.RateLimit.{passed, passed_le, rate_limit, increment}

two_pass : passed 2 60 ((0, true) ∷ (1, true) ∷ (2, true) ∷ []) none ≡ 2
unfolding passed rate_limit increment
two_pass = refl

passed_le_example : passed 2 60 ((0, true) ∷ (1, true) ∷ (2, true) ∷ []) none ≤ 2
passed_le_example = passed_le 2 60 0 ((1, true) ∷ (2, true) ∷ []) (omega arith, (omega arith, tt))
