-- ===== src/Security/Tests.antt =====
-- A limiter of two requests in ten seconds.
use enterprise_multi_agent_o.Base.{◌≤◌, ◌≡◌, refl, List, [], ◌∷◌, string_eq, ltb, arith}
use enterprise_multi_agent_o.Base.Lists.{length, select}
use enterprise_multi_agent_o.Security.RateLimiter.{in_window, check_rate_limit}
use enterprise_multi_agent_o.Security.RateLimiter.Bound.{
  Check, InOrder, granted, serve, grants, granted-bounded, grants-iff_room,
}

abbrev checks : List Check
checks = (100, "ann") ∷ (200, "bob") ∷ (300, "ann") ∷ (400, "ann") ∷ []

checks-InOrder : InOrder 0 500 checks
checks-InOrder = (omega arith, (omega arith, (omega arith, (omega arith, omega arith))))

-- The third check of "ann" is refused.
granted-ann : granted 10000 2 1000 "ann" [] checks [] ≡ 100 ∷ 300 ∷ []
unfolding granted string_eq
granted-ann = refl

granted-bounded_example :
    length (select (in_window 500 1000) (granted 10000 2 1000 "ann" [] checks [])) ≤ 2
granted-bounded_example = granted-bounded 10000 2 1000 "ann" checks 500 checks-InOrder

grants-iff_room_example :
    grants (check_rate_limit 10000 500 "ann" 2 1000 (serve 10000 2 1000 checks [])).0
    ≡ ltb (length (select (in_window 500 1000) (granted 10000 2 1000 "ann" [] checks []))) 2
grants-iff_room_example = grants-iff_room 10000 2 1000 "ann" checks 500 checks-InOrder
