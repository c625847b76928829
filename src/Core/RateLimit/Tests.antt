-- ===== src/Core/RateLimit/Tests.antt =====
-- Requests of two clients to a limiter of two requests in a window of 60, for rate_limit.py.
use kryvaracode.Common.{ℕ, ◌≤◌, ◌≡◌, refl, String, some, List, [], ◌∷◌, arith}
use kryvaracode.Common.Dict.{lookup, insert}
use kryvaracode.Core.RateLimit.{Request, new_limiter, allow, prune, dispatch}
use kryvaracode.Core.RateLimit.Window.{within}
use kryvaracode.Core.RateLimit.Middleware.{forwards, forwards-le_limit}

abbrev get_from : String → Request
get_from host = record { method = "GET"; path = "/api/v1/items"; client_host = some host }

abbrev requests : List (ℕ × Request)
requests =
    (1, get_from "10.0.0.1")
    ∷ (2, get_from "10.0.0.2")
    ∷ (3, get_from "10.0.0.1")
    ∷ (4, get_from "10.0.0.1")
    ∷ (62, get_from "10.0.0.1")
    ∷ []

forwarded_times : forwards "10.0.0.1" requests (some (new_limiter 2 60)) ≡ 1 ∷ 3 ∷ 62 ∷ []
unfolding forwards new_limiter allow prune dispatch lookup insert
forwarded_times = refl

forwards-le_limit_example : within 60 2 (forwards "10.0.0.1" requests (some (new_limiter 2 60))) ≤ 2
forwards-le_limit_example =
    forwards-le_limit 2 60 "10.0.0.1" requests 2
      (omega arith, (omega arith, (omega arith, (omega arith, (omega arith, tt)))))
