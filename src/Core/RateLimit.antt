-- ===== src/Core/RateLimit.antt =====
-- src/core/rate_limit.py: `RateLimiter` and `RateLimitMiddleware`. Times are readings of the monotonic
-- clock, arguments in one unit with the window. The dictionary of hits is a `defaultdict`.
pub mod Window
pub mod Middleware
pub mod Parse
mod Tests
use kryvaracode.Common.{
  ℕ, ◌+◌, ◌-◌, String, Bool, true, false, ◌||◌, Option, none, some, List, [], ◌∷◌, ◌++◌, leb, ltb,
  ◌==◌, if◌then◌else◌, length,
}
use kryvaracode.Common.Dict.{Dict, lookup, insert}

pub record RateLimiter : Type 0 where
  pub limit : ℕ
  pub window : ℕ
  pub hits : Dict (List ℕ)

-- `__init__`
unfoldable pub new_limiter : ℕ → ℕ → RateLimiter
new_limiter limit window = record { limit = limit; window = window; hits = [] }

-- `while hits and now - hits[0] > window: hits.popleft()`
unfoldable pub prune : ℕ → ℕ → List ℕ → List ℕ
prune window now [] = []
prune window now (hit ∷ hits) =
    let rest = prune window now hits in if ltb window (now - hit) then rest else hit ∷ hits

abbrev pub hits_of : RateLimiter → String → List ℕ
hits_of r key = elim (lookup key r.hits) [ none ↦ [] | some hits ↦ hits ]

unfoldable pub allow : String → ℕ → RateLimiter → RateLimiter × Bool
unfolding prune
allow key now r =
    let hits = prune r.window now (hits_of r key) in
    if leb r.limit (length hits)
    then (record r { hits = insert key hits r.hits }, false)
    else (record r { hits = insert key (hits ++ now ∷ []) r.hits }, true)

-- What the middleware reads of a request.
pub record Request : Type 0 where
  pub method : String
  pub path : String
  pub client_host : Option String

-- The answer of the next handler, or the 429 with its `Retry-After`.
pub data Response : Type 0 where
  forwarded : Response
  too_many : ℕ → Response

abbrev pub is_exempt : Request → Bool
is_exempt request =
    (request.method == "OPTIONS")
    || ((request.path == "/health") || (request.path == "/api/v1/metrics"))

-- An empty host does not occur: the server gives none or an address.
abbrev pub client_ip : Request → String
client_ip request = elim request.client_host [ none ↦ "unknown" | some host ↦ host ]

unfoldable pub dispatch : ℕ → Request → Option RateLimiter → Option RateLimiter × Response
dispatch now request limiter = if is_exempt request then (limiter, forwarded) else elim limiter [
  | none ↦ (none, forwarded)
  | some r ↦
      let (r', allowed) = allow (client_ip request) now r in
      if allowed then (some r', forwarded) else (some r', too_many r.window)
]
