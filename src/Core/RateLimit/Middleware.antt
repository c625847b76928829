-- ===== src/Core/RateLimit/Middleware.antt =====
-- rate_limit.py: what the middleware forwards over a run of requests.
use kryvaracode.Common.{
  ℕ, ◌≤◌, ◌≡◌, refl, ap, sym, subst, String, Bool, true, false, ◌&&◌, Option, none, some, List, [],
  ◌∷◌, arith, inl, inr, Bool-cases, not, ◌==◌, if◌then◌else◌,
}
use kryvaracode.Core.RateLimit.{
  RateLimiter, new_limiter, Request, Response, Response.forwarded, Response.too_many, allow,
  dispatch, is_exempt, client_ip,
}
use kryvaracode.Core.RateLimit.Window.{grants, IsTimed, within, grants-le_limit}

abbrev pub is_forwarded : Response → Bool
is_forwarded forwarded = true
is_forwarded (too_many _) = false

-- The times at which requests of a client that are not exempt are forwarded.
unfoldable pub forwards : String → List (ℕ × Request) → Option RateLimiter → List ℕ
forwards k [] limiter = []
forwards k ((now, request) ∷ requests) limiter =
    let rest = forwards k requests (dispatch now request limiter).0 in
    if not (is_exempt request)
      && ((client_ip request == k) && is_forwarded (dispatch now request limiter).1)
    then now ∷ rest
    else rest

-- The requests that reach the limiter, as its calls.
abbrev pub calls_of : List (ℕ × Request) → List (String × ℕ)
calls_of [] = []
calls_of ((now, request) ∷ requests) =
    let rest = calls_of requests in
    if is_exempt request then rest else (client_ip request, now) ∷ rest

forwards-eq-grants :
    (k : String) (requests : List (ℕ × Request)) (r : RateLimiter)
    → forwards k requests (some r) ≡ grants k (calls_of requests) r
unfolding forwards grants dispatch
forwards-eq-grants k [] r = refl
forwards-eq-grants k ((now, request) ∷ requests) r = elim (Bool-cases (is_exempt request)) [
  | inl exempt ↦ rw (exempt, forwards, dispatch) (forwards-eq-grants k requests r)
  | inr limited ↦
      let ih = forwards-eq-grants k requests (allow (client_ip request) now r).0 in
      let target = Bool-cases (client_ip request == k) in
      elim (Bool-cases (allow (client_ip request) now r).1) [
        | inl passed ↦
            rw (limited, passed)
              (elim target [ inl own ↦ rw own (ap (◌∷◌ now) ih) | inr other ↦ rw other ih ])
        | inr stopped ↦
            rw (limited, stopped) (elim target [ inl own ↦ rw own ih | inr other ↦ rw other ih ])
      ]
]

-- With limiting on, whatever requests of whatever clients come in, as long as the clock does not go back,
-- the middleware forwards at most the limit of one client's requests in any closed window of the limiter's
-- length, the exempt ones (preflights, health and metrics) not counted.
pub forwards-le_limit :
    (limit window : ℕ) (k : String) (requests : List (ℕ × Request)) (t : ℕ)
    → IsTimed 0 (calls_of requests)
    → within window t (forwards k requests (some (new_limiter limit window))) ≤ limit
forwards-le_limit limit window k requests t timed =
    subst (λ l. within window t l ≤ limit)
      (sym (forwards-eq-grants k requests (new_limiter limit window)))
      (grants-le_limit limit window k (calls_of requests) t timed)

-- What the middleware does with one request, and with limiting off.
dispatch_off : (now : ℕ) (request : Request) → dispatch now request none ≡ (none, forwarded)
unfolding dispatch
dispatch_off now request = ground arith
