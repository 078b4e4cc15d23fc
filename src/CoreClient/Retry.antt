-- ===== src/CoreClient/Retry.antt =====
-- Which failures of a Core request may be retried.
use neuromem.Prelude.{
  ℕ, ◌+◌, ◌≤◌, String, Bool, true, ◌≡◌, ◌⊎◌, Option, none, some, List, [], ◌∷◌, arith,
}
use neuromem.CoreClient.{
  CoreError, failed, Fetch, missing, chunks, Body, rejected, response, refused, fits, request,
}

-- A transport failure, a body that could not be cancelled, a read cut off by the timeout, or a status
-- that asks to come back.
abbrev pub Transient : Fetch → CoreError → Type 0
Transient (rejected aborted) e = e.http_status ≡ none
Transient (response r) e =
    ((e.http_status ≡ none) × ((r.body ≡ failed true) ⊎ ((a : Bool) × (r.cancel_error ≡ some a))))
    ⊎ ((e.http_status ≡ some r.status)
        × ((r.status ≡ 408) ⊎ (r.status ≡ 425) ⊎ (r.status ≡ 429) ⊎ (500 ≤ r.status)))

response_retryable :
    (http_code : ℕ → String) (expect_json : Bool) (maximum status : ℕ) (is_json : Bool)
    (body : Body) (cancel : Option Bool) (e : CoreError)
    → request http_code expect_json maximum (
        response
          (record { status = status; is_json = is_json; body = body; cancel_error = cancel }))
      ≡ refused e
    → e.retryable ≡ true
    → Transient
        (response
          (record { status = status; is_json = is_json; body = body; cancel_error = cancel }))
        e
unfolding request
response_retryable http_code expect_json maximum status is_json missing cancel e h r = ground arith
response_retryable http_code expect_json maximum status is_json (failed a) none e h r = ground arith
response_retryable http_code expect_json maximum status is_json (failed a) (some b) e h r =
    ground arith
response_retryable http_code expect_json maximum status is_json (chunks s v) none e h r =
    ground arith
response_retryable http_code expect_json maximum status is_json (chunks s v) (some b) e h r =
    ground arith

-- An error that is marked retryable comes from a `fetch` that rejects (a failure of the network, the
-- timeout, a redirect), from a response whose body is cut off by the timeout or cannot be cancelled,
-- or from a response with status 408, 425, 429 or at least 500; only the last has a status.
pub request-retryable :
    (http_code : ℕ → String) (expect_json : Bool) (maximum : ℕ) (f : Fetch) (e : CoreError)
    → request http_code expect_json maximum f ≡ refused e
    → e.retryable ≡ true
    → Transient f e
unfolding request
request-retryable http_code expect_json maximum (rejected aborted) e h r = ground arith
request-retryable http_code expect_json maximum (response x) e h r =
    response_retryable http_code expect_json maximum x.status x.is_json x.body x.cancel_error e h r

abbrev total : List ℕ → ℕ
total [] = 0
total (n ∷ ns) = n + total ns

fits-le :
    (size maximum : ℕ) (sizes : List ℕ)
    → size ≤ maximum
    → fits size maximum sizes ≡ true
    → size + total sizes ≤ maximum
unfolding fits
fits-le size maximum [] b h = omega arith
fits-le size maximum (c ∷ cs) b h = ground (arith, fits-le (size + c) maximum cs)
