-- ===== src/CoreClient.antt =====
-- CoreClient.request and readJsonBounded (apps/mcp/src/core-client.ts). What `fetch` and the
-- reading of its body give is a parameter: a value of Fetch; a redirect is a rejection of `fetch`. JSON.parse of the received bytes is
-- part of it: `none` where it throws.
pub mod Retry
use neuromem.Prelude.{
  ℕ, suc, ◌+◌, String, Bool, true, false, not, ◌&&◌, ◌||◌, Option, none, some, List, [], ◌∷◌, leb,
  ltb, ◌==◌, if◌then◌else◌,
}
use neuromem.Json.{Json, null, boolean, object, empty, field}

pub record CoreError : Type 0 where
  pub code : String
  pub retryable : Bool
  pub http_status : Option ℕ

-- The body's chunks by their sizes; `failed` is a read that throws, by whether it was aborted.
pub data Body : Type 0 where
  missing : Body
  failed : Bool → Body
  chunks : List ℕ → Option Json → Body

-- `cancel_error` is what `body.cancel()` rejects with, by whether the request was aborted.
pub record HttpResponse : Type 0 where
  pub status : ℕ
  pub is_json : Bool
  pub body : Body
  pub cancel_error : Option Bool

pub data Fetch : Type 0 where
  rejected : Bool → Fetch
  response : HttpResponse → Fetch

pub data Reply : Type 0 where
  replied : Json → Reply
  refused : CoreError → Reply

abbrev core_error : String → Bool → Option ℕ → Reply
core_error code retryable status =
    refused (record { code = code; retryable = retryable; http_status = status })

-- The loop over the chunks: whether the running size stays within the maximum.
unfoldable pub fits : ℕ → ℕ → List ℕ → Bool
fits size maximum [] = true
fits size maximum (c ∷ cs) =
    let rest = fits (size + c) maximum cs in if ltb maximum (size + c) then false else rest

parsed : ℕ → Option Json → Reply
parsed status none = core_error "invalid_json_response" false (some status)
parsed status (some v) = replied v

-- `readJsonBounded`, with the classification of what it throws.
read_json_bounded : ℕ → ℕ → Body → Reply
unfolding fits parsed
read_json_bounded maximum status missing = core_error "invalid_json_response" false (some status)
read_json_bounded maximum status (failed aborted) =
    if aborted
    then core_error "timeout" true none
    else core_error "invalid_json_response" false (some status)
read_json_bounded maximum status (chunks sizes value) =
    if fits 0 maximum sizes
    then parsed status value
    else core_error "response_too_large" false (some status)

-- `response.ok`
unfoldable pub is_ok : ℕ → Bool
is_ok status = leb 200 status && ltb status 300

unfoldable pub retryable_status : ℕ → Bool
retryable_status status = status == 408 || status == 425 || status == 429 || leb 500 status

-- The outer `catch`, for what is no CoreRequestError.
unfoldable pub transport_error : Bool → Reply
transport_error aborted = core_error (if aborted then "timeout" else "network_error") true none

-- `await response.body?.cancel()` and what follows it.
unfoldable pub after_cancel : Body → Option Bool → Reply → Reply
unfolding transport_error
after_cancel missing e next = next
after_cancel (failed aborted) none next = next
after_cancel (failed aborted) (some a) next = transport_error a
after_cancel (chunks sizes value) none next = next
after_cancel (chunks sizes value) (some a) next = transport_error a

-- What `request` returns or throws; `http_code` is the text `http_` with the status.
unfoldable pub request : (ℕ → String) → Bool → ℕ → Fetch → Reply
unfolding read_json_bounded is_ok retryable_status transport_error after_cancel
request http_code expect_json maximum (rejected aborted) = transport_error aborted
request http_code expect_json maximum (response r) =
    if not (is_ok r.status)
    then after_cancel r.body r.cancel_error
        (core_error (http_code r.status) (retryable_status r.status) (some r.status))
    else if r.status == 204
    then replied null
    else if not expect_json
    then after_cancel r.body r.cancel_error (replied (object (field "ok" (boolean true) empty)))
    else if not r.is_json
    then after_cancel r.body r.cancel_error
        (core_error "invalid_json_response" false (some r.status))
    else read_json_bounded maximum r.status r.body
