-- ===== src/Argocd/Requests.antt =====
-- pkg/argocd/client.go: doJSON, which sends a request to the ArgoCD API, and sends it again. What the
-- network, the credentials and the context do at an attempt is an argument.
pub mod Retries
use telekube.Base.{
  ℕ, zero, suc, ◌+◌, String, Bool, List, [], ◌∷◌, ◌==◌, string_keyed, ltb, leb, ◌&&◌, if◌then◌else◌,
  Error, message, errorf, wrapped, Result, ok, err,
}
use telekube.Argocd.Services.{SyncOpts}

abbrev pub default_max_retries : ℕ
default_max_retries = 3

pub record Response : Type 0 where
  pub status_code : ℕ
  pub body : String

-- One attempt: whether the context ends in the pause before it, the credentials, and the answer.
pub record Attempt : Type 0 where
  pub cancelled : Bool
  pub auth : Result (Unit {0})
  pub answer : Result Response

-- The bodies that are sent.
pub data Payload : Type 0 where
  no_payload : Payload
  sync_payload : SyncOpts → Payload
  rollback_payload : ℕ → Payload
  disable_payload enable_payload : Payload

pub record Request : Type 0 where
  pub method : String
  pub path : String
  pub payload : Payload

-- `out` from a body that is not empty; an empty one leaves it as it was.
abbrev pub decoded : {A : Type 0} → A → (String → Result A) → String → Result A
decoded zero_value unmarshal body =
    if body == ""
    then ok zero_value
    else elim (unmarshal body) [ err e ↦ err (wrapped "decoding response: %w" e) | ok a ↦ ok a ]

module _ {A : Type 0} (attempts : ℕ → Attempt) (read : String → Result A) where
  -- The result of an answer below 500.
  abbrev pub settled : Response → Result A
  settled r =
      if leb 400 r.status_code
      then err (errorf "argocd client error %d: %s" (r.body ∷ []))
      else read r.body

  abbrev pub sent_one : Result A × ℕ → Result A × ℕ
  sent_one (r, n) = (r, n + 1)

  -- The loop with `remaining` attempts left, and the number of requests that it sends.
  unfoldable pub retry_from : ℕ → ℕ → Error → Result A × ℕ
  retry_from zero attempt last =
      (err (wrapped "argocd request failed after %d attempts: %w" last), 0)
  retry_from (suc n) attempt last =
      let retry : Error → Result A × ℕ = λ e. sent_one (retry_from n (attempt + 1) e) in
      let now = attempts attempt in
      if ltb 0 attempt && now.cancelled
      then (err (message "context canceled"), 0)
      else elim now.auth [
        | err e ↦ (err (wrapped "applying auth: %w" e), 0)
        | ok done ↦ elim now.answer [
          | err e ↦ retry (wrapped "executing request: %w" e)
          | ok r ↦
              if leb 500 r.status_code
              then retry (errorf "argocd server error %d: %s" (r.body ∷ []))
              else (settled r, 1)
        ]
      ]

  -- Without an attempt the last error is nil.
  unfoldable pub do_json : ℕ → Result A × ℕ
  unfolding retry_from
  do_json max_retries = retry_from max_retries 0 (message "%!w(<nil>)")
