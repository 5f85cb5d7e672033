-- ===== src/Argocd/Requests/Retries.antt =====
-- When doJSON of pkg/argocd/client.go gives an answer, and after how many requests.
use mathlib.Core.Path.{subst}
use telekube.Base.{
  ℕ, zero, suc, ◌+◌, ◌<◌, ◌≤◌, String, Bool, true, false, ◌≡◌, refl, ap, ◌∙◌, ltb, leb, ◌&&◌, Error,
  message, errorf, wrapped, [], ◌∷◌, Result, Result-cases, ok, err, inl, inr, arith,
}
use telekube.Argocd.Requests.{Response, Attempt, settled, sent_one, retry_from, do_json}

-- The attempt is made again: the request failed, or the server answered with 500 or more.
abbrev pub is_retried : Attempt → Bool
is_retried a = elim a.auth [
  | err e ↦ false
  | ok done ↦ elim a.answer [ err e ↦ true | ok r ↦ leb 500 r.status_code ]
]

module _ {A : Type 0} (attempts : ℕ → Attempt) (read : String → Result A) where
  again :
      (n attempt : ℕ) (last : Error)
      → (ltb 0 attempt && (attempts attempt).cancelled) ≡ false
      → is_retried (attempts attempt) ≡ true
      → (e : Error) × (retry_from attempts read (suc n) attempt last
          ≡ sent_one attempts read (retry_from attempts read n (attempt + 1) e))
  unfolding retry_from
  again n attempt last goes_on retried = elim (Result-cases (attempts attempt).auth) [
    | inr (x, no_auth) ↦ absurd (ground arith)
    | inl (done, has_auth) ↦ elim (Result-cases (attempts attempt).answer) [
      | inr (x, failed) ↦
          (wrapped "executing request: %w" x, rw (retry_from, goes_on, has_auth, failed) refl)
      | inl (r, answered) ↦
          let server_error : leb 500 r.status_code ≡ true = ground arith in
          (
            errorf "argocd server error %d: %s" (r.body ∷ []),
            rw (retry_from, goes_on, has_auth, answered, server_error) refl,
          )
    ]
  ]

  answers :
      (n attempt : ℕ) (last : Error) (r : Response)
      → (ltb 0 attempt && (attempts attempt).cancelled) ≡ false
      → (attempts attempt).auth ≡ ok tt
      → (attempts attempt).answer ≡ ok r
      → r.status_code < 500
      → retry_from attempts read (suc n) attempt last ≡ (settled attempts read r, 1)
  unfolding retry_from
  answers n attempt last r goes_on has_auth answered small =
      let no_error : leb 500 r.status_code ≡ false = ground arith in
      rw (retry_from, goes_on, has_auth, answered, no_error) refl

  goes_on :
      (i : ℕ)
      → (1 ≤ i → (attempts i).cancelled ≡ false)
      → (ltb 0 i && (attempts i).cancelled) ≡ false
  goes_on zero h = refl
  goes_on (suc i) h = ground (arith, h (omega arith))

  retry_from-answers :
      (k n attempt m : ℕ) (last : Error) (r : Response)
      → k < n
      → m ≡ attempt + k
      → ((i : ℕ) → attempt ≤ i → i < m → is_retried (attempts i) ≡ true)
      → ((i : ℕ) → 1 ≤ i → i ≤ m → (attempts i).cancelled ≡ false)
      → (attempts m).auth ≡ ok tt
      → (attempts m).answer ≡ ok r
      → r.status_code < 500
      → retry_from attempts read n attempt last ≡ (settled attempts read r, k + 1)
  retry_from-answers k zero attempt m last r few at retried uncancelled has_auth answered small =
      absurd (omega arith)
  retry_from-answers zero (suc n) attempt m last r few at retried uncancelled has_auth answered
        small =
      let is : m ≡ attempt = omega arith in
      subst (λ i. retry_from attempts read (suc n) i last ≡ (settled attempts read r, 1)) is
        (answers n m last r (goes_on m (λ one. uncancelled m one (omega arith))) has_auth answered
          small)
  retry_from-answers (suc k) (suc n) attempt m last r few at retried uncancelled has_auth answered
        small =
      let (e, step) =
        again n attempt last (goes_on attempt (λ one. uncancelled attempt one (omega arith)))
          (retried attempt (omega arith) (omega arith)) in
      step
      ∙ ap (sent_one attempts read) (
          retry_from-answers k n (attempt + 1) m e r (omega arith) (omega arith)
            (λ i le lt. retried i (omega arith) lt) uncancelled has_auth answered small)
      ∙ ap (λ sent. (settled attempts read r, sent)) (omega arith)

-- If the attempts before the number `k` are made again and the credentials, the context and the network hold
-- for that one, which is among the `max_retries`, a request whose answer is below 500 returns what this
-- answer says: its body as read, or an error from 400 on. It has been sent `k + 1` times, as often as there
-- were attempts, whatever its method is.
pub do_json-answers :
    {A : Type 0} (attempts : ℕ → Attempt) (read : String → Result A) (k max_retries : ℕ)
    (r : Response)
    → k < max_retries
    → ((i : ℕ) → i < k → is_retried (attempts i) ≡ true)
    → ((i : ℕ) → 1 ≤ i → i ≤ k → (attempts i).cancelled ≡ false)
    → (attempts k).auth ≡ ok tt
    → (attempts k).answer ≡ ok r
    → r.status_code < 500
    → do_json attempts read max_retries ≡ (settled attempts read r, k + 1)
unfolding do_json
do_json-answers attempts read k max_retries r few retried uncancelled has_auth answered small =
    retry_from-answers attempts read k max_retries 0 k (message "%!w(<nil>)") r few (omega arith)
      (λ i le lt. retried i lt) uncancelled has_auth answered small
