-- ===== src/Breaker/Retry.antt =====
-- `retryWithBackoff` of pkg/worker/breaker.go. What `fn` returns on each attempt and whether the
-- context ends during the wait after it are functions of the attempt's number. The backoff is a natural
-- number of seconds; in the source it wraps from attempt 34 on, which 544 years of waiting come before.
use Prim.Native.Nat.{◌^◌}
use native.Mathlib.Nat.{pow-suc, zero-add, add-zero, add-suc, suc-add}
use infermesh.Prelude.{ℕ, zero, suc, ◌+◌, ◌<◌, ◌≡◌, sym, ap, ◌∙◌, Option, none, some, arith}

pub data Outcome (E : Type 0) : Type 0 where
  done : Outcome E
  cancelled : E → Outcome E
  exceeded : Option E → Outcome E

module _ {E : Type 0} (fn ends : ℕ → Option E) where
  -- The loop with `left` attempts to go; the number is the seconds of backoff waited in full.
  retry_from : ℕ → ℕ → Option E → ℕ → Outcome E × ℕ
  retry_from zero attempt last_err waited = (exceeded last_err, waited)
  retry_from (suc left) attempt last_err waited = elim (fn attempt) [
    | none ↦ (done, waited)
    | some err ↦ elim (ends attempt) [
      | none ↦ retry_from left (suc attempt) (some err) (waited + 2 ^ attempt)
      | some ctx_err ↦ (cancelled ctx_err, waited)
    ]
  ]

  unfoldable pub retry_with_backoff : ℕ → Outcome E × ℕ
  unfolding retry_from
  retry_with_backoff max_retries = retry_from max_retries 0 none 0

  -- Attempts `a` to `a + n - 1` fail, and the context lives through their waits.
  abbrev pub Failing : ℕ → ℕ → Type 0
  Failing a zero = Unit
  Failing a (suc n) = ((e : E) × (fn a ≡ some e)) × (ends a ≡ none) × Failing (suc a) n

  retry_from-Failing :
      (n left a : ℕ) (last : Option E) (waited : ℕ)
      → n < left
      → Failing a n
      → fn (a + n) ≡ none
      → (w : ℕ) × (retry_from left a last waited ≡ (done, w)) × (w + 2 ^ a ≡ waited + 2 ^ (a + n))
  unfolding retry_from
  retry_from-Failing n zero a last waited l f h = absurd (omega arith)
  retry_from-Failing zero (suc left) a last waited l f h =
      (waited, rw (rw add-zero at h, retry_from), rw add-zero)
  retry_from-Failing (suc n) (suc left) a last waited l f h =
      let (e, p) = f.0 in
      let (w, q, r) =
        retry_from-Failing n left (suc a) (some e) (waited + 2 ^ a) (omega arith) f.2
          (rw suc-add (rw (← add-suc) h)) in
      (
        w,
        rw (p, f.1, retry_from) q,
        omega (
          arith,
          r,
          pow-suc 2 a,
          add-suc a n,
          suc-add a n,
          ap (λ (k : ℕ). 2 ^ k) (add-suc a n ∙ sym (suc-add a n)),
        ),
      )

  retry_from_exhausted :
      (n a : ℕ) (last : Option E) (waited : ℕ) (e : E)
      → Failing a (suc n)
      → fn (a + n) ≡ some e
      → (w : ℕ) × (retry_from (suc n) a last waited ≡ (exceeded (some e), w))
        × (w + 2 ^ a ≡ waited + 2 ^ (a + suc n))
  unfolding retry_from
  retry_from_exhausted zero a last waited e f h = (
    waited + 2 ^ a,
    rw (rw add-zero at h, f.1, retry_from),
    omega (arith, pow-suc 2 a, ap (λ (k : ℕ). 2 ^ k) (add-suc a 0 ∙ ap suc (add-zero a))),
  )
  retry_from_exhausted (suc n) a last waited e f h =
      let (x, p) = f.0 in
      let (w, q, r) =
        retry_from_exhausted n (suc a) (some x) (waited + 2 ^ a) e f.2
          (rw suc-add (rw (← add-suc) h)) in
      (
        w,
        rw (p, f.1, retry_from) q,
        omega (
          arith,
          r,
          pow-suc 2 a,
          ap (λ (k : ℕ). 2 ^ k) (add-suc a (suc n) ∙ sym (suc-add a (suc n))),
        ),
      )

  -- If the attempts before `n` fail, `n` is within the limit and succeeds, and the context lives on,
  -- the retry succeeds after waiting 2^n - 1 seconds in full.
  pub retry_succeeds :
      (n max_retries : ℕ)
      → n < max_retries
      → Failing 0 n
      → fn n ≡ none
      → (w : ℕ) × (retry_with_backoff max_retries ≡ (done, w)) × (w + 1 ≡ 2 ^ n)
  unfolding retry_with_backoff
  retry_succeeds n max_retries l f h =
      let (w, q, r) = retry_from-Failing n max_retries 0 none 0 l f (rw zero-add h) in
      (w, q, omega (arith, r, ap (λ (k : ℕ). 2 ^ k) (zero-add n)))

  -- If every one of n + 1 attempts fails and the context lives on, the retry gives up with the last
  -- attempt's error, having waited after that attempt too: 2^(n + 1) - 1 seconds in all.
  pub retry_gives_up :
      (n : ℕ) (e : E)
      → Failing 0 (suc n)
      → fn n ≡ some e
      → (w : ℕ) × (retry_with_backoff (suc n) ≡ (exceeded (some e), w)) × (w + 1 ≡ 2 ^ suc n)
  unfolding retry_with_backoff
  retry_gives_up n e f h =
      let (w, q, r) = retry_from_exhausted n 0 none 0 e f (rw zero-add h) in
      (w, q, omega (arith, r, ap (λ (k : ℕ). 2 ^ k) (zero-add (suc n))))
