-- ===== src/Dispatch/Turn.antt =====
-- One turn of the loop of `dispatchWithFailover` in pkg/router/dispatch.go.
use infermesh.Prelude.{
  ℕ, suc, ◌≡◌, refl, ◌⊎◌, inl, inr, String, Bool, true, false, Option, some, List, [], ◌∷◌, ◌++◌,
  Bool-cases, Option-cases,
}
use infermesh.Dispatch.{
  Err, err_rate_limited, err_all_attempts_failed, is_retryable_error, Result, ok, err, Effect,
  records, rejects, begins, finishes, Attempt, failover_loop, record_once, after,
}

-- The workers that were sent the request, in order.
abbrev pub began : List Effect → List String
began [] = []
began (records m ∷ es) = began es
began (rejects w s ∷ es) = began es
began (begins w ∷ es) = w ∷ began es
began (finishes w b ∷ es) = began es

pub began-append : (es fs : List Effect) → began (es ++ fs) ≡ began es ++ began fs
began-append [] fs = refl
began-append (records m ∷ es) fs = began-append es fs
began-append (rejects w s ∷ es) fs = began-append es fs
began-append (begins w ∷ es) fs = rw (began-append es fs) refl
began-append (finishes w b ∷ es) fs = began-append es fs

pub began-record_once :
    (b : Bool) (m : String) (fs : List Effect) → began (record_once b m ++ fs) ≡ began fs
began-record_once true m fs = refl
began-record_once false m fs = refl

Result-cases : {A : Type 0} (r : Result A) → ((a : A) × (r ≡ ok a)) ⊎ ((e : Err) × (r ≡ err e))
Result-cases (ok a) = inl (a, refl)
Result-cases (err e) = inr (e, refl)

module _ {Body : Type 0} where
  -- How a turn ends: in a result, from the turns `next` that are left.
  pub data Turn (a : Attempt Body) (model : String) (excluded : List String) (recorded : Bool)
      (next : List String → Option Err → Bool → Result Body × List Effect)
      : Result Body × List Effect → Type 0 where
    expires :
        (e : Err) → Turn a model excluded recorded next (err (err_all_attempts_failed ∷ e), [])
    no_worker : (e : Err) → Turn a model excluded recorded next (next excluded (some e) recorded)
    skips :
        (w : String)
        → a.select_excluding excluded ≡ ok w
        → Turn a model excluded recorded next (
            after (record_once recorded model) (
              after (rejects w 429 ∷ []) (next (w ∷ excluded) (some (err_rate_limited ∷ [])) true)))
    answers :
        (w : String) (body : Body)
        → a.select_excluding excluded ≡ ok w
        → a.is_rate_limited w ≡ false
        → a.complete w ≡ ok body
        → Turn a model excluded recorded next (
            after
              (record_once recorded model)
              (after (begins w ∷ []) (ok body, finishes w true ∷ [])))
    retries :
        (w : String) (e : Err)
        → a.select_excluding excluded ≡ ok w
        → a.is_rate_limited w ≡ false
        → a.complete w ≡ err e
        → is_retryable_error e ≡ true
        → Turn a model excluded recorded next (
            after (record_once recorded model) (
              after
                (begins w ∷ [])
                (after (finishes w false ∷ []) (next (w ∷ excluded) (some e) true))))
    fails_fast :
        (w : String) (e : Err)
        → a.select_excluding excluded ≡ ok w
        → a.is_rate_limited w ≡ false
        → a.complete w ≡ err e
        → is_retryable_error e ≡ false
        → Turn a model excluded recorded next (
            after
              (record_once recorded model)
              (after (begins w ∷ []) (after (finishes w false ∷ []) (err e, []))))

  pub turn :
      (attempts : ℕ → Attempt Body) (model : String) (n k : ℕ) (excluded : List String)
      (last : Option Err) (recorded : Bool)
      → Turn
          (attempts k)
          model
          excluded
          recorded
          (failover_loop attempts model n (suc k))
          (failover_loop attempts model (suc n) k excluded last recorded)
  unfolding failover_loop
  turn attempts model n k excluded last recorded = elim (Option-cases (attempts k).ctx_err) [
    | inr (e, i) ↦ rw (i, failover_loop) (expires e)
    | inl i ↦ elim (Result-cases ((attempts k).select_excluding excluded)) [
      | inr (e, s) ↦ rw (i, failover_loop, s) (no_worker e)
      | inl (w, s) ↦ elim (Bool-cases ((attempts k).is_rate_limited w)) [
        | inl l ↦ rw (i, failover_loop, s, l) (skips w s)
        | inr l ↦ elim (Result-cases ((attempts k).complete w)) [
          | inl (body, c) ↦ rw (i, failover_loop, s, l, c) (answers w body s l c)
          | inr (e, c) ↦ elim (Bool-cases (is_retryable_error e)) [
            | inl r ↦ rw (i, failover_loop, s, l, c, r) (retries w e s l c r)
            | inr r ↦ rw (i, failover_loop, s, l, c, r) (fails_fast w e s l c r)
          ]
        ]
      ]
    ]
  ]
