-- ===== src/Comfy/Retry.antt =====
-- How often the client calls, and after which answers.
use zun_rust_server.Prelude.{
  ℕ, zero, suc, ◌+◌, ◌≤◌, ◌<◌, ◌≡◌, refl, sym, subst, true, not, ◌||◌, leb, ==_iff, ◌==◌, arith,
  Bool-cases, inl, inr,
}
use zun_rust_server.Comfy.{
  Outcome, done, failed, Failure, Idempotency, should_retry, retry_from, with_retry, max_attempts,
  Outcome-cases,
}

module _ {A : Type 0} where
  -- The answer is a failure that the mode calls again after.
  pub record IsRetried (mode : Idempotency) (r : Outcome A) : Type 0 where
    pub failure : Failure
    pub answer : r ≡ failed failure
    pub retried : should_retry failure mode ≡ true

  pub record Answers (mode : Idempotency) (op : ℕ → Outcome A) (first : ℕ) (r : Outcome A × ℕ)
      : Type 0 where
    pub result : r.0 ≡ op r.1
    pub from : first ≤ r.1
    pub bounded : r.1 ≤ max_attempts
    pub before : (n : ℕ) → first ≤ n → n < r.1 → IsRetried mode (op n)

  stops_now :
      (mode : Idempotency) (op : ℕ → Outcome A) (attempt : ℕ) (r : Outcome A)
      → r ≡ op attempt
      → attempt ≤ max_attempts
      → Answers mode op attempt (r, attempt)
  stops_now mode op attempt r e h = record {
    result = e;
    from = omega arith;
    bounded = h;
    before = λ n a b. absurd (omega (arith, a, b));
  }

  goes_on :
      (mode : Idempotency) (op : ℕ → Outcome A) (attempt : ℕ) (r : Outcome A × ℕ)
      → IsRetried mode (op attempt)
      → Answers mode op (attempt + 1) r
      → Answers mode op attempt r
  goes_on mode op attempt r now later = record {
    result = later.result;
    from = omega (arith, later.from);
    bounded = later.bounded;
    before = λ n a b. elim (Bool-cases (n == attempt)) [
      | inl e ↦ subst (λ k. IsRetried mode (op k)) (sym ((==_iff n attempt).0 e)) now
      | inr e ↦ later.before n (ground (arith, a, e)) b
    ];
  }

  retry_from-Answers :
      (mode : Idempotency) (op : ℕ → Outcome A) (fuel attempt : ℕ)
      → fuel + attempt ≡ max_attempts + 1
      → 1 ≤ fuel
      → Answers mode op attempt (retry_from mode op fuel attempt)
  unfolding retry_from
  retry_from-Answers mode op zero attempt h k = absurd (omega (arith, k))
  retry_from-Answers mode op (suc fuel) attempt h k = elim (Outcome-cases (op attempt)) [
    | inl (v, e) ↦
        rw (retry_from, e) (stops_now mode op attempt (done v) (sym e) (omega (arith, h)))
    | inr (f, e) ↦ elim (Bool-cases (leb max_attempts attempt || not (should_retry f mode))) [
      | inl stop ↦
          rw (retry_from, e, stop) (stops_now mode op attempt (failed f) (sym e) (omega (arith, h)))
      | inr again ↦
          rw (retry_from, e, again)
            (goes_on mode op attempt (retry_from mode op fuel (attempt + 1))
              (record { failure = f; answer = e; retried = ground (arith, again) })
              (retry_from-Answers mode op fuel (attempt + 1) (omega (arith, h))
                (ground (arith, again, h))))
    ]
  ]

-- A call with retries makes between one and three calls and answers with the last one's answer; every
-- call before it failed in a way that the mode retries.
pub with_retry-Answers :
    {A : Type 0}
    → (mode : Idempotency) (op : ℕ → Outcome A) → Answers mode op 1 (with_retry mode op)
unfolding with_retry
with_retry-Answers mode op = retry_from-Answers mode op max_attempts 1 refl (omega arith)
