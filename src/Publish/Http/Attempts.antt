-- ===== src/Publish/Http/Attempts.antt =====
-- The attempts of the HTTP publisher: how many are made, and what their results say.
use mapper_framework_c.Prelude.{
  ℕ, zero, suc, ◌+◌, ◌≤◌, ◌<◌, ◌≡◌, refl, sym, ap, true, false, ◌⊎◌, inl, inr, Option, some, arith,
  Bool-cases,
}
use mapper_framework_c.Prelude.Int.{ℤ, pos, pos_part, ltb_ℤ}
use mapper_framework_c.Prelude.CString.{Str}
use mapper_framework_c.Common.Const.{success, failure}
use mapper_framework_c.Common.Cjson.{Cjson}
use mapper_framework_c.Common.DataModel.{DataModel}
use mapper_framework_c.Publish.Fields.{is_delivered, data_document}
use mapper_framework_c.Publish.Http.{
  HttpPublisher, HttpRequest, http_attempts, http_request, http_publisher_publish,
}

-- What the attempts from the one numbered `n` give: only the last of `made` attempts is delivered or
-- none is; if none is, as many were made as the configuration allows, or one if it allows none.
pub record Attempted (perform : ℕ → Option ℤ) (retry_count : ℤ) (n : ℕ) (code : ℤ) (made : ℕ)
    : Type 0 where
  pub last : ℕ
  pub is_last : made ≡ suc last
  pub begun : n ≤ last
  pub undelivered : (k : ℕ) → n ≤ k → k < last → is_delivered (perform k) ≡ false
  pub outcome :
      ((code ≡ success) × (is_delivered (perform last) ≡ true))
      ⊎ ((code ≡ failure)
          × (is_delivered (perform last) ≡ false)
          × (ltb_ℤ (pos made) retry_count ≡ false))
  pub allowed : (last ≡ n) ⊎ (ltb_ℤ (pos last) retry_count ≡ true)

eq-or-lt : (n k : ℕ) → n ≤ k → (n ≡ k) ⊎ (suc n ≤ k)
eq-or-lt n k h = ground arith

earlier :
    (perform : ℕ → Option ℤ) (retry_count : ℤ) (n : ℕ) {code : ℤ} {made : ℕ}
    → is_delivered (perform n) ≡ false
    → ltb_ℤ (pos (suc n)) retry_count ≡ true
    → Attempted perform retry_count (suc n) code made
    → Attempted perform retry_count n code made
earlier perform retry_count n u l a = record {
  last = a.last;
  is_last = a.is_last;
  begun = omega (arith, a.begun);
  undelivered =
      λ k h k'. elim (eq-or-lt n k h) [ inl e ↦ rw (sym e) u | inr q ↦ a.undelivered k q k' ];
  outcome = a.outcome;
  allowed = inr (elim a.allowed [ inl e ↦ rw e l | inr q ↦ q ]);
}

here :
    (perform : ℕ → Option ℤ) (retry_count : ℤ) (n : ℕ) (code : ℤ)
    → (((code ≡ success) × (is_delivered (perform n) ≡ true))
        ⊎ ((code ≡ failure)
            × (is_delivered (perform n) ≡ false)
            × (ltb_ℤ (pos (suc n)) retry_count ≡ false)))
    → Attempted perform retry_count n code (suc n)
here perform retry_count n code o = record {
  last = n;
  is_last = refl;
  begun = omega arith;
  undelivered = λ k h k'. absurd (omega arith);
  outcome = o;
  allowed = inl refl;
}

-- With this fuel the loop ends, with the attempts that it should make.
pub http_attempts-Attempted :
    (perform : ℕ → Option ℤ) (retry_count : ℤ) (fuel n : ℕ)
    → 0 < fuel
    → pos_part retry_count ≤ n + fuel
    → (code : ℤ) × (made : ℕ) × (http_attempts perform retry_count fuel n ≡ some (code, made))
      × Attempted perform retry_count n code made
unfolding http_attempts
http_attempts-Attempted perform retry_count zero n h e = absurd (omega arith)
http_attempts-Attempted perform retry_count (suc fuel) n h e =
    elim (Bool-cases (is_delivered (perform n))) [
      | inl y ↦ (success, suc n, rw y refl, here perform retry_count n success (inl (refl, y)))
      | inr u ↦ elim (Bool-cases (ltb_ℤ (pos (suc n)) retry_count)) [
        | inl l ↦
            let (code, made, r, a) =
              http_attempts-Attempted perform retry_count fuel (suc n) (ground arith)
                (omega arith) in
            (code, made, rw (u, l) r, earlier perform retry_count n u l a)
        | inr l ↦
            (failure, suc n, rw (u, l) refl, here perform retry_count n failure (inr (refl, u, l)))
      ]
    ]

-- For every publisher and every value whose document can be printed, the call returns, after at
-- least one attempt: it makes no attempt behind one that is answered with a code of 200 to 299, and
-- no second one that the configured count does not allow; it gives 0 exactly if the last attempt was
-- answered so, and -1 only if the count allows no further attempt.
pub http_publisher_publish-Attempted :
    (cjson : Cjson) (p : HttpPublisher) (dm : DataModel) (perform : HttpRequest → ℕ → Option ℤ)
    (json : Str)
    → cjson.print_unformatted (data_document cjson dm) ≡ some json
    → (code : ℤ) × (made : ℕ) × (http_publisher_publish cjson (some p) (some dm) perform
        ≡ record { request = some (http_request p json); result = some (code, made) })
      × Attempted (perform (http_request p json)) p.config.retry_count 0 code made
unfolding http_publisher_publish
http_publisher_publish-Attempted cjson p dm perform json e =
    let request = http_request p json in
    let retry_count = p.config.retry_count in
    let (code, made, r, a) =
      http_attempts-Attempted (perform request) retry_count (suc (pos_part retry_count)) 0
        (omega arith) (omega arith) in
    (
      code,
      made,
      rw (http_publisher_publish, e) (ap (λ q. record { request = some request; result = q }) r),
      a,
    )
