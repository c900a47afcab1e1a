-- ===== src/Startup/Retry.antt =====
-- `retryOpenUntilReady`: the database is opened again and again, at growing intervals.
use mcp_webtools.Prelude.{
  Outcome, ok, err, ℕ, zero, suc, ◌+◌, ◌*◌, ◌^◌, ◌≤◌, ◌<◌, min, ◌≡◌, ap, ◌∙◌, Option, none, some,
  List, [], ◌∷◌, ◌++◌, arith, length,
}

abbrev pub first_backoff : ℕ
first_backoff = 1_000_000_000

abbrev pub max_backoff : ℕ
max_backoff = 30_000_000_000

unfoldable pub next_backoff : ℕ → ℕ
next_backoff backoff = min (backoff * 2) max_backoff

-- Still waiting, with the interval before the next attempt and the latest failure, or done.
pub data Retry (E Db : Type 0) : Type 0 where
  waiting : ℕ → Option E → Retry E Db
  opened : Db → Retry E Db

module _ {E Db : Type 0} where
  -- The loop over the results of the attempts, as long as the context lives; nothing is tried once the
  -- database is open. The waits that precede the attempts are summed up.
  unfoldable pub retry_from : ℕ → Option E → ℕ → List (Outcome E Db) → Retry E Db × ℕ
  unfolding next_backoff
  retry_from backoff latest waited [] = (waiting backoff latest, waited)
  retry_from backoff latest waited (ok db ∷ attempts) = (opened db, waited + backoff)
  retry_from backoff latest waited (err e ∷ attempts) =
      retry_from (next_backoff backoff) (some e) (waited + backoff) attempts

  unfoldable pub retry_open_until_ready : List (Outcome E Db) → Retry E Db × ℕ
  unfolding retry_from
  retry_open_until_ready attempts = retry_from first_backoff none 0 attempts

  abbrev pub failures : List E → List (Outcome E Db)
  failures [] = []
  failures (e ∷ es) = err e ∷ failures es

-- The first `n` waits, added up.
abbrev pub waits : ℕ → ℕ → ℕ
waits backoff zero = 0
waits backoff (suc n) = backoff + waits (next_backoff backoff) n

pow_suc : (n : ℕ) → 2 * 2 ^ n ≡ 2 ^ suc n
pow_suc n = omega arith

pow_pos : (n : ℕ) → 0 < 2 ^ n
pow_pos zero = omega arith
pow_pos (suc n) = omega (arith, pow_pos n, pow_suc n)

-- The wait before the attempt that follows `n` failures: 1, 2, 4, 8 and 16 seconds, then 30.
abbrev pub interval : ℕ → ℕ
interval n = min (1_000_000_000 * 2 ^ n) 30_000_000_000

-- The waits before the first `n` attempts, added up.
abbrev pub elapsed : ℕ → ℕ
elapsed zero = 0
elapsed (suc n) = elapsed n + interval n

next-interval : (n : ℕ) → next_backoff (interval n) ≡ interval (suc n)
unfolding next_backoff
next-interval n = omega (arith, pow_suc n)

waits-elapsed : (n j : ℕ) → elapsed j + waits (interval j) n ≡ elapsed (j + n)
waits-elapsed zero j =
    let e : j ≡ j + 0 = omega arith in
    let same_sum : elapsed j ≡ elapsed (j + 0) = ap elapsed e in omega (arith, same_sum)
waits-elapsed (suc n) j =
    let rest = waits-elapsed n (suc j) in
    let same_waits = ap (λ b. waits b n) (next-interval j) in
    let e : suc j + n ≡ j + suc n = omega arith in
    let same_sum : elapsed (suc j + n) ≡ elapsed (j + suc n) = ap elapsed e in
    omega (arith, rest, same_waits, same_sum)

elapsed_bounds : (n : ℕ) → (1_000_000_000 * n ≤ elapsed n) × (elapsed n ≤ 30_000_000_000 * n)
elapsed_bounds zero = (omega arith, omega arith)
elapsed_bounds (suc n) =
    let (least, most) = elapsed_bounds n in (omega (arith, pow_pos n), omega (arith, most))

module _ {E Db : Type 0} where
  retry-failures :
      (es : List E) (db : Db) (rest : List (Outcome E Db)) (backoff waited : ℕ) (latest : Option E)
      → retry_from backoff latest waited (failures es ++ ok db ∷ rest)
        ≡ (opened db, waited + waits backoff (suc (length es)))
  unfolding retry_from
  retry-failures [] db rest backoff waited latest = ground arith
  retry-failures (e ∷ es) db rest backoff waited latest =
      retry-failures es db rest (next_backoff backoff) (waited + backoff) (some e) ∙ ground arith

  -- After any number of failures the first attempt that opens the database ends the loop with it,
  -- and the waits before its attempts add up to exactly 2^n seconds, but at most thirty, for the
  -- attempt that follows n failures, which is at least one second and at most thirty for each
  -- attempt.
  pub retry-opens :
      (es : List E) (db : Db) (rest : List (Outcome E Db))
      → let attempts = suc (length es) in
        (retry_open_until_ready (failures es ++ ok db ∷ rest) ≡ (opened db, elapsed attempts))
        × (1_000_000_000 * attempts ≤ elapsed attempts)
        × (elapsed attempts ≤ 30_000_000_000 * attempts)
  unfolding retry_open_until_ready
  retry-opens es db rest =
      let attempts = suc (length es) in
      let (least, most) = elapsed_bounds attempts in
      let e : 0 + attempts ≡ attempts = omega arith in
      let sum : elapsed (0 + attempts) ≡ elapsed attempts = ap elapsed e in
      let first : waits (interval 0) attempts ≡ waits first_backoff attempts =
        λ i. waits first_backoff attempts in
      let all_waits : 0 + waits first_backoff attempts ≡ elapsed attempts =
        omega (arith, waits-elapsed attempts 0, sum, first) in
      (
        retry-failures es db rest first_backoff 0 none ∙ ap (λ w. (opened db, w)) all_waits,
        least,
        most,
      )
