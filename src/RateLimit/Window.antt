-- ===== src/RateLimit/Window.antt =====
-- The local limiter admits no more than the quota in any window, and admits again in time.
use native.Mathlib.Nat.{lt-div-mul-add}
use flipradar.RateLimit.Limiter.{
  drop_expired, RateLimitPolicy, reserve_local, RateLimitResult, window, refused,
}
use flipradar.Base.{
  some, none, true, false, refl, ◌≡◌, ℕ, ◌+◌, ◌≤◌, List, [], ◌∷◌, ◌++◌, arith, length, Option, Bool,
  ltb, count_by, if◌then◌else◌, ◌*◌, leb, count_by-append, ◌-◌, max, ◌/◌, ap, ◌<◌,
}

-- A hit that still counts at an instant.
abbrev pub counts_at : ℕ → ℕ → ℕ → Bool
counts_at window t hit = ltb t (hit + window)

abbrev pub is_allowed : Option RateLimitResult → Bool
is_allowed none = false
is_allowed (some r) = r.allowed

-- The instants of the admitted requests, with that of one more if it was admitted.
abbrev pub logged : Option RateLimitResult → ℕ → List ℕ → List ℕ
logged r now log = if is_allowed r then log ++ (now ∷ []) else log

-- The deque, the instants of all admitted requests and the instant, after a request at each distance
-- from the one before.
abbrev pub reserve_all : RateLimitPolicy → List ℕ → List ℕ × List ℕ × ℕ → List ℕ × List ℕ × ℕ
reserve_all policy [] (hits, log, now) = (hits, log, now)
reserve_all policy (wait ∷ waits) (hits, log, now) =
    let (r, hits') = reserve_local policy (now + wait) hits in
    reserve_all policy waits (hits', logged r (now + wait) log, now + wait)

count_by_le : {A : Type 0} (p : A → Bool) (xs : List A) → count_by p xs ≤ length xs
count_by_le p [] = omega arith
count_by_le p (x ∷ xs) = ground (arith, count_by_le p xs)

length-append_one : {A : Type 0} (xs : List A) (a : A) → length (xs ++ (a ∷ [])) ≡ length xs + 1
length-append_one [] a = omega arith
length-append_one (x ∷ xs) a = ground (arith, length-append_one xs a)

length-drop_expired :
    (window now : ℕ) (hits : List ℕ) → length (drop_expired window now hits) ≤ length hits
unfolding drop_expired
length-drop_expired window now [] = omega arith
length-drop_expired window now (hit ∷ hits) = ground (arith, length-drop_expired window now hits)

-- No hit that counts later is dropped.
count_by-drop_expired :
    (window now t : ℕ) (hits : List ℕ)
    → now ≤ t
    → count_by (counts_at window t) hits
      ≤ count_by (counts_at window t) (drop_expired window now hits)
unfolding drop_expired
count_by-drop_expired window now t [] h = omega arith
count_by-drop_expired window now t (hit ∷ hits) h =
    ground (arith, count_by-drop_expired window now t hits h)

room : (m n : ℕ) → leb m n ≡ false → n + 1 ≤ m
room m n e = ground arith

module _ (policy : RateLimitPolicy) where
  -- The deque is not longer than the quota, and holds every admitted request that counts.
  record Covers (hits log : List ℕ) (now : ℕ) : Type 0 where
    short : length hits ≤ policy.max_requests
    all :
        (t : ℕ)
        → now ≤ t
        → count_by (counts_at (window policy) t) log ≤ count_by (counts_at (window policy) t) hits

  answer : Bool → ℕ → List ℕ → Option RateLimitResult × List ℕ
  answer b now live =
      if b
      then (refused (window policy) now live, live)
      else (some (record { allowed = true; retry_after_seconds = 0 }), live ++ (now ∷ []))

  answer-Covers :
      (b : Bool) (live log : List ℕ) (now : ℕ)
      → leb policy.max_requests (length live) ≡ b
      → Covers live log now
      → Covers (answer b now live).1 (logged (answer b now live).0 now log) now
  unfolding answer
  answer-Covers true [] log now e c = c
  answer-Covers true (hit ∷ hits) log now e c = c
  answer-Covers false live log now e c = record {
    short = omega (arith, length-append_one live now, room policy.max_requests (length live) e);
    all = λ t h. omega (
      arith,
      c.all t h,
      count_by-append (counts_at (window policy) t) log (now ∷ []),
      count_by-append (counts_at (window policy) t) live (now ∷ []),
    );
  }

  reserve_local-Covers :
      (hits log : List ℕ) (now later : ℕ)
      → now ≤ later
      → Covers hits log now
      → let (r, hits') = reserve_local policy later hits in Covers hits' (logged r later log) later
  unfolding reserve_local answer
  reserve_local-Covers hits log now later h c =
      let live : List ℕ = drop_expired (window policy) later hits in
      answer-Covers (leb policy.max_requests (length live)) live log later refl (record {
        short = omega (arith, c.short, length-drop_expired (window policy) later hits);
        all = λ t k. omega (
          arith,
          c.all t (omega (arith, h, k)),
          count_by-drop_expired (window policy) later t hits k,
        );
      })

  reserve_all-Covers :
      (waits hits log : List ℕ) (now : ℕ)
      → Covers hits log now
      → let (hits', log', later) = reserve_all policy waits (hits, log, now) in
        Covers hits' log' later
  reserve_all-Covers [] hits log now c = c
  reserve_all-Covers (wait ∷ waits) hits log now c =
      let (r, hits') = reserve_local policy (now + wait) hits in
      reserve_all-Covers waits hits' (logged r (now + wait) log) (now + wait)
        (reserve_local-Covers hits log now (now + wait) (omega arith) c)

-- After any requests of a key, at any distances, the requests that were admitted in the window that
-- ends at the last request, or at a later instant, are not more than the quota.
pub reserve_all-max_requests :
    (policy : RateLimitPolicy) (waits : List ℕ) (start t : ℕ)
    → let (hits, log, now) = reserve_all policy waits ([], [], start) in
      now ≤ t → count_by (counts_at (window policy) t) log ≤ policy.max_requests
reserve_all-max_requests policy waits start t h =
    let c =
      reserve_all-Covers policy waits [] [] start
        (record { short = omega arith; all = λ t k. omega arith }) in
    let (hits, log, now) = reserve_all policy waits ([], [], start) in
    omega (arith, c.short, c.all t h, count_by_le (counts_at (window policy) t) hits)

admits :
    (b : Bool) (policy : RateLimitPolicy) (now : ℕ) (live : List ℕ)
    → b ≡ false
    → is_allowed (answer policy b now live).0 ≡ true
unfolding answer
admits true policy now live e = cc
admits false policy now live e = refl

reserve_local-admits :
    (policy : RateLimitPolicy) (now : ℕ) (hits : List ℕ)
    → length (drop_expired (window policy) now hits) + 1 ≤ policy.max_requests
    → is_allowed (reserve_local policy now hits).0 ≡ true
unfolding reserve_local answer
reserve_local-admits policy now hits h =
    let live : List ℕ = drop_expired (window policy) now hits in
    admits (leb policy.max_requests (length live)) policy now live (ground arith)

drop_first :
    (w now : ℕ) (hit : ℕ) (hits : List ℕ)
    → hit + w ≤ now
    → length (drop_expired w now (hit ∷ hits)) ≤ length hits
unfolding drop_expired
drop_first w now hit hits h = ground (arith, length-drop_expired w now hits)

answer-retry_after :
    (policy : RateLimitPolicy) (b : Bool) (live : List ℕ) (now : ℕ) (r : RateLimitResult)
    → length live ≤ policy.max_requests
    → (answer policy b now live).0 ≡ some r
    → r.allowed ≡ false
    → is_allowed
        (reserve_local policy
          (now + (r.retry_after_seconds + 1) * 1_000_000)
          (answer policy b now live).1).0
      ≡ true
unfolding answer
answer-retry_after policy false live now r short answered denied = cc
answer-retry_after policy true [] now r short answered denied = cc
answer-retry_after policy true (hit ∷ hits) now r short answered denied =
    let left : ℕ = hit + window policy - now in
    let given : max 1 (left / 1_000_000) ≡ r.retry_after_seconds =
      ap (λ (o : Option RateLimitResult). elim o [ none ↦ 0 | some q ↦ q.retry_after_seconds ])
        answered in
    let whole : left < left / 1_000_000 * 1_000_000 + 1_000_000 = lt-div-mul-add (omega arith) in
    let later : ℕ = now + (r.retry_after_seconds + 1) * 1_000_000 in
    let over : hit + window policy ≤ later = omega (arith, given, whole) in
    reserve_local-admits policy later (hit ∷ hits)
      (omega (arith, short, drop_first (window policy) later hit hits over))

-- A request that is refused, by a deque that is not longer than the quota, may come again one second
-- after the time that `Retry-After` gives, and is admitted then, if no other request of the key was
-- admitted in between.
pub reserve_local-retry_after :
    (policy : RateLimitPolicy) (now : ℕ) (hits : List ℕ) (r : RateLimitResult)
    → length hits ≤ policy.max_requests
    → (reserve_local policy now hits).0 ≡ some r
    → r.allowed ≡ false
    → is_allowed
        (reserve_local policy
          (now + (r.retry_after_seconds + 1) * 1_000_000)
          (reserve_local policy now hits).1).0
      ≡ true
unfolding reserve_local answer
reserve_local-retry_after policy now hits r short answered denied =
    let live : List ℕ = drop_expired (window policy) now hits in
    answer-retry_after policy (leb policy.max_requests (length live)) live now r
      (omega (arith, short, length-drop_expired (window policy) now hits)) answered denied
