-- ===== src/Auth/RateLimit/Window.antt =====
-- The windows of ratelimit/ratelimit.go over the traffic of many keys.
use backend_pkg.Common.{
  ℕ, zero, suc, ◌+◌, ◌-◌, ◌/◌, ◌≤◌, ◌<◌, ◌≡◌, refl, ◌∙◌, Bool, true, false, List, [], ◌∷◌, Bytes,
  ◌=ᵇ◌, if◌then◌else◌, Option, none, some, pos, arith, All, Bool-cases, inl, inr, =ᵇ→eq, =ᵇ_refl,
  ◌==◌, lt→ltb, leb, ltb-false, le→leb,
}
use backend_pkg.Auth.RateLimit.{
  Redis, Counter, incremented, is_live, incr_expire, allow, answering, bucket,
  nanoseconds_per_millisecond, live_count,
}

-- The answers to `n` hits with `limit` of them free.
unfoldable pub budget : ℕ → ℕ → List Bool
budget limit zero = []
budget zero (suc n) = false ∷ budget zero n
budget (suc limit) (suc n) = true ∷ budget limit n

-- The hits of one key among the traffic.
unfoldable pub hits_of : Bytes → List (Bytes × ℕ) → ℕ
hits_of k [] = 0
hits_of k ((j, now) ∷ traffic) = if j =ᵇ k then suc (hits_of k traffic) else hits_of k traffic

-- What a hit makes of a counter.
abbrev hit_counter : ℕ → ℕ → Option Counter → Counter
hit_counter now ms e =
    let c = incremented now e in
    if live_count now e + 1 == 1 then record c { expires = some (now + ms) } else c

incremented_live : (now : ℕ) (e : Option Counter) → is_live now (incremented now e).expires ≡ true
incremented_live now none = refl
incremented_live now (some c) = elim (Bool-cases (is_live now c.expires)) [
  | inl h ↦ rw h h
  | inr h ↦ rw h refl
]

module _ (r : Redis) where
  open r use {State, incr, pexpire, entry, incr_count, entry-incr, entry-pexpire}

  entry-incr_expire :
      (s : State) (now : ℕ) (k : Bytes) (ms : ℕ) (j : Bytes)
      → entry (incr_expire r s now k ms).0 j
        ≡ (if k =ᵇ j then some (hit_counter now ms (entry s k)) else entry s j)
  unfolding incr_expire
  entry-incr_expire s now k ms j = elim (Bool-cases (live_count now (entry s k) + 1 == 1)) [
    | inl e ↦
        rw
          (
            incr_count s now k,
            e,
            entry-pexpire (incr s now k).0 now k ms j,
            entry-incr s now k k,
            =ᵇ_refl k,
            entry-incr s now k j,
            incremented_live now (entry s k),
          )
          (elim (Bool-cases (k =ᵇ j)) [ inl h ↦ rw h refl | inr h ↦ rw h refl ])
    | inr e ↦ rw (incr_count s now k, e, entry-incr s now k j) refl
  ]

module _ (r : Redis) (limit window : ℕ) where
  open r use {State, entry, incr_count, entry-incr, entry-pexpire}

  -- The state after the traffic.
  unfoldable pub after : State → List (Bytes × ℕ) → State
  after s [] = s
  after s ((j, now) ∷ traffic) = after (allow r answering s now j (pos limit) window).0 traffic

  -- The answers to the hits of one key.
  unfoldable pub answers : Bytes → State → List (Bytes × ℕ) → List Bool
  answers k s [] = []
  answers k s ((j, now) ∷ traffic) =
      let (s', allowed, failed) = allow r answering s now j (pos limit) window in
      let rest = answers k s' traffic in if j =ᵇ k then allowed ∷ rest else rest

  abbrev pub window_ms : ℕ
  window_ms = window / nanoseconds_per_millisecond

  -- Hits of the key come before the deadline.
  abbrev pub Within : Bytes → ℕ → List (Bytes × ℕ) → Type 0
  Within k deadline = All {A = Bytes × ℕ} (λ h. h.0 ≡ k → h.1 < deadline)

  budget_step :
      (c n : ℕ) → leb (c + 1) limit ∷ budget (limit - (c + 1)) n ≡ budget (limit - c) (suc n)
  unfolding budget
  budget_step c n = elim (Bool-cases (leb (c + 1) limit)) [
    | inl e ↦ let h : limit - c ≡ suc (limit - (c + 1)) = ground arith in rw (e, h) refl
    | inr e ↦
        let h : limit - c ≡ 0 = ground arith in
        let h' : limit - (c + 1) ≡ 0 = ground arith in rw (e, h, h') refl
  ]

  first_counter :
      (now ms : ℕ) (e : Option Counter)
      → live_count now e ≡ 0
      → some (hit_counter now ms e) ≡ some (record { count = 1; expires = some (now + ms) })
  first_counter now ms none h = refl
  first_counter now ms (some c) h = elim (Bool-cases (is_live now c.expires)) [
    | inl e ↦ let z : c.count ≡ 0 = rw e at h in rw (e, z) refl
    | inr e ↦ rw e refl
  ]

  module _ (k : Bytes) where
    abbrev pub counter : State → Option Counter
    counter s = entry s (bucket k)

    abbrev pub hit : State → ℕ → State × Bool × Bool
    hit s now = allow r answering s now k (pos limit) window

    -- The first hit of a window starts a counter that ends with the window.
    pub hit_first :
        (s : State) (now : ℕ)
        → live_count now (counter s) ≡ 0
        → (counter (hit s now).0 ≡ some (record { count = 1; expires = some (now + window_ms) }))
          × ((hit s now).1 ≡ leb 1 limit)
    unfolding allow
    hit_first s now h = (
      rw (entry-incr_expire r s now (bucket k) window_ms (bucket k), =ᵇ_refl (bucket k))
          (first_counter now window_ms (counter s) h),
      rw (incr_count s now (bucket k), h) refl,
    )

    -- A later one counts, and moves no deadline.
    pub hit_later :
        (s : State) (now c d : ℕ)
        → counter s ≡ some (record { count = c; expires = some d })
        → 1 ≤ c
        → now < d
        → (counter (hit s now).0 ≡ some (record { count = c + 1; expires = some d }))
          × ((hit s now).1 ≡ leb (c + 1) limit)
    unfolding allow
    hit_later s now c d h some_hit lt = (
      rw (entry-incr_expire r s now (bucket k) window_ms (bucket k), =ᵇ_refl (bucket k), h)
          (ground arith),
      rw (incr_count s now (bucket k), h, lt→ltb now d lt) refl,
    )

    pub hit_other :
        (s : State) (now : ℕ) (j : Bytes)
        → j =ᵇ k ≡ false
        → counter (allow r answering s now j (pos limit) window).0 ≡ counter s
    unfolding allow ◌=ᵇ◌
    hit_other s now j h = rw (entry-incr_expire r s now (bucket j) window_ms (bucket k)) (rw h refl)

    -- While its counter is live, a key has what is left of its budget.
    pub answers_live :
        (traffic : List (Bytes × ℕ)) (s : State) (c d : ℕ)
        → counter s ≡ some (record { count = c; expires = some d })
        → 1 ≤ c
        → Within k d traffic
        → answers k s traffic ≡ budget (limit - c) (hits_of k traffic)
    unfolding answers hits_of budget
    answers_live [] s c d h some_hit w = refl
    answers_live ((j, now) ∷ traffic) s c d h some_hit (here, w) = elim (Bool-cases (j =ᵇ k)) [
      | inl e ↦
          let eq = =ᵇ→eq j k e in
          let (counts, allowed) = hit_later s now c d h some_hit (here eq) in
          rw
            (
              eq,
              =ᵇ_refl k,
              allowed,
              answers_live traffic (hit s now).0 (c + 1) d counts (omega arith) w,
            )
            (budget_step c (hits_of k traffic))
      | inr e ↦ rw e (
          answers_live traffic (allow r answering s now j (pos limit) window).0 c d
            (hit_other s now j e ∙ h) some_hit w)
    ]

    pub counter_live :
        (traffic : List (Bytes × ℕ)) (s : State) (c d : ℕ)
        → counter s ≡ some (record { count = c; expires = some d })
        → 1 ≤ c
        → Within k d traffic
        → counter (after s traffic)
          ≡ some (record { count = c + hits_of k traffic; expires = some d })
    unfolding after hits_of
    counter_live [] s c d h some_hit w = let n : c + 0 ≡ c = omega arith in rw n h
    counter_live ((j, now) ∷ traffic) s c d h some_hit (here, w) = elim (Bool-cases (j =ᵇ k)) [
      | inl e ↦
          let eq = =ᵇ→eq j k e in
          let (counts, _) = hit_later s now c d h some_hit (here eq) in
          let n : c + 1 + hits_of k traffic ≡ c + suc (hits_of k traffic) = omega arith in
          rw (eq, =ᵇ_refl k, counter_live traffic (hit s now).0 (c + 1) d counts (omega arith) w, n)
            refl
      | inr e ↦ rw e (
          counter_live traffic (allow r answering s now j (pos limit) window).0 c d
            (hit_other s now j e ∙ h) some_hit w)
    ]

    -- While Redis answers, and with one limit and window for all hits: within a window a key is let
    -- through exactly as often as the limit says and then refused, whatever the traffic of the other
    -- keys. The window starts at the first hit that finds no live counter.
    pub allow_window :
        (s : State) (now : ℕ) (traffic : List (Bytes × ℕ))
        → live_count now (counter s) ≡ 0
        → Within k (now + window_ms) traffic
        → answers k s ((k, now) ∷ traffic) ≡ budget limit (suc (hits_of k traffic))
    unfolding answers
    allow_window s now traffic fresh w =
        let (counts, allowed) = hit_first s now fresh in
        let whole : limit - 0 ≡ limit = omega arith in
        rw
          (
            =ᵇ_refl k,
            allowed,
            answers_live traffic (hit s now).0 1 (now + window_ms) counts (omega arith) w,
          )
          (rw whole at (budget_step 0 (hits_of k traffic)))

    -- While Redis answers, and with one limit and window for all hits: no amount of traffic keeps a key
    -- out beyond its window, the first hit after it is let through.
    pub allow_again :
        (s : State) (now : ℕ) (traffic : List (Bytes × ℕ)) (later : ℕ)
        → live_count now (counter s) ≡ 0
        → Within k (now + window_ms) traffic
        → now + window_ms ≤ later
        → 1 ≤ limit
        → (hit (after s ((k, now) ∷ traffic)) later).1 ≡ true
    unfolding after
    allow_again s now traffic later fresh w past some_limit =
        let (counts, _) = hit_first s now fresh in
        let end = counter_live traffic (hit s now).0 1 (now + window_ms) counts (omega arith) w in
        let s' = after (hit s now).0 traffic in
        let gone : live_count later (counter s') ≡ 0 =
          rw (end, ltb-false later (now + window_ms) past) refl in
        (hit_first s' later gone).1 ∙ le→leb 1 limit some_limit
