-- ===== src/Net/RateLimit/Guards/Lanes.antt =====
-- How many requests pass the guard: each key, with the requests that are counted under it, is a lane.
use cherry_wiki.Base.{
  set_key, set_key-other, set_key-same, ℕ, ◌-◌, ◌≤◌, String, Bool, true, false, Option, some, List,
  [], ◌∷◌, map, All, if◌then◌else◌, ◌≡◌, ◌≢◌, refl, ap, sym, ◌∙◌, subst, arith, Bool-cases, ◌⊎◌,
  inl, inr,
}
use cherry_wiki.Net.RateLimit.{ScoreSet, no_scores, rate_limit_script}
use cherry_wiki.Net.RateLimit.Alive.{in_window}
use cherry_wiki.Net.RateLimit.Window.{
  Log, empty_log, record_answer, IsOnward, Counted, Counted-later, empty_log-Counted,
  request-Counted, script-IsSound,
}
use cherry_wiki.Net.RateLimit.Guards.{
  headers_of, RequestLike, BridgeRateLimitCheck, GuardAnswer, passes, rate_limited, Headers,
  check_from, bridge_can_activate,
}

abbrev pub is_passes : GuardAnswer → Bool
is_passes passes = true
is_passes (rate_limited check) = false

-- A request at a time.
pub record Arrival : Type 0 where
  pub at : ℕ
  pub request : RequestLike

-- The requests that passed, the newest first, and the keys.
pub record Served : Type 0 where
  pub passed : List Arrival
  pub store : String → ScoreSet

abbrev pub nothing_served : Served
nothing_served = record { passed = []; store = λ k. no_scores }

abbrev pub working : String → Bool
working k = false

abbrev serve_one : Arrival → Served → Served
serve_one a v =
    let c = bridge_can_activate working a.at a.request v.store in
    record { passed = if is_passes c.answer then a ∷ v.passed else v.passed; store = c.store }

-- Requests that come one after another, where no command of Redis is rejected.
pub serve : List Arrival → Served → Served
serve [] v = v
serve (a ∷ arrivals) v = serve arrivals (serve_one a v)

-- When the requests that satisfy a test came.
abbrev pub times_of : (RequestLike → Bool) → List Arrival → List ℕ
times_of p [] = []
times_of p (a ∷ arrivals) = if p a.request then a.at ∷ times_of p arrivals else times_of p arrivals

-- One request's effect on a key: none, where the request does not pass, or the script's, and then
-- the request passes only if the script lets it.
abbrev pub Lane : ℕ → ℕ → ℕ → ScoreSet → Bool → ScoreSet → Type 0
Lane window_sec limit now s passing s' =
    ((s' ≡ s) × (passing ≡ false))
    ⊎ ((s' ≡ (rate_limit_script window_sec limit now s).1)
        × (passing ≡ true → (rate_limit_script window_sec limit now s).0.allowed ≡ true))

module _ (now : ℕ) where
  pub unmoved :
      (k : String) (checks : List BridgeRateLimitCheck) (store : String → ScoreSet)
      (h : Option Headers)
      → All (λ c. c.key ≢ k) checks
      → (check_from working now checks store h).store k ≡ store k
  unmoved k [] store h ne = refl
  unmoved k (c ∷ checks) store h (ne, nes) =
      let (result, s) = rate_limit_script c.window_sec c.limit now (store c.key) in
      let here = set_key-other c.key k s store ne in
      elim (Bool-cases result.allowed) [
        | inl goes ↦
            rw (goes, if◌then◌else◌) (unmoved k checks (set_key c.key s store) _ nes ∙ here)
        | inr stays ↦ rw (stays, if◌then◌else◌) here
      ]

  -- The check of the key comes first.
  pub Lane-here :
      (c : BridgeRateLimitCheck) (checks : List BridgeRateLimitCheck) (store : String → ScoreSet)
      (h : Option Headers)
      → All (λ d. d.key ≢ c.key) checks
      → let after = check_from working now (c ∷ checks) store h in
        Lane c.window_sec c.limit now (store c.key) (is_passes after.answer) (after.store c.key)
  Lane-here c checks store h nes =
      let (result, s) = rate_limit_script c.window_sec c.limit now (store c.key) in
      let here = set_key-same c.key s store in
      elim (Bool-cases result.allowed) [
        | inl goes ↦ inr (
          rw (goes, if◌then◌else◌) (unmoved c.key checks (set_key c.key s store) _ nes ∙ here),
          λ e. goes,
        )
        | inr stays ↦ inr (rw (stays, if◌then◌else◌) here, λ e. absurd (ground arith))
      ]

  -- Another check comes before it.
  pub Lane-later :
      (k : String) (window_sec limit : ℕ) (c : BridgeRateLimitCheck)
      (checks : List BridgeRateLimitCheck) (store : String → ScoreSet) (h : Option Headers)
      → c.key ≢ k
      → ((store' : String → ScoreSet) (h' : Option Headers)
          → let after = check_from working now checks store' h' in
            Lane window_sec limit now (store' k) (is_passes after.answer) (after.store k))
      → let after = check_from working now (c ∷ checks) store h in
        Lane window_sec limit now (store k) (is_passes after.answer) (after.store k)
  Lane-later k window_sec limit c checks store h ne later =
      let (result, s) = rate_limit_script c.window_sec c.limit now (store c.key) in
      let here = set_key-other c.key k s store ne in
      elim (Bool-cases result.allowed) [
        | inl goes ↦
            let h' = some (headers_of c (c.limit - result.count)) in
            let after = check_from working now checks (set_key c.key s store) h' in
            rw (goes, if◌then◌else◌)
              (subst (λ z. Lane window_sec limit now z (is_passes after.answer) (after.store k))
                here (later (set_key c.key s store) h'))
        | inr stays ↦ inl (rw (stays, if◌then◌else◌) here, rw (stays, if◌then◌else◌))
      ]

-- The requests that satisfy the test are those that are counted under the key, each once.
pub record IsLane (k : String) (limit : ℕ) (p : RequestLike → Bool) : Type 0 where
  pub counts :
      (now : ℕ) (r : RequestLike) (store : String → ScoreSet)
      → p r ≡ true
      → let after = bridge_can_activate working now r store in
        Lane 60 limit now (store k) (is_passes after.answer) (after.store k)
  pub leaves :
      (now : ℕ) (r : RequestLike) (store : String → ScoreSet)
      → p r ≡ false
      → (bridge_can_activate working now r store).store k ≡ store k

-- The script's own record of a key, which has all the requests of the lane that passed.
record Covers (k : String) (limit : ℕ) (p : RequestLike → Bool) (last : ℕ) (v : Served)
    : Type 0 where
  log : Log
  is_key : log.set ≡ v.store k
  counted : Counted 60000 limit last log
  above : (t : ℕ) → in_window 60000 t (times_of p v.passed) ≤ in_window 60000 t log.passed

module _ (k : String) (limit : ℕ) (p : RequestLike → Bool) (lane : IsLane k limit p) where
  serve_one-Covers :
      (last : ℕ) (a : Arrival) (v : Served)
      → last ≤ a.at
      → Covers k limit p last v
      → Covers k limit p a.at (serve_one a v)
  serve_one-Covers last a v le c =
      let counted = Counted-later 60000 limit last a.at c.log le c.counted in
      elim (Bool-cases (p a.request)) [
        | inr not_here ↦ record {
          log = c.log;
          is_key = c.is_key ∙ sym (lane.leaves a.at a.request v.store not_here);
          counted = counted;
          above = λ t. ground (arith, c.above t);
        }
        | inl here ↦ elim (lane.counts a.at a.request v.store here) [
          | inl (same, refused) ↦ record {
            log = c.log;
            is_key = c.is_key ∙ sym same;
            counted = counted;
            above = λ t. rw (refused, if◌then◌else◌) (c.above t);
          }
          | inr (moved, admits) ↦
              let answer = rate_limit_script 60 limit a.at c.log.set in
              record {
                log = record_answer a.at answer c.log.passed;
                is_key = ap (λ s. (rate_limit_script 60 limit a.at s).1) c.is_key ∙ sym moved;
                counted =
                    request-Counted 60000 limit (rate_limit_script 60 limit)
                      (script-IsSound 60 limit) last a.at c.log le c.counted;
                above = λ t.
                    let allowed =
                      ap (λ s. (rate_limit_script 60 limit a.at s).0.allowed) c.is_key in
                    elim (Bool-cases
                      (is_passes (bridge_can_activate working a.at a.request v.store).answer)) [
                        | inl goes ↦
                            let through = allowed ∙ admits goes in
                            rw (goes, through, here, if◌then◌else◌) (omega (arith, c.above t))
                        | inr stays ↦ rw (stays, if◌then◌else◌) (ground (arith, c.above t))
                      ];
              }
        ]
      ]

  serve-Covers :
      (arrivals : List Arrival) (last : ℕ) (v : Served)
      → IsOnward last (map (λ a. a.at) arrivals)
      → Covers k limit p last v
      → (t : ℕ) → in_window 60000 t (times_of p (serve arrivals v).passed) ≤ limit
  unfolding serve
  serve-Covers [] last v onward c t = let b = c.counted.bounded t in omega (arith, c.above t, b)
  serve-Covers (a ∷ arrivals) last v (le, onward) c t =
      serve-Covers arrivals a.at (serve_one a v) onward (serve_one-Covers last a v le c) t

  pub lane_bounded :
      (arrivals : List Arrival)
      → IsOnward 0 (map (λ a. a.at) arrivals)
      → (t : ℕ) → in_window 60000 t (times_of p (serve arrivals nothing_served).passed) ≤ limit
  lane_bounded arrivals onward t =
      serve-Covers arrivals 0 nothing_served onward
        (record {
          log = empty_log;
          is_key = refl;
          counted = empty_log-Counted 60000 limit;
          above = λ u. omega arith;
        })
        t
