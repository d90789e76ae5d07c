-- ===== src/Net/RateLimit/Window.antt =====
-- How many requests pass in a window of time.
use cherry_wiki.Base.{
  ℕ, suc, ◌+◌, ◌*◌, ◌≤◌, ◌<◌, true, List, [], ◌∷◌, ltb, leb, if◌then◌else◌, ◌≡◌, arith, Bool-cases,
  inl, inr,
}
use cherry_wiki.Net.RateLimit.{
  ScoreSet, no_scores, found_at, remove_old, RateLimitResult, rate_limit_script, mcp_check,
}
use cherry_wiki.Net.RateLimit.Alive.{
  in_window, alive, AllUpTo, AllUpTo-mono, in_window-alive, alive-remove_old, alive-le-length,
  alive_none,
}

-- A limiter: one check of a key, at a time.
abbrev pub Limiter : Type 0
Limiter = ℕ → ScoreSet → RateLimitResult × ScoreSet

-- The times at which requests passed, the newest first, and the key.
pub record Log : Type 0 where
  pub passed : List ℕ
  pub set : ScoreSet

abbrev pub empty_log : Log
empty_log = record { passed = []; set = no_scores }

abbrev pub record_answer : ℕ → RateLimitResult × ScoreSet → List ℕ → Log
record_answer now (answer, s) passed = record {
  passed = if answer.allowed then now ∷ passed else passed;
  set = s;
}

-- Requests at the given times.
unfoldable pub requests : Limiter → List ℕ → Log → Log
requests check [] log = log
requests check (now ∷ times) log =
    requests check times (record_answer now (check now log.set) log.passed)

-- Time does not go back.
abbrev pub IsOnward : ℕ → List ℕ → Type 0
IsOnward last [] = Unit
IsOnward last (now ∷ times) = (last ≤ now) × IsOnward now times

-- What the limiters have in common: a request passes only if with it a later window holds no more
-- than the limit, and the key keeps what a later window can hold.
pub record IsSound (window limit : ℕ) (check : Limiter) : Type 0 where
  pub admits :
      (now : ℕ) (s : ScoreSet) (t : ℕ)
      → now ≤ t
      → (check now s).0.allowed ≡ true
      → suc (alive window t (found_at t s).scores) ≤ limit
  pub keeps :
      (now : ℕ) (s : ScoreSet) (t : ℕ)
      → now ≤ t
      → t < now + window
      → alive window t (found_at t s).scores + (if (check now s).0.allowed then 1 else 0)
        ≤ alive window t (found_at t (check now s).1).scores

alive_found :
    (window now t : ℕ) (s : ScoreSet)
    → now ≤ t
    → alive window t (found_at t s).scores ≤ alive window t (found_at now s).scores
alive_found window now t s le = ground arith

pub script-IsSound :
    (window_sec limit : ℕ) → IsSound (window_sec * 1000) limit (rate_limit_script window_sec limit)
unfolding rate_limit_script
script-IsSound window_sec limit = record {
  admits = λ now s t le passes.
      let w = window_sec * 1000 in
      ground (
        arith,
        alive_found w now t s le,
        alive-remove_old w now t (found_at now s).scores le,
        alive-le-length w t (remove_old now w (found_at now s).scores),
      );
  keeps = λ now s t le near.
      let w = window_sec * 1000 in
      ground (arith, alive_found w now t s le, alive-remove_old w now t (found_at now s).scores le);
}

pub mcp-IsSound :
    (window_sec limit : ℕ)
    → 0 < window_sec
    → IsSound (window_sec * 1000) limit (mcp_check window_sec limit)
unfolding mcp_check
mcp-IsSound window_sec limit pos = record {
  admits = λ now s t le passes.
      let w = window_sec * 1000 in
      ground (
        arith,
        alive_found w now t s le,
        alive-remove_old w now t (found_at now s).scores le,
        alive-le-length w t (remove_old now w (found_at now s).scores),
      );
  keeps = λ now s t le near.
      let w = window_sec * 1000 in
      ground (arith, alive_found w now t s le, alive-remove_old w now t (found_at now s).scores le);
}

-- What is kept of the requests up to `last`: the limit in every window, and in the key all those
-- that a later window can hold.
pub record Counted (window limit last : ℕ) (log : Log) : Type 0 where
  pub bounded : (t : ℕ) → in_window window t log.passed ≤ limit
  pub covered :
      (t : ℕ) → last ≤ t → alive window t log.passed ≤ alive window t (found_at t log.set).scores
  pub past : AllUpTo last log.passed

-- Time passes with no request.
pub Counted-later :
    (window limit last now : ℕ) (log : Log)
    → last ≤ now
    → Counted window limit last log
    → Counted window limit now log
Counted-later window limit last now log le c = record {
  bounded = c.bounded;
  covered = λ t later. c.covered t (omega arith);
  past = AllUpTo-mono last now log.passed le c.past;
}

pub empty_log-Counted : (window limit : ℕ) → Counted window limit 0 empty_log
unfolding AllUpTo
empty_log-Counted window limit = record {
  bounded = λ u. omega arith;
  covered = λ u le. omega arith;
  past = tt;
}

module _ (window limit : ℕ) (check : Limiter) (sound : IsSound window limit check) where
  pub request-Counted :
      (last now : ℕ) (log : Log)
      → last ≤ now
      → Counted window limit last log
      → Counted window limit now (record_answer now (check now log.set) log.passed)
  unfolding AllUpTo
  request-Counted last now log le c = record {
    bounded = λ t. elim (Bool-cases (check now log.set).0.allowed) [
      | inr refused ↦ rw (refused, if◌then◌else◌) (c.bounded t)
      | inl passes ↦ elim (Bool-cases (leb now t)) [
        | inr early ↦ ground (arith, c.bounded t)
        | inl late ↦ ground (
          arith,
          in_window-alive window t log.passed,
          c.covered t (ground arith),
          sound.admits now log.set t (ground arith) passes,
        )
      ]
    ];
    covered = λ t later. elim (Bool-cases (ltb t (now + window))) [
      | inl near ↦
          ground (arith, c.covered t (omega arith), sound.keeps now log.set t later (ground arith))
      | inr far ↦ ground (
        arith,
        alive_none window now t log.passed (AllUpTo-mono last now log.passed le c.past)
            (ground arith),
      )
    ];
    past = ground (arith, AllUpTo-mono last now log.passed le c.past);
  }

  requests-Counted :
      (times : List ℕ) (last : ℕ) (log : Log)
      → IsOnward last times
      → Counted window limit last log
      → (t : ℕ) → in_window window t (requests check times log).passed ≤ limit
  unfolding requests
  requests-Counted [] last log onward c t = c.bounded t
  requests-Counted (now ∷ times) last log (le, onward) c t =
      requests-Counted times now (record_answer now (check now log.set) log.passed) onward
        (request-Counted last now log le c) t

  sound_limit :
      (times : List ℕ)
      → IsOnward 0 times
      → (t : ℕ) → in_window window t (requests check times empty_log).passed ≤ limit
  sound_limit times onward t =
      requests-Counted times 0 empty_log onward (empty_log-Counted window limit) t

-- Whenever requests of a key come and whatever their number, no window of time, wherever it ends, sees more of them pass the script of the rate limits than the limit, also across the expiry of the key.
pub rate_limit_bounded :
    (window_sec limit : ℕ) (times : List ℕ)
    → IsOnward 0 times
    → (t : ℕ)
    → in_window
        (window_sec * 1000)
        t
        (requests (rate_limit_script window_sec limit) times empty_log).passed
      ≤ limit
rate_limit_bounded window_sec limit times onward t =
    sound_limit (window_sec * 1000) limit (rate_limit_script window_sec limit)
      (script-IsSound window_sec limit) times onward t

-- Whenever calls of a tool come and whatever their number, no window of time sees more of them pass than the limit, where the window is not empty; refused calls count also.
pub mcp_bounded :
    (window_sec limit : ℕ) (times : List ℕ)
    → 0 < window_sec
    → IsOnward 0 times
    → (t : ℕ)
    → in_window (window_sec * 1000) t (requests (mcp_check window_sec limit) times empty_log).passed
      ≤ limit
mcp_bounded window_sec limit times pos onward t =
    sound_limit (window_sec * 1000) limit (mcp_check window_sec limit)
      (mcp-IsSound window_sec limit pos) times onward t
