-- ===== src/Net/RateLimit/Guards/Bounded.antt =====
-- The three lanes of the guard, and how many requests pass in each.
use cherry_wiki.Base.{
  ℕ, ◌≤◌, String, true, none, List, [], ◌∷◌, map, ◌=ₛ◌, sym, subst, arith, eq_iff,
}
use cherry_wiki.Net.RateLimit.{ScoreSet}
use cherry_wiki.Net.RateLimit.Alive.{in_window}
use cherry_wiki.Net.RateLimit.Window.{IsOnward}
use cherry_wiki.Net.RateLimit.Guards.{
  RequestLike, bridge_can_activate, get_rate_limit_checks, get_ip_address, get_space_id, global_key,
  ip_key, space_key, global_check, ip_check, space_check,
}
use cherry_wiki.Net.RateLimit.Guards.Keys.{
  global-ne-ip, global-ne-space, ip-ne-space, ip_key-injective, space_key-injective,
}
use cherry_wiki.Net.RateLimit.Guards.Lanes.{
  is_passes, Arrival, serve, nothing_served, times_of, working, Lane, unmoved, Lane-here,
  Lane-later, IsLane, lane_bounded,
}

global-IsLane : IsLane global_key 1000 (λ r. true)
unfolding bridge_can_activate get_rate_limit_checks
global-IsLane = record {
  counts = λ now r store e.
      let a = get_ip_address r in
      let b = get_space_id r in
      Lane-here now global_check (ip_check a ∷ space_check b ∷ []) store none
        ((λ q. global-ne-ip a (sym q)), ((λ q. global-ne-space b (sym q)), tt));
  leaves = λ now r store e. absurd (ground arith);
}

ip-Lane :
    (now : ℕ) (r : RequestLike) (store : String → ScoreSet)
    → let after = bridge_can_activate working now r store in
      let k = ip_key (get_ip_address r) in
      Lane 60 100 now (store k) (is_passes after.answer) (after.store k)
unfolding bridge_can_activate get_rate_limit_checks
ip-Lane now r store =
    let a = get_ip_address r in
    let b = get_space_id r in
    Lane-later now (ip_key a) 60 100 global_check (ip_check a ∷ space_check b ∷ []) store none
      (global-ne-ip a)
      (λ store' h.
        Lane-here now (ip_check a) (space_check b ∷ []) store' h
          ((λ q. ip-ne-space a b (sym q)), tt))

ip-IsLane : (a : String) → IsLane (ip_key a) 100 (λ r. get_ip_address r =ₛ a)
unfolding bridge_can_activate get_rate_limit_checks
ip-IsLane a = record {
  counts = λ now r store e.
      let after = bridge_can_activate working now r store in
      subst
        (λ b. Lane 60 100 now (store (ip_key b)) (is_passes after.answer) (after.store (ip_key b)))
        ((eq_iff (get_ip_address r) a).0 e) (ip-Lane now r store);
  leaves = λ now r store e.
      let x = get_ip_address r in
      let y = get_space_id r in
      unmoved now (ip_key a) (global_check ∷ ip_check x ∷ space_check y ∷ []) store none (
        global-ne-ip a,
        (
          (λ q. absurd (ground (arith, eq_iff x a, ip_key-injective x a q))),
          ((λ q. ip-ne-space a y (sym q)), tt),
        ),
      );
}

space-Lane :
    (now : ℕ) (r : RequestLike) (store : String → ScoreSet)
    → let after = bridge_can_activate working now r store in
      let k = space_key (get_space_id r) in
      Lane 60 200 now (store k) (is_passes after.answer) (after.store k)
unfolding bridge_can_activate get_rate_limit_checks
space-Lane now r store =
    let a = get_ip_address r in
    let b = get_space_id r in
    let k = space_key b in
    Lane-later now k 60 200 global_check (ip_check a ∷ space_check b ∷ []) store none
      (global-ne-space b)
      (λ store' h.
        Lane-later now k 60 200 (ip_check a) (space_check b ∷ []) store' h (ip-ne-space a b)
          (λ store'' h'. Lane-here now (space_check b) [] store'' h' tt))

space-IsLane : (a : String) → IsLane (space_key a) 200 (λ r. get_space_id r =ₛ a)
unfolding bridge_can_activate get_rate_limit_checks
space-IsLane a = record {
  counts = λ now r store e.
      let after = bridge_can_activate working now r store in
      subst
        (λ b.
          Lane 60 200 now (store (space_key b)) (is_passes after.answer)
            (after.store (space_key b)))
        ((eq_iff (get_space_id r) a).0 e) (space-Lane now r store);
  leaves = λ now r store e.
      let x = get_ip_address r in
      let y = get_space_id r in
      unmoved now (space_key a) (global_check ∷ ip_check x ∷ space_check y ∷ []) store none (
        global-ne-space a,
        (
          ip-ne-space x a,
          ((λ q. absurd (ground (arith, eq_iff y a, space_key-injective y a q))), tt),
        ),
      );
}

-- As long as Redis answers, no window of sixty seconds, wherever it ends, sees the bridge's guard pass more than 1000 requests, more than 100 from one address, or more than 200 for one space, whatever requests come and in whatever order.
pub bridge_bounded :
    (arrivals : List Arrival)
    → IsOnward 0 (map (λ a. a.at) arrivals)
    → (t : ℕ)
    → let passed = (serve arrivals nothing_served).passed in
      (in_window 60000 t (times_of (λ r. true) passed) ≤ 1000)
      × ((a : String) → in_window 60000 t (times_of (λ r. get_ip_address r =ₛ a) passed) ≤ 100)
      × ((a : String) → in_window 60000 t (times_of (λ r. get_space_id r =ₛ a) passed) ≤ 200)
bridge_bounded arrivals onward t = (
  lane_bounded global_key 1000 (λ r. true) global-IsLane arrivals onward t,
  λ a. lane_bounded (ip_key a) 100 (λ r. get_ip_address r =ₛ a) (ip-IsLane a) arrivals onward t,
  λ a. lane_bounded (space_key a) 200 (λ r. get_space_id r =ₛ a) (space-IsLane a) arrivals onward t,
)
