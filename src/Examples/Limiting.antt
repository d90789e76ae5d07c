-- ===== src/Examples/Limiting.antt =====
-- The rate limits at a few requests.
use cherry_wiki.Base.{ℕ, ◌≤◌, String, true, none, some, List, [], ◌∷◌, ◌=ₛ◌, ◌≡◌, refl, arith}
use cherry_wiki.Net.RateLimit.{rate_limit_script, mcp_check}
use cherry_wiki.Net.RateLimit.Alive.{in_window}
use cherry_wiki.Net.RateLimit.Window.{requests, empty_log}
use cherry_wiki.Net.RateLimit.Guards.{RequestLike, get_ip_address, get_space_id}
use cherry_wiki.Net.RateLimit.Guards.Lanes.{Arrival, serve, nothing_served, times_of}
use cherry_wiki.Net.RateLimit.Guards.Bounded.{bridge_bounded}

-- Three requests in one second and one after it, where two a second may pass.
abbrev times : List ℕ
times = 0 ∷ 400 ∷ 900 ∷ 1000 ∷ []

script_passes : (requests (rate_limit_script 1 2) times empty_log).passed ≡ 1000 ∷ 400 ∷ 0 ∷ []
unfolding requests rate_limit_script
script_passes = refl

-- The refused call counts, so that the last is refused also.
mcp_passes : (requests (mcp_check 1 2) times empty_log).passed ≡ 400 ∷ 0 ∷ []
unfolding requests mcp_check
mcp_passes = refl

abbrev from_a : RequestLike
from_a = record {
  ip = some "a";
  raw_ip = none;
  raw_remote_address = none;
  remote_address = none;
  body_space_id = some "s";
}

abbrev arrivals : List Arrival
arrivals = record { at = 5; request = from_a } ∷ record { at = 8; request = from_a } ∷ []

bridge_bounded_example :
    let passed = (serve arrivals nothing_served).passed in
    (in_window 60000 10 (times_of (λ r. true) passed) ≤ 1000)
    × ((a : String) → in_window 60000 10 (times_of (λ r. get_ip_address r =ₛ a) passed) ≤ 100)
    × ((a : String) → in_window 60000 10 (times_of (λ r. get_space_id r =ₛ a) passed) ≤ 200)
bridge_bounded_example = bridge_bounded arrivals (omega arith, (omega arith, tt)) 10
