-- ===== src/Net/RateLimit/Guards.antt =====
-- BridgeRateLimitGuard of apps/api/src/bridge/bridge-rate-limit.guard.ts. The sorted sets of Redis are
-- a function of their keys. A command may be rejected, then it changes nothing.
pub mod Keys
pub mod Lanes
pub mod Bounded
use cherry_wiki.Base.{
  set_key, ℕ, ◌-◌, String, Bool, true, false, Option, none, some, List, [], ◌∷◌, ◌=ₛ◌,
  if◌then◌else◌,
}
use Prim.Native.String.{◌++◌ as ◌+++◌}
use cherry_wiki.Net.RateLimit.{ScoreSet, RateLimitResult, rate_limit_script}

-- Of the request, what the guard reads: the addresses by which it may be known, and the member
-- `space_id` of its body where that is a text.
pub record RequestLike : Type 0 where
  pub ip : Option String
  pub raw_ip : Option String
  pub raw_remote_address : Option String
  pub remote_address : Option String
  pub body_space_id : Option String

pub data Dimension : Type 0 where
  global ip space : Dimension

pub record BridgeRateLimitCheck : Type 0 where
  pub dimension : Dimension
  pub key : String
  pub limit : ℕ
  pub window_sec : ℕ
  pub identifier : String

-- `a || b`, on texts: the empty one counts as missing.
abbrev or_text : Option String → String → String
or_text none other = other
or_text (some s) other = if s =ₛ "" then other else s

unfoldable pub get_ip_address : RequestLike → String
get_ip_address r =
    or_text r.ip
      (or_text r.raw_ip (or_text r.raw_remote_address (or_text r.remote_address "unknown")))

-- `getSpaceId(body) ?? 'none'`.
unfoldable pub get_space_id : RequestLike → String
get_space_id r = or_text r.body_space_id "none"

abbrev pub global_key : String
global_key = "bridge:ratelimit:global:60:1000"

abbrev pub ip_key : String → String
ip_key a = "bridge:ratelimit:ip:" +++ (a +++ ":60:100")

abbrev pub space_key : String → String
space_key a = "bridge:ratelimit:space:" +++ (a +++ ":60:200")

abbrev pub global_check : BridgeRateLimitCheck
global_check = record {
  dimension = global;
  key = global_key;
  identifier = "global";
  limit = 1000;
  window_sec = 60;
}

abbrev pub ip_check : String → BridgeRateLimitCheck
ip_check a = record { dimension = ip; key = ip_key a; identifier = a; limit = 100; window_sec = 60 }

abbrev pub space_check : String → BridgeRateLimitCheck
space_check a = record {
  dimension = space;
  key = space_key a;
  identifier = a;
  limit = 200;
  window_sec = 60;
}

unfoldable pub get_rate_limit_checks : RequestLike → List BridgeRateLimitCheck
get_rate_limit_checks r =
    global_check ∷ ip_check (get_ip_address r) ∷ space_check (get_space_id r) ∷ []

pub record Headers : Type 0 where
  pub limit : ℕ
  pub remaining : ℕ
  pub retry_after : ℕ

-- The guard's answer: true, or the exception RATE_LIMITED, which the check that found it caused.
pub data GuardAnswer : Type 0 where
  passes : GuardAnswer
  rate_limited : BridgeRateLimitCheck → GuardAnswer

pub record Checked : Type 0 where
  pub answer : GuardAnswer
  pub store : String → ScoreSet
  pub headers : Option Headers

abbrev pub headers_of : BridgeRateLimitCheck → ℕ → Headers
headers_of check remaining = record {
  limit = check.limit;
  remaining = remaining;
  retry_after = check.window_sec;
}

module _ (is_rejected : String → Bool) (now : ℕ) where
  -- The loop of `canActivate`; a rejected command ends it, and the request passes.
  abbrev pub check_from : List BridgeRateLimitCheck → (String → ScoreSet) → Option Headers → Checked
  check_from [] store headers = record { answer = passes; store = store; headers = headers }
  check_from (check ∷ checks) store headers =
      let (result, s) = rate_limit_script check.window_sec check.limit now (store check.key) in
      let store' = set_key check.key s store in
      let rest = check_from checks store' (some (headers_of check (check.limit - result.count))) in
      if is_rejected check.key
      then record { answer = passes; store = store; headers = headers }
      else (if result.allowed then rest else record {
        answer = rate_limited check;
        store = store';
        headers = some (headers_of check 0);
      })

  -- `canActivate`, where Redis is there.
  unfoldable pub bridge_can_activate : RequestLike → (String → ScoreSet) → Checked
  unfolding get_rate_limit_checks
  bridge_can_activate r store = check_from (get_rate_limit_checks r) store none
