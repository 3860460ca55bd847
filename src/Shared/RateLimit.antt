-- ===== src/Shared/RateLimit.antt =====
-- packages/shared/src/middleware/rate-limit.ts: the presets, the key that requests are counted under
-- and the answer to one request too many. The plugin @fastify/rate-limit counts; the text of a
-- number is an argument.
use zk_dpp_royalty_protocol.Common.{
  ℕ, ◌+◌, ◌*◌, ◌/◌, ◌≤◌, ◌<◌, String, Bool, true, ◌||◌, ◌≡◌, refl, Option, List, [], ◌∷◌, ◌++◌,
  ◌==◌, includes, or_text, or_else, arith, eq_iff, if◌then◌else◌,
}
use zk_dpp_royalty_protocol.Predicates.{◌⧺◌}

pub record RateLimit : Type 0 where
  pub max : ℕ
  pub time_window : ℕ

pub data RateLimitPreset : Type 0 where
  public_routes authenticated verification dpp settlement strict : RateLimitPreset

abbrev of_max : ℕ → RateLimit
of_max max = record { max = max; time_window = 60_000 }

abbrev pub rate_limit_presets : RateLimitPreset → RateLimit
rate_limit_presets public_routes = of_max 100
rate_limit_presets authenticated = of_max 1000
rate_limit_presets verification = of_max 100
rate_limit_presets dpp = of_max 500
rate_limit_presets settlement = of_max 50
rate_limit_presets strict = of_max 10

-- The parts of a request that the key depends on: `user?.id` and `ip`.
pub record Caller : Type 0 where
  pub user_id : Option String
  pub ip : String

-- The options of `registerRateLimit` that a caller may leave out.
abbrev pub registered_limit : (max time_window : Option ℕ) → RateLimit
registered_limit max time_window = record {
  max = or_else max (rate_limit_presets public_routes).max;
  time_window = or_else time_window (rate_limit_presets public_routes).time_window;
}

unfoldable pub default_key_generator : Caller → String
default_key_generator c = or_text c.user_id c.ip

pub record ErrorResponse : Type 0 where
  pub error : String
  pub code : String
  pub message : String
  pub limit : ℕ
  pub remaining : ℕ
  pub retry_after_ms : ℕ

-- `Math.ceil(ttl / 1000)`
unfoldable pub ceil_seconds : (ttl : ℕ) → ℕ
ceil_seconds ttl = (ttl + 999) / 1000

unfoldable pub error_response_builder : (show : ℕ → String) (max ttl : ℕ) → ErrorResponse
error_response_builder show max ttl = record {
  error = "RateLimitError";
  code = "ZKDPP-RL-800";
  message = "Rate limit exceeded. Try again in " ⧺ show (ceil_seconds ttl) ⧺ " seconds.";
  limit = max;
  remaining = 0;
  retry_after_ms = ttl;
}

pub create_route_rate_limit : RateLimitPreset → RateLimit
create_route_rate_limit preset = rate_limit_presets preset

pub create_custom_route_rate_limit : (max time_window_ms : ℕ) → RateLimit
create_custom_route_rate_limit max time_window_ms = record {
  max = max;
  time_window = time_window_ms;
}

-- The set `ipWhitelist`, which the functions below have as an argument.
abbrev pub ip_whitelist : List String
ip_whitelist = "127.0.0.1" ∷ "::1" ∷ []

unfoldable pub is_whitelisted : List String → (ip : String) → Bool
is_whitelisted whitelist ip = includes whitelist ip

unfoldable pub add_to_whitelist : List String → (ip : String) → List String
add_to_whitelist whitelist ip = if includes whitelist ip then whitelist else whitelist ++ ip ∷ []

unfoldable pub whitelist_aware_key_generator : List String → Caller → String
whitelist_aware_key_generator whitelist c =
    if is_whitelisted whitelist c.ip then "__whitelisted__" else default_key_generator c

-- The seconds in the message are enough, and no more than one second too many.
pub ceil_seconds_bounds :
    (ttl : ℕ) → (ttl ≤ ceil_seconds ttl * 1000) × (ceil_seconds ttl * 1000 < ttl + 1000)
unfolding ceil_seconds
ceil_seconds_bounds ttl = (omega arith, omega arith)

includes-concat :
    (xs : List String) (x y : String) → includes (xs ++ x ∷ []) y ≡ (includes xs y || x == y)
includes-concat [] x y = ground arith
includes-concat (z ∷ xs) x y = ground (arith, includes-concat xs x y)

-- Exactly the address that is added, and those that were there, are whitelisted afterwards.
pub is_whitelisted-add_to_whitelist :
    (whitelist : List String) (added ip : String)
    → is_whitelisted (add_to_whitelist whitelist added) ip
      ≡ (is_whitelisted whitelist ip || added == ip)
unfolding is_whitelisted add_to_whitelist
is_whitelisted-add_to_whitelist whitelist added ip =
    ground (arith, includes-concat whitelist added ip, eq_iff added ip)

-- All whitelisted callers are counted under one key.
pub whitelisted-share_key :
    (whitelist : List String) (a b : Caller)
    → is_whitelisted whitelist a.ip ≡ true
    → is_whitelisted whitelist b.ip ≡ true
    → whitelist_aware_key_generator whitelist a ≡ whitelist_aware_key_generator whitelist b
unfolding whitelist_aware_key_generator
whitelisted-share_key whitelist a b h k = rw (h, k) refl
