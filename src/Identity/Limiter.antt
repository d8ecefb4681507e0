-- ===== src/Identity/Limiter.antt =====
-- internal/modules/identity/redis/rate_limiter.go: the script of counters that end with their window.
-- A script runs in Redis as one command, and a key is there until its expiry has passed.
pub mod Bounds
pub mod Windows
use cv_agent.Base.{
  ℕ, ◌+◌, ◌/◌, String, Bool, true, false, ◌&&◌, ◌||◌, Option, none, some, List, [], ◌∷◌, str_eq,
  is_empty, ltb, leb, ◌==◌, if◌then◌else◌,
}
use cv_agent.Db.{ok, err, exec}
use cv_agent.Db.Pool.{answer, statement}
use cv_agent.Identity.Domain.{internal}
use cv_agent.Identity.Store.{Counter, AuthStore, Act, Call}

-- `RateLimitRule`. A limit below zero is 0 here, and a window in nanoseconds too: both are refused.
pub record RateLimitRule : Type 0 where
  pub key : String
  pub limit : ℕ
  pub window : ℕ

unfoldable pub find_counter : String → List Counter → Option Counter
find_counter key [] = none
find_counter key (c ∷ cs) = if str_eq c.key key then some c else find_counter key cs

-- GET key, or '0'
abbrev pub live_count : ℕ → Option Counter → ℕ
live_count now none = 0
live_count now (some c) = if leb now c.expires_ms then c.count else 0

abbrev pub get : String → ℕ → List Counter → ℕ
get key now cs = live_count now (find_counter key cs)

-- if current == 1 then PEXPIRE
abbrev pub expire_new : ℕ → Counter → Counter
expire_new until c = if c.count == 1 then record c { expires_ms = until } else c

-- What INCR and PEXPIRE make of the row of a key: one that has expired begins again.
abbrev pub counted : ℕ → ℕ → Counter → Counter
counted now ttl c =
    expire_new (now + ttl)
      (if leb now c.expires_ms then record c { count = c.count + 1 } else record c { count = 1 })

unfoldable pub count_up : String → ℕ → ℕ → List Counter → List Counter
count_up key now ttl [] =
    expire_new (now + ttl) (record { key = key; count = 1; expires_ms = 0 }) ∷ []
count_up key now ttl (c ∷ cs) =
    let rest = count_up key now ttl cs in
    if str_eq c.key key then counted now ttl c ∷ cs else c ∷ rest

-- `Window.Milliseconds()`
abbrev pub milliseconds : ℕ → ℕ
milliseconds window = window / 1000000

-- The first loop of the script: whether a counter has reached its limit.
unfoldable pub any_full : ℕ → List RateLimitRule → List Counter → Bool
any_full now [] cs = false
any_full now (r ∷ rs) cs = if leb r.limit (get r.key now cs) then true else any_full now rs cs

-- The second loop.
unfoldable pub count_all : ℕ → List RateLimitRule → List Counter → List Counter
count_all now [] cs = cs
count_all now (r ∷ rs) cs = count_all now rs (count_up r.key now (milliseconds r.window) cs)

abbrev pub run_script : ℕ → List RateLimitRule → AuthStore → Bool × AuthStore
run_script now rules s =
    if any_full now rules s.counters
    then (false, s)
    else (true, record s { counters = count_all now rules s.counters })

unfoldable pub invalid_rule : List RateLimitRule → Bool
invalid_rule [] = false
invalid_rule (r ∷ rs) =
    if is_empty r.key || ltb r.limit 1 || leb r.window 0 then true else invalid_rule rs

abbrev pub script : ℕ → List RateLimitRule → Act Bool
script now rules = exec internal internal λ s. some (run_script now rules s)

-- `Allow`, where the clock of Redis reads `now` milliseconds.
unfoldable pub allow : ℕ → List RateLimitRule → Call Bool
unfolding any_full count_all invalid_rule
allow now [] = answer (ok true)
allow now (r ∷ rs) =
    if invalid_rule (r ∷ rs)
    then answer (err internal)
    else statement internal (script now (r ∷ rs))
