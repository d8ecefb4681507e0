-- ===== src/Identity/Limiter/Bounds.antt =====
-- Counters stay within the limits of their keys (internal/modules/identity/redis/rate_limiter.go).
use cv_agent.Base.{
  ℕ, ◌<◌, ◌≤◌, String, ◌≡◌, refl, sym, ◌∙◌, subst, true, false, some, List, [], ◌∷◌, All, str_eq,
  str_eq→eq, leb, Bool-cases, inl, inr, arith,
}
use cv_agent.Db.Ensures.{Ensures-exec_if}
use cv_agent.Db.Pool.{World, statement}
use cv_agent.Db.Pool.Rules.{Keeps, Keeps-statement}
use cv_agent.Identity.Domain.{internal}
use cv_agent.Identity.Store.{Counter, AuthStore}
use cv_agent.Identity.Limiter.{
  RateLimitRule, find_counter, live_count, get, counted, count_up, milliseconds, any_full,
  count_all, run_script, invalid_rule, script, allow,
}
use cv_agent.Identity.Limiter.Windows.{Apart, counts_reflexive, others_same}

-- No counter is above the limit of its key, whether its window is over or not.
abbrev pub InLimits : (String → ℕ) → List Counter → Type 0
InLimits limit_of = All (λ c. c.count ≤ limit_of c.key)

-- Rules of different keys, each with the limit of its key or less.
unfoldable pub OfLimits : (String → ℕ) → List RateLimitRule → Type 0
OfLimits limit_of [] = Unit {0}
OfLimits limit_of (r ∷ rs) = Apart r.key rs × (r.limit ≤ limit_of r.key) × OfLimits limit_of rs

module _ (limit_of : String → ℕ) where
  counted_within :
      (now ttl : ℕ) (c : Counter)
      → live_count now (some c) < limit_of c.key
      → (counted now ttl c).count ≤ limit_of (counted now ttl c).key
  counted_within now ttl c h = ground arith

  InLimits-count_up :
      (key : String) (now ttl : ℕ) (cs : List Counter)
      → get key now cs < limit_of key
      → InLimits limit_of cs
      → InLimits limit_of (count_up key now ttl cs)
  unfolding count_up find_counter
  InLimits-count_up key now ttl [] h k = (ground arith, tt)
  InLimits-count_up key now ttl (c ∷ cs) h (small, k) = elim (Bool-cases (str_eq c.key key)) [
    | inl p ↦
        let below : live_count now (some c) < limit_of c.key =
          subst (λ x. live_count now (some c) < limit_of x) (sym (str_eq→eq c.key key p))
            (rw p at h) in
        rw p (counted_within now ttl c below, k)
    | inr p ↦ rw p (small, InLimits-count_up key now ttl cs (rw p at h) k)
  ]

  InLimits-count_all :
      (now : ℕ) (rules : List RateLimitRule) (cs before : List Counter)
      → OfLimits limit_of rules
      → any_full now rules before ≡ false
      → All (λ r. get r.key now cs ≡ get r.key now before) rules
      → InLimits limit_of cs
      → InLimits limit_of (count_all now rules cs)
  unfolding OfLimits any_full count_all
  InLimits-count_all now [] cs before a h same k = k
  InLimits-count_all now (r ∷ rs) cs before (apart, within, a) h (is, same) k =
      elim (Bool-cases (leb r.limit (get r.key now before))) [
        | inl p ↦ absurd (true-false (sym (rw p refl) ∙ h))
        | inr p ↦
            InLimits-count_all now rs (count_up r.key now (milliseconds r.window) cs) before a
              (sym (rw p refl) ∙ h)
              (others_same r now (milliseconds r.window) cs before rs apart same)
              (InLimits-count_up r.key now (milliseconds r.window) cs (ground arith) k)
      ]
    where
      true-false : true ≡ false → ⊥
      true-false e = cc

  -- No call with rules of different keys, each within the limit of its key, brings a counter above the
  -- limit of its key, at any time and whatever happens to the call.
  pub allow-InLimits :
      (now : ℕ) (rules : List RateLimitRule) (w : World AuthStore)
      → OfLimits limit_of rules
      → InLimits limit_of w.store.counters
      → InLimits limit_of (allow now rules w).1.store.counters
  unfolding allow
  allow-InLimits now [] w a k = k
  allow-InLimits now (r ∷ rs) w a k = elim (Bool-cases (invalid_rule (r ∷ rs))) [
    | inl p ↦ rw p k
    | inr p ↦ rw p (by_script.at w k)
  ]
    where
      by_script :
          Keeps (λ s. InLimits limit_of s.counters) (statement internal (script now (r ∷ rs)))
      by_script = Keeps-statement _ internal (script now (r ∷ rs)) λ s n k.
          Ensures-exec_if internal internal _ (λ s. false) (run_script now (r ∷ rs))
            λ m h. (elim (Bool-cases (any_full now (r ∷ rs) s.counters)) [
              | inl p ↦ rw p k
              | inr p ↦ rw p (
                  InLimits-count_all now (r ∷ rs) s.counters s.counters a p
                    (counts_reflexive now s.counters (r ∷ rs)) k)
            ])
