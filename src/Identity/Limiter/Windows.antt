-- ===== src/Identity/Limiter/Windows.antt =====
-- What the rate limiter counts (internal/modules/identity/redis/rate_limiter.go).
use cv_agent.Base.{
  ℕ, ◌+◌, ◌<◌, ◌≤◌, String, ◌≡◌, refl, sym, ◌∙◌, ap, subst, ◌⊎◌, Bool, true, false, some, List, [],
  ◌∷◌, All, str_eq, str_eq→eq, str_eq_self, leb, leb→le, Bool-cases, inl, inr, arith,
}
use cv_agent.Db.{Result, ok, err}
use cv_agent.Db.Ensures.{Ensures, Ensures-exec_if}
use cv_agent.Db.Pool.{World, statement}
use cv_agent.Db.Pool.Rules.{Returns-statement}
use cv_agent.Identity.Domain.{AuthError, internal}
use cv_agent.Identity.Store.{Counter, AuthStore}
use cv_agent.Identity.Limiter.{
  RateLimitRule, find_counter, live_count, get, counted, count_up, milliseconds, any_full,
  count_all, run_script, invalid_rule, script, allow,
}

counted-key : (now ttl : ℕ) (c : Counter) → (counted now ttl c).key ≡ c.key
counted-key now ttl c = ground arith

counted-live_count :
    (now ttl : ℕ) (c : Counter)
    → 0 < ttl
    → live_count now (some (counted now ttl c)) ≡ live_count now (some c) + 1
counted-live_count now ttl c h = ground arith

str_eq_flip : (s t : String) → str_eq s t ≡ false → str_eq t s ≡ false
str_eq_flip s t h = elim (Bool-cases (str_eq t s)) [
  | inl p ↦ absurd (true-false (sym (str_eq_self s) ∙ ap (str_eq s) (sym (str_eq→eq t s p)) ∙ h))
  | inr p ↦ p
]
  where
    true-false : true ≡ false → ⊥
    true-false e = cc

-- Counting up one key leaves the others.
pub find-count_up_other :
    (k key : String) (now ttl : ℕ) (cs : List Counter)
    → str_eq key k ≡ false
    → find_counter k (count_up key now ttl cs) ≡ find_counter k cs
unfolding find_counter count_up
find-count_up_other k key now ttl [] h = rw h refl
find-count_up_other k key now ttl (c ∷ cs) h = elim (Bool-cases (str_eq c.key key)) [
  | inl p ↦
      let other : str_eq c.key k ≡ false =
        subst (λ x. str_eq x k ≡ false) (sym (str_eq→eq c.key key p)) h in
      rw (p, counted-key now ttl c, other) refl
  | inr p ↦ elim (Bool-cases (str_eq c.key k)) [
    | inl q ↦ rw (p, q) refl
    | inr q ↦ rw (p, q) (find-count_up_other k key now ttl cs h)
  ]
]

-- Counting up a key within a window that is not empty adds one to it.
get-count_up :
    (key : String) (now ttl : ℕ) (cs : List Counter)
    → 0 < ttl
    → get key now (count_up key now ttl cs) ≡ get key now cs + 1
unfolding find_counter count_up
get-count_up key now ttl [] h = rw (str_eq_self key, fresh) refl
  where
    fresh : leb now (now + ttl) ≡ true
    fresh = ground arith
get-count_up key now ttl (c ∷ cs) h = elim (Bool-cases (str_eq c.key key)) [
  | inl p ↦ rw (p, counted-key now ttl c, p) (counted-live_count now ttl c h)
  | inr p ↦ rw (p, p) (get-count_up key now ttl cs h)
]

-- The keys of one call differ, and their windows last a millisecond or more.
abbrev pub Apart : String → List RateLimitRule → Type 0
Apart key = All (λ r. str_eq r.key key ≡ false)

unfoldable pub AllApart : List RateLimitRule → Type 0
AllApart [] = Unit {0}
AllApart (r ∷ rs) = Apart r.key rs × (0 < milliseconds r.window) × AllApart rs

get-count_all_other :
    (key : String) (now : ℕ) (rules : List RateLimitRule) (cs : List Counter)
    → Apart key rules
    → get key now (count_all now rules cs) ≡ get key now cs
unfolding count_all
get-count_all_other key now [] cs a = refl
get-count_all_other key now (r ∷ rs) cs (other, a) =
    get-count_all_other key now rs (count_up r.key now (milliseconds r.window) cs) a
    ∙ ap (live_count now) (find-count_up_other key r.key now (milliseconds r.window) cs other)

-- What a call has counted: on `true` no counter had reached its limit and each is one higher; on
-- `false` one of them had, and nothing has changed.
abbrev pub Under : ℕ → List Counter → List Counter → List RateLimitRule → Type 0
Under now before after =
    All (λ r. (get r.key now before < r.limit) × (get r.key now after ≡ get r.key now before + 1))

pub SomeFull : ℕ → List Counter → List RateLimitRule → Type 0
SomeFull now cs [] = ⊥
SomeFull now cs (r ∷ rs) = (r.limit ≤ get r.key now cs) ⊎ SomeFull now cs rs

pub Counted : ℕ → List RateLimitRule → AuthStore → Bool → AuthStore → Type 0
Counted now rules before true after = Under now before.counters after.counters rules
Counted now rules before false after = SomeFull now before.counters rules × (after ≡ before)

full_one :
    (now : ℕ) (rules : List RateLimitRule) (cs : List Counter)
    → any_full now rules cs ≡ true
    → SomeFull now cs rules
unfolding any_full SomeFull
full_one now [] cs h = cc
full_one now (r ∷ rs) cs h = elim (Bool-cases (leb r.limit (get r.key now cs))) [
  | inl p ↦ inl (leb→le r.limit (get r.key now cs) p)
  | inr p ↦ inr (full_one now rs cs (sym (rw p refl) ∙ h))
]

pub counts_reflexive :
    (now : ℕ) (cs : List Counter) (rules : List RateLimitRule)
    → All (λ r. get r.key now cs ≡ get r.key now cs) rules
counts_reflexive now cs [] = tt
counts_reflexive now cs (r ∷ rs) = (refl, counts_reflexive now cs rs)

-- The counters of the rules that follow one are not counted by it.
pub others_same :
    (r : RateLimitRule) (now ttl : ℕ) (cs before : List Counter) (rs : List RateLimitRule)
    → Apart r.key rs
    → All (λ q. get q.key now cs ≡ get q.key now before) rs
    → All (λ q. get q.key now (count_up r.key now ttl cs) ≡ get q.key now before) rs
others_same r now ttl cs before [] a s = tt
others_same r now ttl cs before (q ∷ qs) (one, a) (e, s) = (
  ap (live_count now) (find-count_up_other q.key r.key now ttl cs (str_eq_flip q.key r.key one))
      ∙ e,
  others_same r now ttl cs before qs a s,
)

-- Every counter of the call is counted up once.
count_all-Under :
    (now : ℕ) (rules : List RateLimitRule) (cs before : List Counter)
    → AllApart rules
    → any_full now rules before ≡ false
    → All (λ r. get r.key now cs ≡ get r.key now before) rules
    → Under now before (count_all now rules cs) rules
unfolding any_full AllApart count_all
count_all-Under now [] cs before a h same = tt
count_all-Under now (r ∷ rs) cs before (apart, long, a) h (is, same) =
    elim (Bool-cases (leb r.limit (get r.key now before))) [
      | inl p ↦ absurd (true-false (sym (rw p refl) ∙ h))
      | inr p ↦ (
        (
          ground arith,
          get-count_all_other r.key now rs (count_up r.key now (milliseconds r.window) cs) apart
              ∙ get-count_up r.key now (milliseconds r.window) cs long
              ∙ ap (λ n. n + 1) is,
        ),
        count_all-Under now rs (count_up r.key now (milliseconds r.window) cs) before a
            (sym (rw p refl) ∙ h)
            (others_same r now (milliseconds r.window) cs before rs apart same),
      )
    ]
  where
    true-false : true ≡ false → ⊥
    true-false e = cc

module _ (now : ℕ) (w : World AuthStore) where
  script-Counted :
      (rules : List RateLimitRule)
      → AllApart rules
      → (n : ℕ)
      → Ensures
          (λ b u. Counted now rules w.store b u.store)
          (script now rules)
          (record { store = w.store; budget = n })
  unfolding Counted
  script-Counted rules a n =
      Ensures-exec_if internal internal _ (λ s. false) (run_script now rules)
        λ m h. (elim (Bool-cases (any_full now rules w.store.counters)) [
          | inl p ↦ rw p (full_one now rules w.store.counters p, refl)
          | inr p ↦ rw p (
              count_all-Under now rules w.store.counters w.store.counters a p
                (counts_reflexive now w.store.counters rules))
        ])

  ok-injective : {x y : Bool} → Path (Result AuthError Bool) (ok x) (ok y) → x ≡ y
  ok-injective e = cc

  -- What a call of the limiter that answers has counted, where its rules have different keys and
  -- windows of a millisecond or more: if it allows, no counter had reached its limit and each is now one
  -- higher; if it does not, a counter had reached its limit and nothing has changed.
  pub allow-Counted :
      (rules : List RateLimitRule)
      → AllApart rules
      → (b : Bool) → (allow now rules w).0 ≡ ok b
      → Counted now rules w.store b (allow now rules w).1.store
  unfolding allow Counted
  allow-Counted [] a b h = subst (λ x. Counted now [] w.store x w.store) (ok-injective h) tt
  allow-Counted (r ∷ rs) a b h = elim (Bool-cases (invalid_rule (r ∷ rs))) [
    | inl p ↦ absurd (err-ok (sym (rw p refl) ∙ h))
    | inr p ↦ rw p (counted_by_script (sym (rw p refl) ∙ h))
  ]
    where
      err-ok : Path (Result AuthError Bool) (err internal) (ok b) → ⊥
      err-ok e = cc

      counted_by_script :
          (statement internal (script now (r ∷ rs)) w).0 ≡ ok b
          → Counted now (r ∷ rs) w.store b (statement internal (script now (r ∷ rs)) w).1.store
      counted_by_script =
          (Returns-statement (Counted now (r ∷ rs) w.store) internal (script now (r ∷ rs)) w
              (script-Counted (r ∷ rs) a)).at
            b
