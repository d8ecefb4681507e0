-- ===== src/Entitlement.antt =====
-- Plans and subscriptions: internal/modules/entitlement, domain/entitlement.go with
-- postgres/provisioner.go and postgres/repository.go.
pub mod Provisions
use cv_agent.Base.{
  ℕ, String, Bool, true, false, not, ◌&&◌, ◌||◌, Option, none, some, List, [], ◌∷◌, map, str_eq,
  ltb, leb, if◌then◌else◌,
}
use cv_agent.Db.{Result, ok, err, M, ◌>>=◌, ◌>>◌, pure, query, exec, or_fail, when}
use cv_agent.Db.Pool.{P, answer, atomically, statement, ◌>=>◌}

pub data EntitlementError : Type 0 where
  no_active_subscription default_subscription_unavailable internal : EntitlementError

pub data SubscriptionStatus : Type 0 where
  trialing active canceled expired : SubscriptionStatus

-- A feature's value is kept as its text.
pub record Feature : Type 0 where
  pub code : String
  pub value : String

pub record Summary : Type 0 where
  pub plan_code : String
  pub subscription_status : SubscriptionStatus
  pub effective_until : Option ℕ
  pub features : List Feature

-- Rows of `plans`, `subscriptions` and `plan_entitlements`.
pub record Plan : Type 0 where
  pub id : String
  pub code : String
  pub is_active : Bool

pub record Subscription : Type 0 where
  pub id : String
  pub user_id : String
  pub plan_id : String
  pub status : SubscriptionStatus
  pub starts_at : ℕ
  pub ends_at : Option ℕ
  pub created_at : ℕ

pub record PlanEntitlement : Type 0 where
  pub plan_id : String
  pub feature : Feature

pub record PlanStore : Type 0 where
  pub plans : List Plan
  pub subscriptions : List Subscription
  pub entitlements : List PlanEntitlement

-- status IN ('trialing', 'active')
unfoldable pub is_current : SubscriptionStatus → Bool
is_current trialing = true
is_current active = true
is_current canceled = false
is_current expired = false

-- The row of the partial index on a user.
unfoldable pub has_current : String → List Subscription → Bool
unfolding is_current
has_current user [] = false
has_current user (s ∷ ss) =
    if str_eq s.user_id user && is_current s.status then true else has_current user ss

unfoldable pub has_subscription : String → List Subscription → Bool
has_subscription id [] = false
has_subscription id (s ∷ ss) = str_eq s.id id || has_subscription id ss

-- A code is UNIQUE.
unfoldable pub find_active_plan : String → List Plan → Option Plan
find_active_plan code [] = none
find_active_plan code (p ∷ ps) =
    if str_eq p.code code && p.is_active then some p else find_active_plan code ps

unfoldable pub find_plan : String → List Plan → Option Plan
find_plan id [] = none
find_plan id (p ∷ ps) = if str_eq p.id id then some p else find_plan id ps

-- The row of `insertDefaultSubscription`.
abbrev pub default_subscription : String → String → ℕ → Plan → Subscription
default_subscription id user now p = record {
  id = id;
  user_id = user;
  plan_id = p.id;
  status = active;
  starts_at = now;
  ends_at = none;
  created_at = now;
}

-- `insertDefaultSubscription` on the rows; `none` if the key is taken.
abbrev pub subscribed :
    String → String → ℕ → Option Plan → List Subscription → Option (List Subscription)
subscribed id user now none ss = some ss
subscribed id user now (some p) ss =
    if has_current user ss
    then some ss
    else if has_subscription id ss
    then none
    else some (default_subscription id user now p ∷ ss)

abbrev pub insert_default : String → String → ℕ → String → PlanStore → Option (Unit {0} × PlanStore)
insert_default id user now code s =
    elim (subscribed id user now (find_active_plan code s.plans) s.subscriptions) [
      | none ↦ none
      | some ss ↦ some (tt, record s { subscriptions = ss })
    ]

-- The WHERE clause of both queries, on a row and its plan.
abbrev pub is_open_at : ℕ → Option ℕ → Bool
is_open_at now none = true
is_open_at now (some until) = ltb now until

abbrev pub plan_active : Option Plan → Bool
plan_active none = false
plan_active (some p) = p.is_active

unfoldable pub is_effective : String → ℕ → List Plan → Subscription → Bool
unfolding is_current find_plan
is_effective user now plans s =
    str_eq s.user_id user
    && is_current s.status
    && leb s.starts_at now
    && is_open_at now s.ends_at
    && plan_active (find_plan s.plan_id plans)

-- `selectEffectiveSubscription`
unfoldable pub has_effective : String → ℕ → List Plan → List Subscription → Bool
unfolding is_effective
has_effective user now plans [] = false
has_effective user now plans (s ∷ ss) =
    if is_effective user now plans s then true else has_effective user now plans ss

abbrev pub ensure_rows :
    String → String → ℕ → String → M PlanStore EntitlementError (Result EntitlementError (Unit {0}))
ensure_rows id user now code = do
  exec internal internal (insert_default id user now code)
  ensured ← query internal (λ s. has_effective user now s.plans s.subscriptions)
  when ensured default_subscription_unavailable (pure (ok tt))

-- `EnsureDefault`, with the identifier that it makes; `none` if there is no entropy.
unfoldable pub ensure_default :
    Option String → ℕ → String → String → P PlanStore EntitlementError (Unit {0})
unfolding has_effective has_current has_subscription find_active_plan
ensure_default none now code user = answer (err internal)
ensure_default (some id) now code user = atomically internal (ensure_rows id user now code)

-- ORDER BY created_at DESC LIMIT 1 of the effective rows.
abbrev pub newer : Subscription → Option Subscription → Subscription
newer s none = s
newer s (some t) = if leb t.created_at s.created_at then s else t

unfoldable pub newest_effective : String → ℕ → List Plan → List Subscription → Option Subscription
unfolding is_effective
newest_effective user now plans [] = none
newest_effective user now plans (s ∷ ss) =
    let later = newest_effective user now plans ss in
    if is_effective user now plans s then some (newer s later) else later

-- ORDER BY feature_code, in the order of the database's collation.
unfoldable pub insert_sorted : (String → String → Bool) → Feature → List Feature → List Feature
insert_sorted before f [] = f ∷ []
insert_sorted before f (g ∷ gs) =
    let rest = insert_sorted before f gs in if before f.code g.code then f ∷ g ∷ gs else g ∷ rest

-- `selectPlanFeatures`
unfoldable pub features_of :
    (String → String → Bool) → String → PlanStore → List PlanEntitlement → List Feature
unfolding insert_sorted
features_of before code s [] = []
features_of before code s (e ∷ es) =
    let rest = features_of before code s es in
    elim (find_plan e.plan_id s.plans) [
      | none ↦ rest
      | some p ↦ if str_eq p.code code then insert_sorted before e.feature rest else rest
    ]

-- The columns of `selectCurrentSubscription`.
abbrev pub current_row : String → ℕ → PlanStore → Option (String × Subscription)
current_row user now s = elim (newest_effective user now s.plans s.subscriptions) [
  | none ↦ none
  | some t ↦ elim (find_plan t.plan_id s.plans) [ none ↦ none | some p ↦ some (p.code, t) ]
]

abbrev pub load_current : String → ℕ → M PlanStore EntitlementError (String × Subscription)
load_current user now = do
  row ← query internal (current_row user now)
  or_fail no_active_subscription row

-- `CurrentSummary`: two statements of the pool.
unfoldable pub current_summary :
    (String → String → Bool) → String → ℕ → P PlanStore EntitlementError Summary
unfolding newest_effective features_of
current_summary before user now = statement internal (load_current user now) >=> λ row.
    statement internal (query internal (λ s. features_of before row.0 s s.entitlements))
    >=> λ features. answer (
        ok (record {
          plan_code = row.0;
          subscription_status = row.1.status;
          effective_until = row.1.ends_at;
          features = features;
        }))
