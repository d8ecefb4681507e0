-- ===== src/Tests/Plans.antt =====
-- Provisioning at concrete inputs.
use cv_agent.Base.{String, ◌≡◌, refl, Bool, true, some, [], ◌∷◌}
use cv_agent.Db.{ok, err}
use cv_agent.Db.Pool.{World, sound}
use cv_agent.Entitlement.{
  EntitlementError, Summary, active, Plan, Subscription, PlanStore, is_current, has_current,
  has_subscription, find_active_plan, find_plan, is_effective, has_effective, ensure_default,
  current_summary,
}
use cv_agent.Entitlement.Provisions.{
  OneCurrent, ensure_default-OneCurrent, ensure_default-lapsed, ensure_default-summary,
}

abbrev free_plan : Plan
free_plan = record { id = "p1"; code = "free"; is_active = true }

abbrev no_subscriptions : World PlanStore
no_subscriptions = record {
  store = record { plans = free_plan ∷ []; subscriptions = []; entitlements = [] };
  fates = sound 3 ∷ [];
}

abbrev any_order : String → String → Bool
any_order s t = true

ensure_default-summary_example :
    (x : Summary) × ((current_summary any_order "u1" 20 (record {
      store = (ensure_default (some "s1") 20 "free" "u1" no_subscriptions).1.store;
      fates = sound 0 ∷ sound 0 ∷ [];
    })).0
      ≡ ok x)
unfolding ensure_default has_current has_subscription find_active_plan find_plan is_effective
    has_effective is_current
ensure_default-summary_example =
    ensure_default-summary (some "s1") 20 "free" "u1" no_subscriptions refl any_order 0 0 []

-- A subscription that ended at 10.
abbrev ended : Subscription
ended = record {
  id = "s0";
  user_id = "u1";
  plan_id = "p1";
  status = active;
  starts_at = 1;
  ends_at = some 10;
  created_at = 1;
}

abbrev one_ended : World PlanStore
one_ended = record {
  store = record { plans = free_plan ∷ []; subscriptions = ended ∷ []; entitlements = [] };
  fates = sound 3 ∷ [];
}

ensure_default-lapsed_example :
    (e : EntitlementError) × ((ensure_default (some "s1") 20 "free" "u1" one_ended).0 ≡ err e)
    × ((ensure_default (some "s1") 20 "free" "u1" one_ended).1.store ≡ one_ended.store)
unfolding has_current is_current has_effective is_effective find_plan
ensure_default-lapsed_example = ensure_default-lapsed "s1" 20 "free" "u1" one_ended refl refl

ensure_default-OneCurrent_example :
    OneCurrent (ensure_default (some "s1") 20 "free" "u2" one_ended).1.store.subscriptions
unfolding OneCurrent has_current
ensure_default-OneCurrent_example =
    ensure_default-OneCurrent (some "s1") 20 "free" "u2" one_ended ((λ c. refl), tt)
