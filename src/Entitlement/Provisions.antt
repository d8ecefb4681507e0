-- ===== src/Entitlement/Provisions.antt =====
-- What provisioning promises, and whom it locks out
-- (internal/modules/entitlement/postgres/provisioner.go and repository.go).
use cv_agent.Base.{
  ℕ, String, ◌≡◌, refl, sym, ◌∙◌, ap, subst, Bool, true, false, ◌&&◌, Bool-cases, inl, inr, Option,
  none, some, List, [], ◌∷◌, str_eq, leb, arith,
}
use mathlib.Core.Option.{some-injective}
use cv_agent.Db.{ok, err}
use cv_agent.Db.Ensures.{Ensures-bind, Ensures-exec, Ensures-query, Ensures-when, Ensures-pure}
use cv_agent.Db.Pool.{World, Fate, sound, atomically}
use cv_agent.Db.Pool.Rules.{Keeps-atomically, Returns-atomically, never-atomically}
use cv_agent.Entitlement.{
  EntitlementError, internal, default_subscription_unavailable, Summary, Plan, Subscription,
  PlanStore, is_current, has_current, has_subscription, find_active_plan, find_plan,
  default_subscription, subscribed, insert_default, is_open_at, plan_active, is_effective,
  has_effective, ensure_rows, ensure_default, newer, newest_effective, features_of, current_row,
  current_summary,
}

-- subscriptions_one_current_idx: no user has two current rows.
unfoldable pub OneCurrent : List Subscription → Type 0
OneCurrent [] = Unit {0}
OneCurrent (s ∷ ss) =
    (is_current s.status ≡ true → has_current s.user_id ss ≡ false) × OneCurrent ss

OneCurrent-subscribed :
    (id user : String) (now : ℕ) (p : Option Plan) (ss ss' : List Subscription)
    → subscribed id user now p ss ≡ some ss'
    → OneCurrent ss
    → OneCurrent ss'
unfolding OneCurrent
OneCurrent-subscribed id user now none ss ss' e k = subst OneCurrent (some-injective _ _ e) k
OneCurrent-subscribed id user now (some p) ss ss' e k = elim (Bool-cases (has_current user ss)) [
  | inl h ↦
      let same : some ss ≡ some ss' = rw h at e in subst OneCurrent (some-injective _ _ same) k
  | inr h ↦ elim (Bool-cases (has_subscription id ss)) [
    | inl q ↦ absurd (none-some (sym (rw (h, q) refl) ∙ e))
    | inr q ↦
        let same : some (default_subscription id user now p ∷ ss) ≡ some ss' = rw (h, q) at e in
        subst OneCurrent (some-injective _ _ same) ((λ c. h), k)
  ]
]
  where
    none-some : Path (Option (List Subscription)) none (some ss') → ⊥
    none-some e = cc

-- What the insert leaves is what it makes of the subscriptions.
inserted :
    (id user : String) (now : ℕ) (code : String) (s s' : PlanStore) (a : Unit {0})
    → insert_default id user now code s ≡ some (a, s')
    → (s'.plans ≡ s.plans)
      × (subscribed id user now (find_active_plan code s.plans) s.subscriptions
          ≡ some s'.subscriptions)
inserted id user now code s s' a e =
    go (subscribed id user now (find_active_plan code s.plans) s.subscriptions) e
  where
    go :
        (o : Option (List Subscription))
        → elim o as (λ x. Option (Unit {0} × PlanStore)) [
          | none ↦ none
          | some ss ↦ some (tt, record s { subscriptions = ss })
        ]
          ≡ some (a, s')
        → (s'.plans ≡ s.plans) × (o ≡ some s'.subscriptions)
    go none e = cc
    go (some ss) e =
        let same = some-injective _ _ e in
        (sym (ap (λ p. p.1.plans) same), ap (λ p. some p.1.subscriptions) same)

-- Provisioning keeps at most one current subscription for each user, whatever happens to it.
pub ensure_default-OneCurrent :
    (id : Option String) (now : ℕ) (code user : String) (w : World PlanStore)
    → OneCurrent w.store.subscriptions
    → OneCurrent (ensure_default id now code user w).1.store.subscriptions
unfolding ensure_default
ensure_default-OneCurrent none now code user w k = k
ensure_default-OneCurrent (some id) now code user w k =
    (Keeps-atomically (λ s. OneCurrent s.subscriptions) internal (ensure_rows id user now code)
        λ s n k. Ensures-bind (
          Ensures-exec internal internal _ _ λ m a s' e. Ensures-bind (
            Ensures-query internal _ _ λ m'.
              Ensures-when _ default_subscription_unavailable _ _ λ q. Ensures-pure (ok tt) _ (
                OneCurrent-subscribed id user now (find_active_plan code s.plans) s.subscriptions
                  s'.subscriptions (inserted id user now code s s' a e).1 k)))).at
      w k

-- A user with a current subscription that is not effective, since its time is over or its plan was
-- retired, is refused at every login, and nothing changes.
pub ensure_default-lapsed :
    (id : String) (now : ℕ) (code user : String) (w : World PlanStore)
    → has_current user w.store.subscriptions ≡ true
    → has_effective user now w.store.plans w.store.subscriptions ≡ false
    → (e : EntitlementError) × ((ensure_default (some id) now code user w).0 ≡ err e)
      × ((ensure_default (some id) now code user w).1.store ≡ w.store)
unfolding ensure_default
ensure_default-lapsed id now code user w current over =
    never-atomically internal (ensure_rows id user now code) w λ n. Ensures-bind (
      Ensures-exec internal internal _ _ λ m a s' e. Ensures-bind (
        Ensures-query internal _ _ λ m'. Ensures-when _ default_subscription_unavailable _ _ λ q.
          let (plans, rows) = inserted id user now code w.store s' a e in
          let same = kept (find_active_plan code w.store.plans) s'.subscriptions rows in
          absurd (
            true-false (
              sym q
              ∙ ap (λ ps. has_effective user now ps s'.subscriptions) plans
              ∙ ap (has_effective user now w.store.plans) same
              ∙ over))))
  where
    true-false : true ≡ false → ⊥
    true-false e = cc

    kept :
        (p : Option Plan) (ss' : List Subscription)
        → subscribed id user now p w.store.subscriptions ≡ some ss'
        → ss' ≡ w.store.subscriptions
    kept none ss' e = sym (some-injective _ _ e)
    kept (some p) ss' e = sym (some-injective _ _ (sym (rw current refl) ∙ e))

newest_effective_is :
    (user : String) (now : ℕ) (plans : List Plan) (ss : List Subscription) (t : Subscription)
    → newest_effective user now plans ss ≡ some t
    → is_effective user now plans t ≡ true
unfolding newest_effective
newest_effective_is user now plans [] t e = cc
newest_effective_is user now plans (s ∷ ss) t e =
    elim (Bool-cases (is_effective user now plans s)) [
      | inl p ↦
          let same : some (newer s (newest_effective user now plans ss)) ≡ some t = rw p at e in
          subst (λ x. is_effective user now plans x ≡ true) (some-injective _ _ same)
            (one_of (newest_effective user now plans ss) (newest_effective_is user now plans ss) p)
      | inr p ↦ newest_effective_is user now plans ss t (rw p at e)
    ]
  where
    one_of :
        (o : Option Subscription)
        → ((t : Subscription) → o ≡ some t → is_effective user now plans t ≡ true)
        → is_effective user now plans s ≡ true
        → is_effective user now plans (newer s o) ≡ true
    one_of none k p = p
    one_of (some u) k p = elim (Bool-cases (leb u.created_at s.created_at)) [
      | inl q ↦ rw q p
      | inr q ↦ rw q (k u refl)
    ]

-- The effective rows have a newest one, and it is effective.
newest_found :
    (user : String) (now : ℕ) (plans : List Plan) (ss : List Subscription)
    → has_effective user now plans ss ≡ true
    → (t : Subscription) × (newest_effective user now plans ss ≡ some t)
      × (is_effective user now plans t ≡ true)
unfolding has_effective newest_effective
newest_found user now plans [] h = cc
newest_found user now plans (s ∷ ss) h = elim (Bool-cases (is_effective user now plans s)) [
  | inl p ↦
      rw p (first (newest_effective user now plans ss) (newest_effective_is user now plans ss) p)
  | inr p ↦ rw p (newest_found user now plans ss (sym (rw p refl) ∙ h))
]
  where
    first :
        (o : Option Subscription)
        → ((t : Subscription) → o ≡ some t → is_effective user now plans t ≡ true)
        → is_effective user now plans s ≡ true
        → (t : Subscription) × (some (newer s o) ≡ some t) × (is_effective user now plans t ≡ true)
    first none k p = (s, refl, p)
    first (some t) k p = elim (Bool-cases (leb t.created_at s.created_at)) [
      | inl q ↦ rw q (s, refl, p)
      | inr q ↦ rw q (t, refl, k t refl)
    ]

effective_plan :
    (user : String) (now : ℕ) (plans : List Plan) (t : Subscription)
    → is_effective user now plans t ≡ true
    → (p : Plan) × (find_plan t.plan_id plans ≡ some p)
unfolding is_effective
effective_plan user now plans t h = go (find_plan t.plan_id plans) refl (
    last (str_eq t.user_id user) (is_current t.status) (leb t.starts_at now)
      (is_open_at now t.ends_at) (plan_active (find_plan t.plan_id plans)) h)
  where
    last : (a b c d e : Bool) → (a && b && c && d && e) ≡ true → e ≡ true
    last a b c d e h = ground arith

    go :
        (o : Option Plan)
        → o ≡ find_plan t.plan_id plans
        → plan_active o ≡ true
        → (p : Plan) × (find_plan t.plan_id plans ≡ some p)
    go none e h = cc
    go (some p) e h = (p, sym e)

row_found :
    (user : String) (now : ℕ) (s : PlanStore) (t : Subscription) (p : Plan)
    → newest_effective user now s.plans s.subscriptions ≡ some t
    → find_plan t.plan_id s.plans ≡ some p
    → current_row user now s ≡ some (p.code, t)
row_found user now s t p newest plan = go (newest_effective user now s.plans s.subscriptions) newest
  where
    code_of :
        (o : Option Plan)
        → o ≡ some p
        → elim o as (λ x. Option (String × Subscription)) [
          | none ↦ none
          | some p ↦ some (p.code, t)
        ]
          ≡ some (p.code, t)
    code_of o e = rw e refl

    go :
        (o : Option Subscription)
        → o ≡ some t
        → elim o as (λ x. Option (String × Subscription)) [
          | none ↦ none
          | some t ↦ elim (find_plan t.plan_id s.plans) [ none ↦ none | some p ↦ some (p.code, t) ]
        ]
          ≡ some (p.code, t)
    go o e = rw e (code_of (find_plan t.plan_id s.plans) plan)

summary_answers :
    (before : String → String → Bool) (user : String) (now : ℕ) (s : PlanStore) (m n : ℕ)
    (rest : List Fate)
    → has_effective user now s.plans s.subscriptions ≡ true
    → (x : Summary) × ((current_summary before user now
          (record { store = s; fates = sound m ∷ sound n ∷ rest })).0
        ≡ ok x)
unfolding current_summary
summary_answers before user now s m n rest h =
    let (t, newest, good) = newest_found user now s.plans s.subscriptions h in
    let (p, plan) = effective_plan user now s.plans t good in
    let row : current_row user now s ≡ some (p.code, t) = row_found user now s t p newest plan in
    rw row (
      record {
        plan_code = p.code;
        subscription_status = t.status;
        effective_until = t.ends_at;
        features = features_of before p.code s s.entitlements;
      },
      refl,
    )

-- A user for whom a default subscription was ensured has a summary at that time: on the tables that
-- the provisioner left, two statements that do not fail return one.
pub ensure_default-summary :
    (id : Option String) (now : ℕ) (code user : String) (w : World PlanStore)
    → (ensure_default id now code user w).0 ≡ ok tt
    → (before : String → String → Bool) (m n : ℕ) (rest : List Fate)
    → (x : Summary) × ((current_summary before user now (record {
      store = (ensure_default id now code user w).1.store;
      fates = sound m ∷ sound n ∷ rest;
    })).0
        ≡ ok x)
unfolding ensure_default current_summary
ensure_default-summary none now code user w done before m n rest = cc
ensure_default-summary (some id) now code user w done before m n rest =
    let after = (atomically internal (ensure_rows id user now code) w).1.store in
    let ensured =
      (Returns-atomically (λ a s. has_effective user now s.plans s.subscriptions ≡ true) internal
          (ensure_rows id user now code) w
          λ n. Ensures-bind (
            Ensures-exec internal internal _ _ λ k a s' e. Ensures-bind (
              Ensures-query internal _ _ λ k'.
                Ensures-when _ default_subscription_unavailable _ _
                  λ q. Ensures-pure (ok tt) _ λ b h. q))).at
        tt done in
    summary_answers before user now after m n rest ensured
