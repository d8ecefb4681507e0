-- ===== src/Tracker/Services/Retried.antt =====
-- A create that is sent twice (internal/modules/tracker/application, the `Create` methods, with
-- internal/platform/idempotency/store.go).
use cv_agent.Base.{
  ℕ, String, ◌≡◌, refl, sym, ap, ◌∙◌, ◌⊎◌, inl, inr, true, Bool-cases, Option, none, some, List,
  arith,
}
use cv_agent.Db.{Result, ok, err, Tx, M, ◌>>=◌, query, or_fail}
use cv_agent.Db.Ensures.{
  Ensures, Ensures-bind, Ensures-pure, Ensures-or_fail, Ensures-query, Ensures-weaken,
}
use cv_agent.Db.Pool.{World, statement}
use cv_agent.Db.Pool.Rules.{Leaves, Leaves-answer, Leaves-statement, Leaves-bind}
use cv_agent.Platform.Idempotency.{KeyCommand, KeyRow, Reservation, find_row, reserve}
use cv_agent.Platform.Idempotency.Replays.{
  ReserveCall, Outcome, Stands, reserve-Outcome, first-Stands,
}
use cv_agent.Tracker.Application.{Env}
use cv_agent.Tracker.Store.{Store}
use cv_agent.Tracker.Domain.{internal, not_found}
use cv_agent.Tracker.Services.{
  Tables, of_tracker, of_key, connection, Creation, raised, zoom, find_detail, create_or_replay,
  create_body, created_answer, create_once,
}

module _ {S T E F A : Type 0} (get : T → S) (put : S → T → T) (raise : E → F) where
  raised-ok : (r : Result E A) (a : A) → raised get put raise r ≡ ok a → r ≡ ok a
  raised-ok (ok b) a h = ground arith
  raised-ok (err e) a h = cc

  Ensures-zoom :
      {Q : A → Tx T → Type 0} (m : M S E A) (t : Tx T)
      → Ensures
          (λ a u. Q a (record { store = put u.store t.store; budget = u.budget }))
          m
          (record { store = get t.store; budget = t.budget })
      → Ensures Q (zoom get put raise m) t
  Ensures-zoom m t k = record {
    at = λ a h. k.at a (raised-ok (m (record { store = get t.store; budget = t.budget })).0 a h);
  }

find_detail-Leaves :
    {A : Type 0} (I : Tables → Type 0) (look : Store → Option A) (world : World Tables)
    → I world.store
    → Leaves I (find_detail look) world
find_detail-Leaves {A} I look world i =
    Leaves-statement connection
      (query connection (λ s. look s.tracker) >>= or_fail {S = Tables} (of_tracker not_found)) world
      i
      λ n. Ensures-bind {f = or_fail (of_tracker not_found)} (
        Ensures-query connection (λ s. look s.tracker) _
          λ k. Ensures-or_fail (of_tracker not_found) (look world.store.tracker) _ λ a h. i)

-- The user's key has a row.
Used : (String → String) → String → KeyCommand → Tables → Type 0
Used trim_space user command s =
    (r : KeyRow) × (find_row user command.scope (trim_space command.key) s.keys ≡ some r)

module _ (trim_space : String → String) (env : Env) (user device : String) {A W : Type 0}
    (c : Creation A W) where
  -- A replay changes nothing.
  replay-same :
      (w : W) (id : String) (r : Reservation) (t : Tx Tables)
      → r.replay ≡ true
      → Ensures (λ x u. u.store ≡ t.store) (create_or_replay trim_space env user device c w id r) t
  replay-same w id r t e = rw e (Ensures-pure (inl r.resource_id) t refl)

  -- What follows the reservation leaves the keys.
  create_or_replay-keys :
      (w : W) (id : String) (r : Reservation) (t : Tx Tables)
      → Ensures
          (λ x u. u.store.keys ≡ t.store.keys)
          (create_or_replay trim_space env user device c w id r)
          t
  create_or_replay-keys w id r t = elim (Bool-cases r.replay) [
    | inl e ↦ rw e (Ensures-pure (inl r.resource_id) t refl)
    | inr e ↦ rw e (
        Ensures-bind (
          Ensures-zoom (λ s. s.tracker) (λ x s. record s { tracker = x }) of_tracker
            (c.create (c.with_id id w)) t (record { at = λ a h. Ensures-pure _ _ refl })))
  ]

-- The key has a row after the body, and the body changed nothing where it had one before.
Settles : (String → String) → String → KeyCommand → Tables → Tables → Type 0
Settles trim_space user command before s =
    Used trim_space user command s × (Used trim_space user command before → s ≡ before)

module _ (trim_space : String → String) (env : Env) (user device : String) {A W : Type 0}
    (c : Creation A W) where
  body-Settles :
      (w : W) (command : KeyCommand) (t : Tx Tables)
      → Ensures
          (λ x u. Settles trim_space user command t.store u.store)
          (create_body trim_space env user device c w command)
          t
  unfolding Outcome Stands Settles Used
  body-Settles w command t = Ensures-bind (
      Ensures-or_fail (of_tracker internal) _ t λ id chosen. Ensures-bind (
        Ensures-zoom (λ s. s.keys) (λ x s. record s { keys = x }) of_key
          (reserve trim_space user c.resource_type id command env.now) t
          (Ensures-weaken
            (reserve-Outcome trim_space user c.resource_type id command env.now t.store.keys
              t.budget)
            λ r u o. after id r u.store u.budget o)))
    where
      call : String → ReserveCall
      call id = record {
        user = user;
        resource_type = c.resource_type;
        resource_id = id;
        command = command;
        now = env.now;
      }

      none-some : (r : KeyRow) → Path (Option KeyRow) none (some r) → ⊥
      none-some r e = cc

      after :
          (id : String) (r : Reservation) (keys : List KeyRow) (n : ℕ)
          → Outcome trim_space user c.resource_type id command env.now t.store.keys r keys
          → Ensures
              (λ x u. Settles trim_space user command t.store u.store)
              (create_or_replay trim_space env user device c w id r)
              (record { store = record t.store { keys = keys }; budget = n })
      after id r keys n (inl (e, free, same)) =
          Ensures-weaken
            (create_or_replay-keys trim_space env user device c w id r
              (record { store = record t.store { keys = keys }; budget = n }))
            λ x u kept.
              let (row, there, i, h) =
                first-Stands trim_space (call id) t.store.keys keys r (inl (e, free, same)) in
              (
                (row, ap (find_row user command.scope (trim_space command.key)) kept ∙ there),
                λ (old, before). absurd (none-some old (sym free ∙ before)),
              )
      after id r keys n (inr (q, found, h, e, same)) =
          Ensures-weaken
            (replay-same trim_space env user device c w id r
              (record { store = record t.store { keys = keys }; budget = n })
              (ap (λ x. x.replay) e))
            λ x u kept.
              let unchanged : u.store ≡ t.store =
                kept ∙ ap (λ x. record { tracker = t.store.tracker; keys = x }) same in
              (
                (
                  q,
                  ap (λ s. find_row user command.scope (trim_space command.key) s.keys) unchanged
                      ∙ found,
                ),
                λ before. unchanged,
              )

  created_answer-Leaves :
      (I : Tables → Type 0) (x : String ⊎ A) (world : World Tables)
      → I world.store
      → Leaves I (created_answer trim_space env user device c x) world
  created_answer-Leaves I (inl id) world i = find_detail-Leaves I (c.look id) world i
  created_answer-Leaves I (inr a) world i = Leaves-answer (ok a) world i

  -- A create that changed something left a row of its key.
  first-Leaves :
      (w : W) (command : KeyCommand) (world : World Tables)
      → Leaves
          (λ s. (s ≡ world.store) ⊎ Used trim_space user command s)
          (create_once trim_space env user device c w command)
          world
  unfolding create_once Settles
  first-Leaves w command world =
      let I : Tables → Type 0 = λ s. (s ≡ world.store) ⊎ Used trim_space user command s in
      Leaves-bind {J = I}
        (statement connection (create_body trim_space env user device c w command))
        (created_answer trim_space env user device c) world
        (Leaves-statement connection _ world (inl refl) λ n.
          Ensures-weaken (body-Settles w command (record { store = world.store; budget = n }))
            λ x u (used, same). inr used)
        (λ s i. i) (created_answer-Leaves I)

  -- A create whose key has a row changes nothing.
  second-Leaves :
      (w : W) (command : KeyCommand) (world : World Tables)
      → Used trim_space user command world.store
      → Leaves (λ s. s ≡ world.store) (create_once trim_space env user device c w command) world
  unfolding create_once Settles
  second-Leaves w command world used =
      Leaves-bind {J = λ s. s ≡ world.store}
        (statement connection (create_body trim_space env user device c w command))
        (created_answer trim_space env user device c) world
        (Leaves-statement connection _ world refl λ n.
          Ensures-weaken (body-Settles w command (record { store = world.store; budget = n }))
            λ x u (now, same). same used)
        (λ s i. i) (created_answer-Leaves (λ s. s ≡ world.store))

module _ (trim_space : String → String) (user : String) {A B W X : Type 0} (c : Creation A W)
    (d : Creation B X) where
  -- A create takes effect once: whatever happened to the calls of a first one, a lost commit
  -- included, it changed no table or a second by the same user with the same scope and trimmed key,
  -- of the same or of another resource, changes no table.
  pub create_twice :
      (env later : Env) (device other : String) (w : W) (x : X) (command again : KeyCommand)
      (world : World Tables)
      → again.scope ≡ command.scope
      → trim_space again.key ≡ trim_space command.key
      → ((create_once trim_space env user device c w command world).1.store ≡ world.store)
        ⊎ ((create_once trim_space later user other d x again
              (create_once trim_space env user device c w command world).1).1.store
            ≡ (create_once trim_space env user device c w command world).1.store)
  unfolding Used
  create_twice env later device other w x command again world scope key =
      elim (first-Leaves trim_space env user device c w command world).at [
        | inl same ↦ inl same
        | inr (r, row) ↦ inr (
            (second-Leaves trim_space later user other d x again
              (create_once trim_space env user device c w command world).1
              (
                r,
                ap
                      (λ y.
                        find_row user y (trim_space again.key)
                          (create_once trim_space env user device c w command world).1.store.keys)
                      scope
                    ∙ ap
                        (λ y.
                          find_row user command.scope y
                            (create_once trim_space env user device c w command world).1.store.keys)
                        key
                    ∙ row,
              )).at)
      ]
