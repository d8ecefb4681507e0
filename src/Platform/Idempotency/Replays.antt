-- ===== src/Platform/Idempotency/Replays.antt =====
-- A key is used once (internal/platform/idempotency/store.go).
use cv_agent.Base.{
  ℕ, String, ◌≡◌, refl, sym, ◌∙◌, ap, ◌⊎◌, inl, inr, Bool, true, false, ◌&&◌, Bool-cases, Option,
  none, some, List, [], ◌∷◌, str_eq, str_eq→eq, str_eq_self, arith,
}
use mathlib.Core.Option.{some-injective}
use cv_agent.Db.{ok}
use cv_agent.Db.Ensures.{
  Ensures, Ensures-bind, Ensures-exec_if, Ensures-query, Ensures-or_fail, Ensures-pure,
  Ensures-when, Ensures-weaken,
}
use cv_agent.Db.Pool.{World, P, statement}
use cv_agent.Db.Pool.Rules.{Keeps-statement, Returns-statement}
use cv_agent.Platform.Idempotency.{
  IdempotencyError, backend, key_required, key_reused, KeyCommand, Reservation, KeyRow, is_row,
  find_row, reserved, insert_row, is_acceptable, row_of, answer_of, reserve_rows, reserve,
}

-- A row stays the first of its key when another is added for a key that has none.
find_row-other :
    (user scope key : String) (new r : KeyRow) (rows : List KeyRow)
    → find_row new.user_id new.scope new.idempotency_key rows ≡ none
    → find_row user scope key rows ≡ some r
    → find_row user scope key (new ∷ rows) ≡ some r
unfolding find_row
find_row-other user scope key new r rows free row = elim (Bool-cases (is_row user scope key new)) [
  | inl p ↦
      let (u, s, k) =
        parts (str_eq new.user_id user) (str_eq new.scope scope) (str_eq new.idempotency_key key)
          p in
      absurd (
        none-some (
          sym free
          ∙ ap (λ x. find_row x new.scope new.idempotency_key rows) (str_eq→eq new.user_id user u)
          ∙ ap (λ x. find_row user x new.idempotency_key rows) (str_eq→eq new.scope scope s)
          ∙ ap (λ x. find_row user scope x rows) (str_eq→eq new.idempotency_key key k)
          ∙ row))
  | inr p ↦ rw p row
]
  where
    parts : (a b c : Bool) → (a && b && c) ≡ true → (a ≡ true) × (b ≡ true) × (c ≡ true)
    parts a b c h = ground arith

    none-some : Path (Option KeyRow) none (some r) → ⊥
    none-some e = cc

-- One reservation in a transaction of its own.
pub record ReserveCall : Type 0 where
  pub user : String
  pub resource_type : String
  pub resource_id : String
  pub command : KeyCommand
  pub now : ℕ

module _ (trim_space : String → String) where
  -- What a reservation that returns has done: it wrote the first row of its key, or found one with its
  -- hash and changed nothing.
  unfoldable pub Outcome :
      String → String → String → KeyCommand → ℕ → List KeyRow → Reservation → List KeyRow → Type 0
  Outcome user resource_type resource_id c now rows res after =
      ((res ≡ record { resource_id = resource_id; replay = false })
        × (find_row user c.scope (trim_space c.key) rows ≡ none)
        × (after ≡ row_of trim_space user resource_type resource_id c now ∷ rows))
      ⊎ ((r : KeyRow) × (find_row user c.scope (trim_space c.key) rows ≡ some r)
          × (r.request_hash ≡ c.request_hash)
          × (res ≡ record { resource_id = r.resource_id; replay = true })
          × (after ≡ rows))

  pub reserve-Outcome :
      (user resource_type resource_id : String) (c : KeyCommand) (now : ℕ) (rows : List KeyRow)
      (n : ℕ)
      → Ensures
          (λ res u. Outcome user resource_type resource_id c now rows res u.store)
          (reserve trim_space user resource_type resource_id c now)
          (record { store = rows; budget = n })
  unfolding reserve Outcome
  reserve-Outcome user resource_type resource_id c now rows n =
      Ensures-when (is_acceptable trim_space c) key_required
        (reserve_rows trim_space user resource_type resource_id c now) _
        λ fit. Ensures-bind {f = answer_of trim_space user resource_id c} (
          Ensures-exec_if backend backend _ (λ s. false)
            (insert_row (row_of trim_space user resource_type resource_id c now))
            λ m h. go m (find_row user c.scope (trim_space c.key) rows) refl)
    where
      go :
          (m : ℕ) (o : Option KeyRow)
          → find_row user c.scope (trim_space c.key) rows ≡ o
          → Ensures
              (λ res u. Outcome user resource_type resource_id c now rows res u.store)
              (answer_of trim_space user resource_id c
                (reserved (row_of trim_space user resource_type resource_id c now) rows o).0)
              (record {
                store =
                    (reserved (row_of trim_space user resource_type resource_id c now) rows o).1;
                budget = m;
              })
      go m none e = Ensures-pure _ _ (inl (refl, e, refl))
      go m (some r) e = Ensures-bind (
          Ensures-bind (
            Ensures-query backend _ _ λ k. Ensures-or_fail backend _ _ λ r' found.
              Ensures-when (str_eq r'.request_hash c.request_hash) key_reused _ _ λ same.
                Ensures-pure _ _
                  (inr (r', found, str_eq→eq r'.request_hash c.request_hash same, refl, refl))))

  abbrev pub run_reserve : ReserveCall → P (List KeyRow) IdempotencyError Reservation
  run_reserve c =
      statement backend (reserve trim_space c.user c.resource_type c.resource_id c.command c.now)

  unfoldable pub run_reserves : List ReserveCall → World (List KeyRow) → World (List KeyRow)
  run_reserves [] w = w
  run_reserves (c ∷ cs) w = run_reserves cs (run_reserve c w).1

  module _ (user scope key : String) where
    -- The key stands for a resource and a hash.
    unfoldable pub Stands : String → String → List KeyRow → Type 0
    Stands resource_id hash rows =
        (r : KeyRow) × (find_row user scope key rows ≡ some r)
        × (r.resource_id ≡ resource_id)
        × (r.request_hash ≡ hash)

    Outcome-Stands :
        (resource_id hash : String) (c : ReserveCall) (rows after : List KeyRow) (res : Reservation)
        → Outcome c.user c.resource_type c.resource_id c.command c.now rows res after
        → Stands resource_id hash rows
        → Stands resource_id hash after
    unfolding Outcome Stands
    Outcome-Stands resource_id hash c rows after res (inl (e, free, same)) (r, row, i, h) = (
      r,
      ap (find_row user scope key) same
          ∙ find_row-other user scope key
              (row_of trim_space c.user c.resource_type c.resource_id c.command c.now) r rows free
              row,
      i,
      h,
    )
    Outcome-Stands resource_id hash c rows after res (inr (q, found, h', e, same)) (r, row, i, h) =
        (r, ap (find_row user scope key) same ∙ row, i, h)

    run_reserves-Stands :
        (resource_id hash : String) (cs : List ReserveCall) (w : World (List KeyRow))
        → Stands resource_id hash w.store
        → Stands resource_id hash (run_reserves cs w).store
    unfolding run_reserves
    run_reserves-Stands resource_id hash [] w k = k
    run_reserves-Stands resource_id hash (c ∷ cs) w k =
        run_reserves-Stands resource_id hash cs (run_reserve c w).1 (
          (Keeps-statement (Stands resource_id hash) backend
              (reserve trim_space c.user c.resource_type c.resource_id c.command c.now)
              λ s n i.
                Ensures-weaken
                  (reserve-Outcome c.user c.resource_type c.resource_id c.command c.now s n)
                  λ res u o. Outcome-Stands resource_id hash c s u.store res o i).at
            w k)

  -- A reservation that returns leaves a row of its key with its hash and the resource it answered.
  pub first-Stands :
      (c : ReserveCall) (rows after : List KeyRow) (res : Reservation)
      → Outcome c.user c.resource_type c.resource_id c.command c.now rows res after
      → Stands c.user c.command.scope
          (trim_space c.command.key)
          res.resource_id
          c.command.request_hash
          after
  unfolding Outcome Stands find_row
  first-Stands c rows after res (inl (e, free, same)) = (
    row_of trim_space c.user c.resource_type c.resource_id c.command c.now,
    ap (find_row c.user c.command.scope (trim_space c.command.key)) same
        ∙ rw
            (
              str_eq_self c.user,
              str_eq_self c.command.scope,
              str_eq_self (trim_space c.command.key),
            )
            refl,
    ap (λ x. x.resource_id) (sym e),
    refl,
  )
  first-Stands c rows after res (inr (r, found, h, e, same)) = (
    r,
    ap (find_row c.user c.command.scope (trim_space c.command.key)) same ∙ found,
    ap (λ x. x.resource_id) (sym e),
    h,
  )

  -- A key is used once: after a reservation returned, and after any others by anyone, a reservation by the
  -- same user with the same scope and key that returns had the same request hash, and answers with the
  -- first resource as a replay.
  pub reserve_once :
      (first second : ReserveCall) (w : World (List KeyRow)) (calls : List ReserveCall)
      (a b : Reservation)
      → (run_reserve first w).0 ≡ ok a
      → second.user ≡ first.user
      → second.command.scope ≡ first.command.scope
      → trim_space second.command.key ≡ trim_space first.command.key
      → (run_reserve second (run_reserves calls (run_reserve first w).1)).0 ≡ ok b
      → (second.command.request_hash ≡ first.command.request_hash)
        × (b ≡ record { resource_id = a.resource_id; replay = true })
  unfolding Outcome Stands
  reserve_once first second w calls a b done u s k again =
      let started =
        (Returns-statement
            (λ res rows.
              Outcome first.user first.resource_type first.resource_id first.command first.now
                w.store res rows)
            backend
            (reserve trim_space first.user first.resource_type first.resource_id first.command
              first.now)
            w
            λ n.
              reserve-Outcome first.user first.resource_type first.resource_id first.command
                first.now w.store n).at
          a done in
      let later = run_reserves calls (run_reserve first w).1 in
      let stands =
        run_reserves-Stands first.user first.command.scope (trim_space first.command.key)
          a.resource_id first.command.request_hash calls (run_reserve first w).1
          (first-Stands first w.store (run_reserve first w).1.store a started) in
      let ended =
        (Returns-statement
            (λ res rows.
              Outcome second.user second.resource_type second.resource_id second.command second.now
                later.store res rows)
            backend
            (reserve trim_space second.user second.resource_type second.resource_id second.command
              second.now)
            later
            λ n.
              reserve-Outcome second.user second.resource_type second.resource_id second.command
                second.now later.store n).at
          b again in
      let (r, row, i, h) = stands in
      let there : find_row second.user second.command.scope (trim_space second.command.key)
            later.store
          ≡ some r =
        ap (λ x. find_row x second.command.scope (trim_space second.command.key) later.store) u
        ∙ ap (λ x. find_row first.user x (trim_space second.command.key) later.store) s
        ∙ ap (λ x. find_row first.user first.command.scope x later.store) k
        ∙ row in
      replayed r there i h ended
    where
      replayed :
          {rows after : List KeyRow} (r : KeyRow)
          → find_row second.user second.command.scope (trim_space second.command.key) rows ≡ some r
          → r.resource_id ≡ a.resource_id
          → r.request_hash ≡ first.command.request_hash
          → Outcome second.user second.resource_type second.resource_id second.command second.now
              rows b after
          → (second.command.request_hash ≡ first.command.request_hash)
            × (b ≡ record { resource_id = a.resource_id; replay = true })
      replayed r there i h (inl (e, free, same)) = absurd (none-some (sym free ∙ there))
        where
          none-some : Path (Option KeyRow) none (some r) → ⊥
          none-some e = cc
      replayed r there i h (inr (q, found, hash, e, same)) =
          let one : q ≡ r = some-injective _ _ (sym found ∙ there) in
          (
            sym hash ∙ ap (λ x. x.request_hash) one ∙ h,
            e
                ∙ ap (λ x. record { resource_id = x; replay = true })
                    (ap (λ x. x.resource_id) one ∙ i),
          )
