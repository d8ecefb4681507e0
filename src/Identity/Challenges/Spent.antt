-- ===== src/Identity/Challenges/Spent.antt =====
-- Challenges whose code can no longer be used, and the calls that may come after
-- (internal/modules/identity/postgres/challenge_repo.go).
use cv_agent.Base.{
  ℕ, ◌+◌, ◌<◌, String, ◌≡◌, refl, sym, ◌∙◌, ap, subst, Bool, true, false, not, ◌||◌, leb,
  Bool-cases, inl, inr, none, some, List, [], ◌∷◌, str_eq, str_eq→eq, arith,
}
use mathlib.Core.Option.{some-injective}
use cv_agent.Db.{Result, ok, err, ◌>>=◌}
use cv_agent.Db.Ensures.{Ensures-exec_if, Ensures-weaken}
use cv_agent.Db.Pool.{World}
use cv_agent.Db.Pool.Rules.{Keeps, Keeps-atomically, Keeps-statement, never-atomically}
use cv_agent.Identity.Domain.{AuthError, internal, User, DeliveryStatus, EmailChallenge, is_none}
use cv_agent.Identity.Store.{AuthStore, find_challenge, update_challenge}
use cv_agent.Identity.Challenges.{
  NewIds, refuses_challenge, create_challenge, mark_delivery_row, mark_delivery, new_row, row_added,
  insert_challenge, delivery_marked, update_delivery, count_attempt, consume, judge, load_challenge,
  verify_and_resolve_user,
}
use cv_agent.Identity.Challenges.Rows.{find-update_self, find-update_other}
use cv_agent.Identity.Challenges.Verdicts.{
  IsOpen, Judged, body-Judged, verify_and_resolve_user-IsAccepted,
}

-- Used, or out of attempts.
abbrev pub is_spent : EmailChallenge → Bool
is_spent c = not (is_none c.consumed_at) || leb c.max_attempts c.attempt_count

abbrev SpentIn : String → List EmailChallenge → Type 0
SpentIn id rows = (c : EmailChallenge) × (find_challenge id rows ≡ some c) × (is_spent c ≡ true)

abbrev pub SpentAt : String → AuthStore → Type 0
SpentAt id s = SpentIn id s.challenges

-- One call of the repository, by anyone.
pub data ChallengeCall : Type 0 where
  create : EmailChallenge → ChallengeCall
  mark : String → DeliveryStatus → ChallengeCall
  verify : NewIds → String → String → ℕ → ChallengeCall

abbrev pub run_call : ChallengeCall → World AuthStore → World AuthStore
run_call (create c) w = (create_challenge c w).1
run_call (mark id d) w = (mark_delivery id d w).1
run_call (verify ids id hash now) w = (verify_and_resolve_user ids id hash now w).1

pub run_calls : List ChallengeCall → World AuthStore → World AuthStore
run_calls [] w = w
run_calls (c ∷ cs) w = run_calls cs (run_call c w)

SpentIn-update :
    (f : EmailChallenge → EmailChallenge) (same_id : (c : EmailChallenge) → (f c).id ≡ c.id)
    (id id' : String) (rows rows' : List EmailChallenge)
    → ((c : EmailChallenge)
        → find_challenge id' rows ≡ some c
        → is_spent c ≡ true
        → is_spent (f c) ≡ true)
    → rows' ≡ update_challenge f id' rows
    → SpentIn id rows
    → SpentIn id rows'
SpentIn-update f same_id id id' rows rows' keep e (c, row, spent) =
    elim (Bool-cases (str_eq id id')) [
      | inl same ↦
          let i = str_eq→eq id id' same in
          let row' : find_challenge id' rows ≡ some c =
            subst (λ x. find_challenge x rows ≡ some c) i row in
          (
            f c,
            subst (λ x. find_challenge x rows' ≡ some (f c)) (sym i)
                (ap (find_challenge id') e ∙ find-update_self f same_id id' rows row'),
            keep c row' spent,
          )
      | inr other ↦
          (c, ap (find_challenge id) e ∙ find-update_other f same_id id id' rows other ∙ row, spent)
    ]

counted_spent :
    (c : EmailChallenge)
    → is_spent c ≡ true
    → is_spent (count_attempt (c.attempt_count + 1) c) ≡ true
counted_spent c h = ground arith

-- A new row does not hide the row of another identifier, and has no identifier of an old one.
new_row_apart :
    (id : String) (c d : EmailChallenge) (rows : List EmailChallenge)
    → refuses_challenge c rows ≡ false
    → find_challenge id rows ≡ some d
    → find_challenge id (new_row c ∷ rows) ≡ some d
new_row_apart id c d rows h row = elim (Bool-cases (str_eq c.id id)) [
  | inl same ↦
      let taken : find_challenge c.id rows ≡ some d =
        subst (λ x. find_challenge x rows ≡ some d) (sym (str_eq→eq c.id id same)) row in
      ground arith
  | inr other ↦ unfold find_challenge in rw other row
]

not_open : (c d : EmailChallenge) (now : ℕ) → c ≡ d → is_spent c ≡ true → IsOpen now d → ⊥
not_open c d now same spent (out, unused, fresh, left) =
    closed_up d (subst (λ x. is_spent x ≡ true) same spent) unused left
  where
    closed_up :
        (d : EmailChallenge)
        → is_spent d ≡ true
        → d.consumed_at ≡ none
        → d.attempt_count < d.max_attempts
        → ⊥
    closed_up d spent unused left = ground arith

module _ (id : String) where
  create-SpentAt : (c : EmailChallenge) → Keeps (SpentAt id) (create_challenge c)
  unfolding create_challenge
  create-SpentAt c =
      Keeps-statement (SpentAt id) internal (insert_challenge c) λ s n (d, row, spent).
        Ensures-exec_if internal internal _ (λ s. refuses_challenge c s.challenges) (row_added c)
          λ m h. (d, new_row_apart id c d s.challenges h row, spent)

  mark-SpentAt : (id' : String) (d : DeliveryStatus) → Keeps (SpentAt id) (mark_delivery id' d)
  unfolding mark_delivery
  mark-SpentAt id' d = Keeps-statement (SpentAt id) internal (update_delivery id' d) λ s n k.
      Ensures-exec_if internal internal _ (λ s. false) (delivery_marked id' d)
        λ m h.
          SpentIn-update (mark_delivery_row d) (λ c. refl) id id' s.challenges _
            (λ c row spent. spent) refl k

  judged-SpentAt :
      (id' hash : String) (now : ℕ) (s s' : AuthStore) (r : Result AuthError User)
      → Judged id' hash now s r s'
      → SpentAt id s
      → SpentAt id s'
  judged-SpentAt id' hash now s s' (ok u) (c, a) k =
      SpentIn-update (consume now) (λ c. refl) id id' s.challenges s'.challenges
        (λ c row spent. refl) a.consumed k
  judged-SpentAt id' hash now s s' (err e) (c, a) k =
      SpentIn-update (count_attempt (c.attempt_count + 1)) (λ c. refl) id id' s.challenges
        s'.challenges
        (λ d row spent.
          let same : c ≡ d = some-injective _ _ (sym a.row ∙ row) in
          subst (λ x. is_spent (count_attempt (c.attempt_count + 1) x) ≡ true) same
            (counted_spent c (subst (λ x. is_spent x ≡ true) (sym same) spent)))
        (ap (λ x. x.challenges) a.counted) k

  verify-SpentAt :
      (ids : NewIds) (id' hash : String) (now : ℕ)
      → Keeps (SpentAt id) (verify_and_resolve_user ids id' hash now)
  unfolding verify_and_resolve_user
  verify-SpentAt ids id' hash now =
      Keeps-atomically (SpentAt id) internal (load_challenge id' >>= judge ids now hash) λ s n k.
        Ensures-weaken (body-Judged ids id' hash now s n)
          λ r v j. judged-SpentAt id' hash now s v.store r j k

  run_call-SpentAt :
      (c : ChallengeCall) (w : World AuthStore)
      → SpentAt id w.store
      → SpentAt id (run_call c w).store
  run_call-SpentAt (create c) w k = (create-SpentAt c).at w k
  run_call-SpentAt (mark id' d) w k = (mark-SpentAt id' d).at w k
  run_call-SpentAt (verify ids id' hash now) w k = (verify-SpentAt ids id' hash now).at w k

  run_calls-SpentAt :
      (cs : List ChallengeCall) (w : World AuthStore)
      → SpentAt id w.store
      → SpentAt id (run_calls cs w).store
  unfolding run_calls
  run_calls-SpentAt [] w k = k
  run_calls-SpentAt (c ∷ cs) w k = run_calls-SpentAt cs (run_call c w) (run_call-SpentAt c w k)

  -- Nothing is judged of a spent challenge.
  spent_unjudged :
      (hash : String) (now : ℕ) (s s' : AuthStore) (r : Result AuthError User)
      → SpentAt id s
      → Judged id hash now s r s'
      → ⊥
  spent_unjudged hash now s s' (ok u) (c, row, spent) (d, a) =
      not_open c d now (some-injective _ _ (sym row ∙ a.row)) spent a.tried
  spent_unjudged hash now s s' (err e) (c, row, spent) (d, a) =
      not_open c d now (some-injective _ _ (sym row ∙ a.row)) spent a.tried

  -- A challenge that was used or is out of attempts is refused at any time, with any code, after any
  -- calls by anyone, and the refusal changes nothing.
  pub spent_forever :
      (w : World AuthStore)
      → SpentAt id w.store
      → (calls : List ChallengeCall) (ids : NewIds) (hash : String) (now : ℕ)
      → let later = run_calls calls w in
        (e : AuthError) × ((verify_and_resolve_user ids id hash now later).0 ≡ err e)
        × ((verify_and_resolve_user ids id hash now later).1.store ≡ later.store)
  unfolding verify_and_resolve_user
  spent_forever w spent calls ids hash now =
      let later = run_calls calls w in
      let k = run_calls-SpentAt calls w spent in
      never-atomically internal (load_challenge id >>= judge ids now hash) later λ n.
        Ensures-weaken (body-Judged ids id hash now later.store n)
          λ r v j. spent_unjudged hash now later.store v.store r k j

-- A code works once: after a verification returned a user, every later one of that challenge is
-- refused, at any time, with any code, after any calls by anyone, and changes nothing.
pub single_use :
    (ids ids' : NewIds) (id hash hash' : String) (now now' : ℕ) (w : World AuthStore) (u : User)
    (calls : List ChallengeCall)
    → (verify_and_resolve_user ids id hash now w).0 ≡ ok u
    → let later = run_calls calls (verify_and_resolve_user ids id hash now w).1 in
      (e : AuthError) × ((verify_and_resolve_user ids' id hash' now' later).0 ≡ err e)
      × ((verify_and_resolve_user ids' id hash' now' later).1.store ≡ later.store)
single_use ids ids' id hash hash' now now' w u calls done =
    let (c, a) = verify_and_resolve_user-IsAccepted ids id hash now w u done in
    spent_forever id (verify_and_resolve_user ids id hash now w).1
      (
        consume now c,
        ap (find_challenge id) a.consumed
            ∙ find-update_self (consume now) (λ c. refl) id w.store.challenges a.row,
        refl,
      )
      calls ids' hash' now'
