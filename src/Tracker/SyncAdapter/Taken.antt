-- ===== src/Tracker/SyncAdapter/Taken.antt =====
-- A new interview round with a number that is taken
-- (internal/modules/tracker/application/interview_service.go,
-- internal/modules/tracker/postgres/interview_repo.go,
-- internal/modules/tracker/syncadapter/interview_command_handler.go).
use cv_agent.Base.{
  ℕ, zero, suc, String, ◌≡◌, refl, ap, inl, inr, Bool-cases, Option-cases, Bool, true, false, not,
  ◌&&◌, ◌||◌, Option, none, some, List, [], ◌∷◌, ℤ, arith, str_eq, eqb_ℤ, is_empty,
}
use cv_agent.Db.{Result, ok, err, Tx, continue, ◌>>=◌}
use cv_agent.Sync.Types.{create, Command}
use cv_agent.Sync.Handlers.{fault}
use cv_agent.Tracker.Domain.{Error, internal, InterviewRound, InterviewWrite}
use cv_agent.Tracker.Validate.{is_some}
use cv_agent.Tracker.Store.{Store, Act, find_live}
use cv_agent.Tracker.Application.{Env, choose_id}
use cv_agent.Tracker.Children.{
  has_clash, created_child, insert_child, add_valid, add_child, validate_link,
}
use cv_agent.Tracker.Children.Kinds.{interviews}
use cv_agent.Tracker.Children.Validate.{validate_interview}
use cv_agent.Tracker.SyncAdapter.ChildPayloads.{ChildFormats, InterviewCommand, interview_write_of}
use cv_agent.Tracker.SyncAdapter.Children.{interview_result, apply_interview}

-- A live round of the application has the number.
unfoldable pub is_taken : String → ℤ → List InterviewRound → Bool
is_taken app number [] = false
is_taken app number (i ∷ rest) =
    (str_eq i.application_id app && eqb_ℤ i.round_number number && not (is_some i.deleted_at))
    || is_taken app number rest

continue-err :
    {A B : Type 0} {r : Result Error A} (f : A → Act B) (t : Tx Store) (e : Error)
    → r ≡ err e
    → (continue r f t).0 ≡ err e
continue-err f t e h = ap (λ x. (continue x f t).0) h

-- Whatever identifier is chosen.
after_choice :
    {A : Type 0} (fresh : Option String) (given : String) (k : String → Act A) (t : Tx Store)
    → ((id : String) → (k id t).0 ≡ err internal)
    → ((choose_id fresh given >>= k) t).0 ≡ err internal
after_choice fresh given k t h = elim (Bool-cases (is_empty given)) [
  | inr named ↦ rw named (h given)
  | inl unnamed ↦ elim (Option-cases fresh) [
    | inl no_entropy ↦ rw (unnamed, no_entropy) refl
    | inr (i, drawn) ↦ rw (unnamed, drawn) (h i)
  ]
]

module _ (env : Env) (user device app : String) (w : InterviewWrite) where
  taken-has_clash :
      (id : String) (rows : List InterviewRound)
      → is_taken app w.round_number rows ≡ true
      → has_clash interviews (created_child interviews env user device app w id) rows ≡ true
  unfolding is_taken has_clash
  taken-has_clash id [] h = cc
  taken-has_clash id (i ∷ rest) h = ground (arith, taken-has_clash id rest)

  insert-taken :
      (id : String) (n : ℕ) (s : Store)
      → is_taken app w.round_number s.interviews ≡ true
      → (insert_child interviews
          (created_child interviews env user device app w id)
          (record { store = s; budget = n })).0
        ≡ err internal
  insert-taken id n s taken = ground (arith, taken-has_clash id s.interviews)

  add_valid-taken :
      (n : ℕ) (s : Store)
      → is_some (find_live user app s.applications) ≡ true
      → is_taken app w.round_number s.interviews ≡ true
      → (add_valid interviews env user device app w (record { store = s; budget = n })).0
        ≡ err internal
  unfolding add_valid validate_link
  add_valid-taken zero s live taken = refl
  add_valid-taken (suc n) s live taken = rw live (
      after_choice env.fresh_id w.id _ _
        λ id. continue-err _ _ internal (insert-taken id n s taken))

module _ (f : ChildFormats) (env : Env) (c : Command) (t : Tx Store) (r : InterviewCommand) where
  -- A pushed create of an interview round that decodes and is valid, for a live application of the user
  -- that has a live round of that number, ends in an error that is not reported as a conflict: the
  -- handler fails, whether or not the statements fail.
  pub taken_round-fault :
      (w : InterviewWrite)
      → c.operation.action ≡ create
      → f.decode_interview c.operation.payload ≡ some r
      → validate_interview (interview_write_of r none c.operation.entity_id) ≡ ok w
      → is_some (find_live c.user_id r.application_id t.store.applications) ≡ true
      → is_taken r.application_id w.round_number t.store.interviews ≡ true
      → (apply_interview f env c t).0 ≡ err fault
  unfolding apply_interview add_child interview_result
  taken_round-fault w is_create decoded valid live taken =
      rw (is_create, decoded, valid)
        (ap (interview_result f) (
          add_valid-taken env c.user_id c.device_id r.application_id w t.budget t.store live taken))
