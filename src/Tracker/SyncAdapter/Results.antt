-- ===== src/Tracker/SyncAdapter/Results.antt =====
-- The answers of the application handler of a push
-- (internal/modules/tracker/syncadapter/application_command_handler.go).
use mathlib.Core.Option.{some-injective}
use cv_agent.Sync.Operations.{Codec, find}
use cv_agent.Sync.Handlers.{Fault, CommandHandler, handler_of}
use cv_agent.Sync.Changes.{type_application}
use cv_agent.Sync.Push.{PushDb, Attempt, apply_one}
use cv_agent.Sync.Push.Business.{IsCareful, apply_one-business}
use cv_agent.Tracker.SyncAdapter.{application_handler}
use cv_agent.Base.{
  [], ◌∷◌, Bool-cases, subst, sym, ap, ◌∙◌, str_eq, if◌then◌else◌, String, ◌≡◌, refl, ◌⊎◌, inl, inr,
  Option, none, some, arith,
}
use cv_agent.Db.{Result, ok, err, M}
use cv_agent.Db.Clean.{IsClean}
use cv_agent.Sync.Types.{
  Action, create, update, delete, transition, ResultStatus, applied, ApplyResult, Command,
  StoredOperation,
}
use cv_agent.Tracker.Domain.{Error, Application}
use cv_agent.Tracker.Store.{Store}
use cv_agent.Tracker.Application.{Env}
use cv_agent.Tracker.Application.Clean.{
  create_in_tx-IsClean, update_in_tx-IsClean, delete_in_tx-IsClean, transition_in_tx-IsClean,
}
use cv_agent.Tracker.SyncAdapter.{application_result, answered, refuse, apply, apply_action}
use cv_agent.Tracker.SyncAdapter.Payloads.{
  Formats, ApplicationPayload, create_of, update_of, transition_of,
}

result-status :
    (f : Formats) (r : Result Error Application) (a : ApplyResult ApplicationPayload)
    → application_result f r ≡ ok a
    → (a.status ≡ applied) ⊎ ((e : Error) × (r ≡ err e))
unfolding application_result
result-status f (ok app) a h = inl (ground arith)
result-status f (err e) a h = inr (e, refl)

answered-IsCareful :
    (f : Formats) (m : M Store Error Application) → IsClean m → IsCareful (answered f m)
answered-IsCareful f m clean = record {
  at = λ t a h. elim (result-status f (m t).0 a h) [
    | inl good ↦ inl good
    | inr (e, failed) ↦ inr (clean.at t e failed)
  ];
}

refuse-IsCareful : (s : ResultStatus) (code : String) → IsCareful (refuse s code)
refuse-IsCareful s code = record { at = λ t a h. inr (inl refl) }

optional-IsCareful :
    {X : Type 0} (o : Option X) (m : M Store Fault (ApplyResult ApplicationPayload))
    (k : X → M Store Fault (ApplyResult ApplicationPayload))
    → IsCareful m
    → ((x : X) → IsCareful (k x))
    → IsCareful (elim o [ none ↦ m | some x ↦ k x ])
optional-IsCareful none m k cm ck = cm
optional-IsCareful (some x) m k cm ck = ck x

module _ (f : Formats) (env : Env) where
  apply_action-IsCareful : (x : Action) (c : Command) → IsCareful (apply_action f env x c)
  apply_action-IsCareful create c =
      optional-IsCareful (f.decode_create c.operation.payload) _ _ (refuse-IsCareful _ _) λ r.
        answered-IsCareful f _
          (create_in_tx-IsClean env c.user_id c.device_id (create_of r c.operation.entity_id))
  apply_action-IsCareful update c =
      optional-IsCareful c.operation.expected_version _ _ (refuse-IsCareful _ _) λ v.
        optional-IsCareful (f.decode_update c.operation.payload) _ _ (refuse-IsCareful _ _) λ r.
          answered-IsCareful f _
            (update_in_tx-IsClean env c.user_id c.device_id c.operation.entity_id (update_of r v))
  apply_action-IsCareful transition c =
      optional-IsCareful c.operation.expected_version _ _ (refuse-IsCareful _ _) λ v.
        optional-IsCareful (f.decode_transition c.operation.payload) _ _ (refuse-IsCareful _ _) λ r.
          answered-IsCareful f _ (
            transition_in_tx-IsClean env c.user_id c.device_id c.operation.entity_id
              (transition_of r v c.operation.operation_id))
  apply_action-IsCareful delete c =
      optional-IsCareful c.operation.expected_version _ _ (refuse-IsCareful _ _) λ v.
        answered-IsCareful f _
          (delete_in_tx-IsClean env c.user_id c.device_id c.operation.entity_id v)
  apply_action-IsCareful (Action.unknown s) c = refuse-IsCareful _ _

  -- The handler answers `applied`, or leaves nothing to commit: what push relies on.
  pub apply-IsCareful : (c : Command) → IsCareful (apply f env c)
  unfolding apply
  apply-IsCareful c = apply_action-IsCareful c.operation.action c

  registered-IsCareful :
      (c : Command) (h : CommandHandler ApplicationPayload Store)
      → handler_of c.operation.entity_type (application_handler f env ∷ []) ≡ some h
      → IsCareful (h.apply c)
  unfolding handler_of
  registered-IsCareful c h p = elim (Bool-cases (str_eq type_application c.operation.entity_type)) [
    | inl same ↦
        subst (λ (k : CommandHandler ApplicationPayload Store). IsCareful (k.apply c))
          (some-injective _ _
            (sym (ap (λ b. if b then some (application_handler f env) else none) same) ∙ p))
          (apply-IsCareful c)
    | inr other ↦
        absurd (cc (sym (ap (λ b. if b then some (application_handler f env) else none) other) ∙ p))
  ]

  -- With the tracker's application handler alone, whatever operation is pushed and whatever fails: the
  -- tracker's tables are as they were, or the operation was new and its result is stored with the
  -- status `applied`.
  pub apply_one-application :
      (codec : Codec) (at : Attempt) (c : Command) (db : PushDb ApplicationPayload Store)
      → let after = (apply_one (application_handler f env ∷ []) codec at c db).1 in
        (after.business ≡ db.business)
        ⊎ ((st : StoredOperation ApplicationPayload) × (find c.user_id c.operation.operation_id
                db.operations
              ≡ none)
            × (find c.user_id c.operation.operation_id after.operations ≡ some st)
            × (st.status ≡ applied))
  apply_one-application codec at c db =
      apply_one-business (application_handler f env ∷ []) codec at c db (registered-IsCareful c)
