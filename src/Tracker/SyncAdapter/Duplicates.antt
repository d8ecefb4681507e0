-- ===== src/Tracker/SyncAdapter/Duplicates.antt =====
-- A create that collides with a stored application, sent through a push
-- (internal/modules/tracker/syncadapter/application_command_handler.go, internal/modules/sync/push.go).
use cv_agent.Base.{
  String, true, false, str_eq, subst, Bool, ◌≡◌, ◌≢◌, refl, inl, inr, Option, none, some, List, ap,
  sym, ◌∙◌, arith, Option-cases,
}
use cv_agent.Db.{Result, ok, err, Tx, M}
use cv_agent.Sync.Types.{create, ApplyResult, Command, OperationResult}
use cv_agent.Sync.Operations.{Codec, hash_operation, find}
use cv_agent.Sync.Handlers.{Fault, CommandHandler, handler_of}
use cv_agent.Sync.Push.{PushDb, Attempt, base_of, from_apply, apply_one, handle}
use cv_agent.Sync.Push.Replay.{apply_one-fresh, apply_one_unhashed}
use cv_agent.Tracker.Domain.{Error, duplicate, Application}
use cv_agent.Tracker.Store.{Store}
use cv_agent.Tracker.Application.{Env, create_in_tx}
use cv_agent.Tracker.Application.Duplicates.{is_duplicate, create_in_tx-Collides}
use cv_agent.Tracker.SyncAdapter.{
  application_result, answered, apply, apply_create, application_handler, apply_action, no_payload,
}
use cv_agent.Tracker.SyncAdapter.Payloads.{CreateCommand, Formats, ApplicationPayload, create_of}

abbrev says_duplicate : Result Fault (ApplyResult ApplicationPayload) → Bool
says_duplicate (ok a) = str_eq a.error_code "duplicate_application"
says_duplicate (err e) = false

abbrev reports_duplicate : Result Error Application → Bool
reports_duplicate (ok app) = false
reports_duplicate (err e) = is_duplicate e

says-reports :
    (f : Formats) (r : Result Error Application)
    → says_duplicate (application_result f r) ≡ reports_duplicate r
unfolding application_result
says-reports f (ok app) = refl
says-reports f (err duplicate) = refl
says-reports f (err _) = refl

reported :
    (r : Result Error Application)
    → reports_duplicate r ≡ true
    → (e : Error) × (r ≡ err e) × (is_duplicate e ≡ true)
reported (ok app) h = cc
reported (err e) h = (e, refl, h)

result-duplicate :
    (f : Formats) (r : Result Error Application) (a : ApplyResult ApplicationPayload)
    → application_result f r ≡ ok a
    → str_eq a.error_code "duplicate_application" ≡ true
    → (e : Error) × (r ≡ err e) × (is_duplicate e ≡ true)
result-duplicate f r a h d = reported r (sym (says-reports f r) ∙ ap says_duplicate h ∙ d)

abbrev decoded :
    Formats → Env → Command → Option CreateCommand → M Store Fault (ApplyResult ApplicationPayload)
decoded f env c o = elim o [
  | none ↦ no_payload
  | some request ↦
      answered f (create_in_tx env c.user_id c.device_id (create_of request c.operation.entity_id))
]

module _ (f : Formats) (env : Env) (c : Command) (t : Tx Store)
    (a : ApplyResult ApplicationPayload) where
  create_dead :
      (apply_create f env c t).0 ≡ ok a
      → str_eq a.error_code "duplicate_application" ≡ true
      → (apply_create f env c t).1.budget ≡ 0
  create_dead h d = go (f.decode_create c.operation.payload) h
    where
      go :
          (o : Option CreateCommand)
          → (decoded f env c o t).0 ≡ ok a
          → (decoded f env c o t).1.budget ≡ 0
      go none h = cc (ap says_duplicate h, d)
      go (some r) h =
          let (e, bad, dup) = result-duplicate f _ a h d in
          (create_in_tx-Collides env c.user_id c.device_id (create_of r c.operation.entity_id)).at t
            e bad dup

  apply_dead :
      c.operation.action ≡ create
      → (apply f env c t).0 ≡ ok a
      → str_eq a.error_code "duplicate_application" ≡ true
      → (apply f env c t).1.budget ≡ 0
  unfolding apply
  apply_dead x =
      subst
        (λ y.
          (apply_action f env y c t).0 ≡ ok a
          → str_eq a.error_code "duplicate_application" ≡ true
          → (apply_action f env y c t).1.budget ≡ 0)
        (sym x) create_dead

-- The test on an error code that is there.
abbrev is_dup : Option String → Bool
is_dup none = false
is_dup (some s) = str_eq s "duplicate_application"

code_of :
    (c : Command) (a : ApplyResult ApplicationPayload)
    → is_dup (from_apply (base_of c.operation) a).error_code ≡ true
    → str_eq a.error_code "duplicate_application" ≡ true
code_of c a h = ground arith

-- With the application handler registered, a create that has no stored result is never answered by
-- the error code `duplicate_application`.
pub apply_one-not_duplicate :
    (f : Formats) (env : Env) (codec : Codec)
    (handlers : List (CommandHandler ApplicationPayload Store)) (at : Attempt) (c : Command)
    (db : PushDb ApplicationPayload Store)
    → handler_of c.operation.entity_type handlers ≡ some (application_handler f env)
    → c.operation.action ≡ create
    → find c.user_id c.operation.operation_id db.operations ≡ none
    → (apply_one handlers codec at c db).0.error_code ≢ some "duplicate_application"
apply_one-not_duplicate f env codec handlers at c db registered x fresh bad =
    elim (Option-cases (hash_operation codec c.operation)) [
      | inl unhashed ↦
          no_dup refl (ap (λ p. p.0) (apply_one_unhashed handlers codec at c db unhashed))
      | inr (hash, hashed) ↦ elim (apply_one-fresh handlers codec c db hash hashed fresh at) [
        | inl e ↦ no_dup refl (ap (λ p. p.0) e)
        | inr (a, t, n, ran, lasting, alive, e, inr answer) ↦ no_dup refl answer
        | inr (a, t, n, ran, lasting, alive, e, inl answer) ↦
            let ran' =
              ap (λ h. handle h c (record { store = db.business; budget = n })) (sym registered)
              ∙ ran in
            absurd (
              alive (
                sym (ap (λ p. p.1.budget) ran')
                ∙ apply_dead f env c (record { store = db.business; budget = n }) a x
                    (ap (λ p. p.0) ran')
                    (code_of c a (sym (ap (λ p. is_dup p.error_code) answer) ∙ ap is_dup bad))))
      ]
    ]
  where
    no_dup :
        {r : OperationResult ApplicationPayload}
        → is_dup r.error_code ≡ false
        → (apply_one handlers codec at c db).0 ≡ r
        → ⊥
    no_dup p q = cc (sym (ap is_dup bad) ∙ ap (λ p. is_dup p.error_code) q ∙ p)
