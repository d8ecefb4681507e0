-- ===== src/Tracker/SyncAdapter/ChildResults.antt =====
-- The answers of all handlers of the tracker to a push
-- (internal/modules/tracker/syncadapter, internal/modules/tracker/module.go).
use cv_agent.Base.{
  [], ◌∷◌, Bool-cases, subst, sym, ap, ◌∙◌, str_eq, if◌then◌else◌, ◌≡◌, refl, ◌⊎◌, inl, inr, Option,
  none, some, List, All, ℤ, arith,
}
use mathlib.Core.Option.{some-injective}
use cv_agent.Db.{Result, ok, err, Tx}
use cv_agent.Db.Clean.{IsClean}
use cv_agent.Sync.Types.{
  EntityType, Action, create, update, delete, transition, applied, ApplyResult, Command,
  StoredOperation,
}
use cv_agent.Sync.Operations.{Codec, find}
use cv_agent.Sync.Handlers.{Fault, CommandHandler, handler_of}
use cv_agent.Sync.Push.{PushDb, Attempt, apply_one}
use cv_agent.Sync.Push.Business.{IsCareful, apply_one-business}
use cv_agent.Tracker.Domain.{Error, InterviewRound, Note, Reminder}
use cv_agent.Tracker.Store.{Store, Act}
use cv_agent.Tracker.Application.{Env}
use cv_agent.Tracker.Children.Kinds.{interviews, notes, reminders}
use cv_agent.Tracker.Children.Clean.{
  add_child-IsClean, replace_child-IsClean, remove_child-IsClean, add_reminder-IsClean,
}
use cv_agent.Tracker.SyncAdapter.{application_handler}
use cv_agent.Tracker.SyncAdapter.Results.{apply-IsCareful}
use cv_agent.Tracker.SyncAdapter.ChildPayloads.{
  ChildFormats, TrackerPayload, application, interview_write_of, note_write_of, reminder_write_of,
}
use cv_agent.Tracker.SyncAdapter.Children.{
  Switch, Answer, answer, child_answered, switch, interview_result, note_result, reminder_result,
  interview_switch, note_switch, reminder_switch, apply_interview, apply_note, apply_reminder,
  widened, widen, commands,
}

interview_result-status :
    (f : ChildFormats) (r : Result Error InterviewRound) (a : ApplyResult TrackerPayload)
    → interview_result f r ≡ ok a
    → (a.status ≡ applied) ⊎ ((e : Error) × (r ≡ err e))
unfolding interview_result
interview_result-status f (ok i) a h = inl (ground arith)
interview_result-status f (err e) a h = inr (e, refl)

note_result-status :
    (f : ChildFormats) (r : Result Error Note) (a : ApplyResult TrackerPayload)
    → note_result f r ≡ ok a
    → (a.status ≡ applied) ⊎ ((e : Error) × (r ≡ err e))
unfolding note_result
note_result-status f (ok n) a h = inl (ground arith)
note_result-status f (err e) a h = inr (e, refl)

reminder_result-status :
    (f : ChildFormats) (r : Result Error Reminder) (a : ApplyResult TrackerPayload)
    → reminder_result f r ≡ ok a
    → (a.status ≡ applied) ⊎ ((e : Error) × (r ≡ err e))
unfolding reminder_result
reminder_result-status f (ok m) a h = inl (ground arith)
reminder_result-status f (err e) a h = inr (e, refl)

answer-IsCareful : (x : ApplyResult TrackerPayload) → IsCareful (answer x)
answer-IsCareful x = record { at = λ t a h. inr (inl refl) }

optional-IsCareful :
    {X : Type 0} (o : Option X) (m : Answer) (k : X → Answer)
    → IsCareful m
    → ((x : X) → IsCareful (k x))
    → IsCareful (elim o [ none ↦ m | some x ↦ k x ])
optional-IsCareful none m k cm ck = cm
optional-IsCareful (some x) m k cm ck = ck x

-- A switch over commands that leave nothing to commit when they fail.
module _ {A C : Type 0} (w : Switch A C)
    (status : (r : Result Error A) (a : ApplyResult TrackerPayload)
      → w.result r ≡ ok a
      → (a.status ≡ applied) ⊎ ((e : Error) × (r ≡ err e)))
    (create_clean : (c : Command) (r : C) → IsClean (w.on_create c r))
    (update_clean : (c : Command) (r : C) (v : ℤ) → IsClean (w.on_update c r v))
    (delete_clean : (c : Command) (v : ℤ) → IsClean (w.on_delete c v)) where
  child_answered-IsCareful : (m : Act A) → IsClean m → IsCareful (child_answered w m)
  child_answered-IsCareful m clean = record {
    at = λ t a h. elim (status (m t).0 a h) [
      | inl good ↦ inl good
      | inr (e, failed) ↦ inr (clean.at t e failed)
    ];
  }

  switch-IsCareful : (x : Action) (c : Command) → IsCareful (switch w x c)
  switch-IsCareful create c =
      optional-IsCareful (w.decode c.operation.payload) _ _ (answer-IsCareful _)
        λ r. child_answered-IsCareful _ (create_clean c r)
  switch-IsCareful update c =
      optional-IsCareful c.operation.expected_version _ _ (answer-IsCareful _) λ v.
        optional-IsCareful (w.decode c.operation.payload) _ _ (answer-IsCareful _)
          λ r. child_answered-IsCareful _ (update_clean c r v)
  switch-IsCareful delete c =
      optional-IsCareful c.operation.expected_version _ _ (answer-IsCareful _)
        λ v. child_answered-IsCareful _ (delete_clean c v)
  switch-IsCareful transition c = answer-IsCareful _
  switch-IsCareful (Action.unknown s) c = answer-IsCareful _

-- A handler that answers `applied`, or leaves nothing to commit.
abbrev pub Careful : {Entity : Type 0} → CommandHandler Entity Store → Type 0
Careful h = (c : Command) → IsCareful (h.apply c)

module _ (f : ChildFormats) (env : Env) where
  pub apply_interview-IsCareful : (c : Command) → IsCareful (apply_interview f env c)
  unfolding apply_interview
  apply_interview-IsCareful c =
      switch-IsCareful (interview_switch f env) (interview_result-status f)
        (λ d r.
          add_child-IsClean interviews env d.user_id d.device_id r.application_id
            (interview_write_of r none d.operation.entity_id))
        (λ d r v.
          replace_child-IsClean interviews env d.user_id d.device_id d.operation.entity_id
            (interview_write_of r (some v) ""))
        (λ d v. remove_child-IsClean interviews env d.user_id d.device_id d.operation.entity_id v)
        c.operation.action c

  pub apply_note-IsCareful : (c : Command) → IsCareful (apply_note f env c)
  unfolding apply_note
  apply_note-IsCareful c =
      switch-IsCareful (note_switch f env) (note_result-status f)
        (λ d r.
          add_child-IsClean notes env d.user_id d.device_id r.application_id
            (note_write_of r none d.operation.entity_id))
        (λ d r v.
          replace_child-IsClean notes env d.user_id d.device_id d.operation.entity_id
            (note_write_of r (some v) ""))
        (λ d v. remove_child-IsClean notes env d.user_id d.device_id d.operation.entity_id v)
        c.operation.action c

  pub apply_reminder-IsCareful : (c : Command) → IsCareful (apply_reminder f env c)
  unfolding apply_reminder
  apply_reminder-IsCareful c =
      switch-IsCareful (reminder_switch f env) (reminder_result-status f)
        (λ d r.
          add_reminder-IsClean env d.user_id d.device_id
            (reminder_write_of r none d.operation.entity_id))
        (λ d r v.
          replace_child-IsClean reminders env d.user_id d.device_id d.operation.entity_id
            (reminder_write_of r (some v) ""))
        (λ d v. remove_child-IsClean reminders env d.user_id d.device_id d.operation.entity_id v)
        c.operation.action c

widen-Careful :
    {P : Type 0} (g : P → TrackerPayload) (h : CommandHandler P Store)
    → Careful h
    → Careful (widen g h)
widen-Careful {P} g h careful c = record {
  at = λ t a e. go t (h.apply c t).0 a ((careful c).at t) e;
}
  where
    go :
        (t : Tx Store) (r : Result Fault (ApplyResult P)) (a : ApplyResult TrackerPayload)
        → ((b : ApplyResult P)
            → r ≡ ok b
            → (b.status ≡ applied)
              ⊎ (((h.apply c t).1.store ≡ t.store) ⊎ ((h.apply c t).1.budget ≡ 0)))
        → widened g r ≡ ok a
        → (a.status ≡ applied) ⊎ (((h.apply c t).1.store ≡ t.store) ⊎ ((h.apply c t).1.budget ≡ 0))
    go t (ok b) a k e = elim (k b refl) [ inl good ↦ inl (ground arith) | inr rest ↦ inr rest ]
    go t (err d) a k e = cc

registered-Careful :
    {Entity : Type 0} (e : EntityType) (hs : List (CommandHandler Entity Store))
    → All Careful hs
    → (h : CommandHandler Entity Store) → handler_of e hs ≡ some h
    → Careful h
unfolding handler_of
registered-Careful e [] all h p = cc
registered-Careful e (x ∷ hs) all h p = elim (Bool-cases (str_eq x.entity_type e)) [
  | inl same ↦
      subst Careful
        (some-injective _ _ (sym (ap (λ b. if b then some x else handler_of e hs) same) ∙ p)) all.0
  | inr other ↦
      registered-Careful e hs all.1 h
        (sym (ap (λ b. if b then some x else handler_of e hs) other) ∙ p)
]

module _ (f : ChildFormats) (env : Env) where
  commands-Careful : All Careful (commands f env)
  unfolding commands
  commands-Careful = (
    widen-Careful application (application_handler f.formats env) (apply-IsCareful f.formats env),
    (
      apply_interview-IsCareful f env,
      (apply_note-IsCareful f env, (apply_reminder-IsCareful f env, tt)),
    ),
  )

  -- With the tracker's four handlers, whatever operation is pushed and whatever fails: the tracker's
  -- tables are as they were, or the operation was new and its result is stored with the status
  -- `applied`.
  pub apply_one-tracker :
      (codec : Codec) (at : Attempt) (c : Command) (db : PushDb TrackerPayload Store)
      → let after = (apply_one (commands f env) codec at c db).1 in
        (after.business ≡ db.business)
        ⊎ ((st : StoredOperation TrackerPayload) × (find c.user_id c.operation.operation_id
                db.operations
              ≡ none)
            × (find c.user_id c.operation.operation_id after.operations ≡ some st)
            × (st.status ≡ applied))
  apply_one-tracker codec at c db =
      apply_one-business (commands f env) codec at c db
        (λ h p. registered-Careful c.operation.entity_type (commands f env) commands-Careful h p c)
