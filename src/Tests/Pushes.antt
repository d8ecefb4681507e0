-- ===== src/Tests/Pushes.antt =====
-- A push of counters: one handler that adds one, under an encoding that keeps the payload.
use cv_agent.Base.{
  ℕ, ◌+◌, String, ◌≡◌, ◌≢◌, refl, ◌⊎◌, true, false, none, some, List, [], ◌∷◌, pos, ap, str_eq,
  if◌then◌else◌,
}
use cv_agent.Db.{ok}
use cv_agent.Sync.Types.{
  create, applied, retryable_error, PushOperation, Command, ApplyResult, conflict,
}
use cv_agent.Sync.Operations.{Codec, hash_operation, find, row_of, save}
use cv_agent.Sync.Handlers.{CommandHandler, handler_of}
use cv_agent.Sync.Push.{
  PushDb, Attempt, acknowledged, lost, apply_one, apply_new, in_tx, push, retryable, base_of,
  is_transient, from_apply, failed,
}
use cv_agent.Sync.Push.Replay.{apply_one-fresh, Committed}
use cv_agent.Sync.Push.Once.{reuse-refused, push-kept, retry-repeats, repeated}
use cv_agent.Sync.Push.Rows.{AreValid, push-AreValid}

abbrev codec : Codec
codec = record {
  Json = String;
  decode = λ s. if str_eq s "" then none else some s;
  marshal = λ d. some d.payload;
  sha256_hex = λ s. s;
}

abbrev counted : ApplyResult ℕ
counted = record {
  status = applied;
  applied_version = some (pos 1);
  error_code = "";
  server_entity = some 7;
}

abbrev counter : CommandHandler ℕ ℕ
counter = record {
  entity_type = "counter";
  apply = λ c t. (ok counted, record { store = t.store + 1; budget = t.budget });
}

abbrev operation : String → String → PushOperation
operation id payload = record {
  operation_id = id;
  entity_type = "counter";
  entity_id = "c";
  action = create;
  expected_version = none;
  payload = payload;
}

abbrev command : String → String → Command
command id payload = record { user_id = "u"; device_id = "d"; operation = operation id payload }

abbrev good : Attempt
good = record { begins = true; budget = 9; commit = acknowledged; now = 100 }

abbrev cut : Attempt
cut = record { begins = true; budget = 9; commit = lost; now = 101 }

abbrev empty : PushDb ℕ ℕ
empty = record { business = 0; operations = [] }

abbrev filled : PushDb ℕ ℕ
filled = record { business = 1; operations = row_of (command "1" "{}") "{}" counted 100 ∷ [] }

abbrev others : List (Attempt × PushOperation)
others = (cut, operation "2" "{}") ∷ (good, operation "2" "{}") ∷ []

false≢true : false ≢ true
false≢true p = cc

answered : (apply_one (counter ∷ []) codec good (command "1" "{}") empty).0.status ≢ retryable_error
unfolding apply_one in_tx apply_new hash_operation find handler_of save
answered p = let q : false ≡ true = ap is_transient p in absurd (false≢true q)

retry-repeats_example :
    let (r, after) = apply_one (counter ∷ []) codec good (command "1" "{}") empty in
    let later = (push (counter ∷ []) codec "u" "d" others after).1 in
    (apply_one (counter ∷ []) codec cut (command "1" "{}") later ≡ (repeated r, later))
    ⊎ (apply_one (counter ∷ []) codec cut (command "1" "{}") later
        ≡ (retryable (base_of (operation "1" "{}")), later))
unfolding hash_operation find
retry-repeats_example =
    retry-repeats (counter ∷ []) codec good cut (command "1" "{}") empty "{}" "u" "d" others refl
      refl answered

other_payload : ◌≢◌ {A = String} "[]" "{}"
other_payload p = let q : false ≡ true = ap (str_eq "{}") p in absurd (false≢true q)

-- The same identifier with another payload.
reuse-refused_example :
    let later =
      (push
        (counter ∷ [])
        codec
        "u"
        "d"
        others
        (apply_one (counter ∷ []) codec good (command "1" "{}") empty).1).1 in
    (apply_one (counter ∷ []) codec good (command "1" "[]") later ≡ (
      from_apply (base_of (operation "1" "[]")) (failed conflict "idempotency_key_reused"),
      later,
    ))
    ⊎ (apply_one (counter ∷ []) codec good (command "1" "[]") later
        ≡ (retryable (base_of (operation "1" "[]")), later))
unfolding hash_operation find
reuse-refused_example =
    reuse-refused (counter ∷ []) codec good good (command "1" "{}") (command "1" "[]") empty "{}"
      "[]" "u" "d" others refl refl other_payload refl refl refl answered

apply_one-fresh_example :
    (apply_one (counter ∷ []) codec good (command "1" "{}") empty
      ≡ (retryable (base_of (operation "1" "{}")), empty))
    ⊎ Committed (counter ∷ []) codec (command "1" "{}") empty "{}" good
unfolding hash_operation find
apply_one-fresh_example =
    apply_one-fresh (counter ∷ []) codec (command "1" "{}") empty "{}" refl refl good

push-kept_example :
    find "u" "1" (push (counter ∷ []) codec "u" "d" others filled).1.operations
    ≡ some (row_of (command "1" "{}") "{}" counted 100).stored
unfolding find
push-kept_example = push-kept (counter ∷ []) codec "u" "d" others filled "u" "1" refl

push-AreValid_example : AreValid (push (counter ∷ []) codec "u" "d" others filled).1.operations
unfolding find
push-AreValid_example = push-AreValid (counter ∷ []) codec "u" "d" others filled (refl, refl, tt)
