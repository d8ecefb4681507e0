-- ===== src/Tracker/Application/Duplicates.antt =====
-- Where `ErrDuplicate` comes from in `CreateInTx` (internal/modules/tracker/application).
use cv_agent.Base.{String, Bool, true, false, ◌≡◌, refl, Option, none, some, arith, if◌then◌else◌}
use cv_agent.Db.{Result, ok, err, Tx, continue, ◌>>=◌, pure, fail}
use cv_agent.Db.Clean.{Aborts, Aborts-exec}
use cv_agent.Tracker.Domain.{Error, duplicate, invalid_input, Create}
use cv_agent.Tracker.Validate.{validate_create}
use cv_agent.Tracker.Store.{Act}
use cv_agent.Tracker.Application.{
  Env, Lookup, found, missing, failed, check, title_of, resolve_title, choose_id, create_in_tx,
}

abbrev pub is_duplicate : Error → Bool
is_duplicate duplicate = true
is_duplicate _ = false

-- An error of `m` that is `duplicate` has aborted the transaction.
pub record Collides {A : Type 0} (m : Act A) : Type 0 where
  pub at : (t : Tx _) (e : Error) → (m t).0 ≡ err e → is_duplicate e ≡ true → (m t).1.budget ≡ 0

module _ {A : Type 0} where
  Collides-pure : (a : A) → Collides (pure a)
  Collides-pure a = record { at = λ t e h d. cc }

  Collides-fail : (e : Error) → is_duplicate e ≡ false → Collides (fail {A = A} e)
  Collides-fail e p = record { at = λ t d h q. ground arith }

  Aborts-Collides : (m : Act A) → Aborts m → Collides m
  Aborts-Collides m k = record { at = λ t e h d. k.at t e h }

module _ {A B : Type 0} (m : Act A) (f : A → Act B) where
  Collides-bind : Collides m → ((a : A) → Collides (f a)) → Collides (m >>= f)
  Collides-bind km kf = record { at = λ t e h d. go e (m t).0 (m t).1 (km.at t) h d }
    where
      go :
          (e : Error) (r : Result Error A) (u : Tx _)
          → ((c : Error) → r ≡ err c → is_duplicate c ≡ true → u.budget ≡ 0)
          → (continue r f u).0 ≡ err e
          → is_duplicate e ≡ true
          → (continue r f u).1.budget ≡ 0
      go e (ok a) u k h d = (kf a).at u e h d
      go e (err c) u k h d = k c refl (ground arith)

-- The one error of a validation.
record IsRefusal (o : Option Error) : Type 0 where
  at : (e : Error) → o ≡ some e → e ≡ invalid_input

IsRefusal-none : IsRefusal none
IsRefusal-none = record { at = λ e h. cc }

IsRefusal-if :
    (b : Bool) (o : Option Error) → IsRefusal o → IsRefusal (if b then some invalid_input else o)
IsRefusal-if true o k = record { at = λ e h. ground arith }
IsRefusal-if false o k = k

validate_create-IsRefusal : (c : Create) → IsRefusal (validate_create c)
unfolding validate_create
validate_create-IsRefusal c = search (IsRefusal-none, IsRefusal-if) depth 12

Collides-check : (o : Option Error) → IsRefusal o → Collides (check o)
Collides-check none k = Collides-pure tt
Collides-check (some e) k = Collides-fail e (rw (k.at e refl))

Collides-validate : (c : Create) → Collides (check (validate_create c))
Collides-validate c = Collides-check _ (validate_create-IsRefusal c)

Collides-title_of : (l : Lookup) → Collides (title_of l)
Collides-title_of (found t) = Collides-pure _
Collides-title_of missing = Collides-fail _ refl
Collides-title_of failed = Collides-fail _ refl

Collides-resolve_title :
    (l : String → String → Lookup) (user : String) (id : Option String)
    → Collides (resolve_title l user id)
Collides-resolve_title l user none = Collides-pure _
Collides-resolve_title l user (some i) = Collides-title_of (l user i)

Collides-choose_id : (fresh : Option String) (given : String) → Collides (choose_id fresh given)
Collides-choose_id fresh given = record { at = λ t e h d. ground arith }

-- A create that reports a duplicate has aborted its transaction.
pub create_in_tx-Collides :
    (env : Env) (user device : String) (c : Create) → Collides (create_in_tx env user device c)
unfolding create_in_tx
create_in_tx-Collides env user device c =
    search
      (
        Collides-pure, Collides-bind, Aborts-Collides, Aborts-exec, Collides-validate,
        Collides-resolve_title, Collides-choose_id,
      )
      depth 14
