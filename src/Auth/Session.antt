-- ===== src/Auth/Session.antt =====
-- A request's unit of work (backend/flipradar/database/session.py): actions over the session's
-- database, with exceptions, and the commit or rollback at the end of the request.
use flipradar.Base.{
  ℕ, ◌+◌, Bool, true, false, List, [], ◌∷◌, ◌++◌, if◌then◌else◌, Option, none, some, length,
}
use flipradar.Auth.Rows.{Database}
use flipradar.Auth.Platform.{Platform, Mail, EmailSendResult}

pub data Detail : Type 0 where
  not_authenticated verification_required invalid_refresh_token : Detail
  invalid_credentials user_already_exists current_password_incorrect : Detail
  new_password_must_differ verify_email_before_mfa answer_every_question : Detail
  invalid_mfa_challenge too_many_mfa_attempts invalid_verification_token : Detail
  invalid_reset_token invalid_email_change_token new_email_must_differ : Detail
  email_already_exists wait_for_email_change wait_for_password_reset : Detail
  wait_for_verification session_not_found : Detail

-- `HTTPException` with its status, the repositories' `DuplicateRecordError`, an `IntegrityError`
-- that nobody translates, `ServiceEmailDeliveryError`, and SQLAlchemy's refusal to go on in a
-- session whose flush has failed.
pub data Error : Type 0 where
  http : ℕ → Detail → Error
  duplicate integrity email_delivery pending_rollback multiple_results : Error

pub data Result (A : Type 0) : Type 0 where
  ok : A → Result A
  err : Error → Result A

-- `db` is what the session sees, `saved` what is committed, `failed` a flush that failed. All reads
-- of the clock in one request give `now`. The mails that were handed over stay sent.
pub record World : Type 0 where
  pub db : Database
  pub saved : Database
  pub failed : Bool
  pub now : ℕ
  pub draws : ℕ
  pub outbox : List Mail

abbrev pub Action : Type 0 → Type 0
Action A = World → Result A × World

module _ {A : Type 0} where
  abbrev pub pure : A → Action A
  pure a w = (ok a, w)

  abbrev pub raise : Error → Action A
  raise e w = (err e, w)

  -- The value that is there, or an exception.
  abbrev pub or_raise : Option A → Error → Action A
  or_raise o e w = (elim o [ none ↦ err e | some a ↦ ok a ], w)

  -- The value that is there and is not refused, or an exception.
  abbrev pub unless_refused : (A → Bool) → Option A → Error → Action A
  unless_refused q o e w = (elim o [ none ↦ err e | some a ↦ if q a then err e else ok a ], w)

  -- A statement that reads the database.
  abbrev pub query : (Database → A) → Action A
  query f w = (if w.failed then err pending_rollback else ok (f w.db), w)

  -- The handler of `except DuplicateRecordError`, on how the `try` block ended.
  abbrev pub after_duplicate : Action A → Result A × World → Result A × World
  after_duplicate h (ok a, w) = (ok a, w)
  after_duplicate h (err duplicate, w) = h w
  after_duplicate h (err e, w) = (err e, w)

  -- `try: m except DuplicateRecordError: h`
  abbrev pub on_duplicate : Action A → Action A → Action A
  on_duplicate m h w = after_duplicate h (m w)

infixl 5 ◌>>=◌ ◌>>◌
abbrev pub ◌>>=◌ : {A B : Type 0} → Action A → (A → Action B) → Action B
◌>>=◌ m f w = let (r, w') = m w in elim r [ ok a ↦ f a w' | err e ↦ raise e w' ]

abbrev pub ◌>>◌ : {A B : Type 0} → Action A → Action B → Action B
m >> k = m >>= λ _. k

abbrev pub raise_if : Bool → Error → Action (Unit {0})
raise_if c e w = (if c then err e else ok tt, w)

-- A flush of a change that no constraint can refuse.
abbrev pub write : (Database → Database) → Action (Unit {0})
write f w = if w.failed then (err pending_rollback, w) else (ok tt, record w { db = f w.db })

-- A flush that a unique constraint may refuse: the exception, and a session that has failed.
abbrev pub insert_unless : Error → (Database → Bool) → (Database → Database) → Action (Unit {0})
insert_unless e conflict f w =
    if w.failed
    then (err pending_rollback, w)
    else if conflict w.db
    then (err e, record w { failed = true })
    else (ok tt, record w { db = f w.db })

-- `datetime.now(UTC)`
abbrev pub clock : Action ℕ
clock w = (ok w.now, w)

-- `await db.commit()`
abbrev pub commit : Action (Unit {0})
commit w = if w.failed then (err pending_rollback, w) else (ok tt, record w { saved = w.db })

abbrev pub random : Platform → Action ℕ
random p w = (ok (p.draw w.draws), record w { draws = w.draws + 1 })

abbrev pub send : Platform → Mail → Action (Option EmailSendResult)
send p m w = (ok (p.deliver (length w.outbox) m), record w { outbox = w.outbox ++ (m ∷ []) })

-- `rollback`, which makes the session usable again.
abbrev pub rollback : World → World
rollback w = record w { db = w.saved; failed = false }

abbrev pub end_request : {A : Type 0} → Result A × World → Result A × World
end_request (ok a, w) = (ok a, w)
end_request (err e, w) = (err e, rollback w)

-- `get_db_session`: a request commits if its handler returns and rolls back if it raises. A commit
-- in a failed session raises too.
unfoldable pub get_db_session : {A : Type 0} → Action A → Action A
get_db_session m w = end_request ((m >>= λ a. commit >> pure a) w)
