-- ===== src/World.antt =====
-- The state of the running application, and its methods as actions: they read and change the state,
-- and return or raise. What was written before a raise stays written.
pub mod Keeps
use fastapi_newyear.Base.{ℕ, ◌+◌, Bool, true, false, Option, none, some, List, Text}
use fastapi_newyear.Errors.{Exc, Result, ok, err, duplicate_key}
use fastapi_newyear.Models.Accounts.{User, SessionToken, PasswordResetToken, OAuthState}
use fastapi_newyear.Models.Items.{HolidayItem}
use fastapi_newyear.Models.Files.{FileRecord}
use fastapi_newyear.Redis.{Dump}
use fastapi_newyear.Env.{Env}

-- The collections of the database.
pub record Db : Type 0 where
  pub users : List User
  pub session_tokens : List SessionToken
  pub password_reset_tokens : List PasswordResetToken
  pub oauth_states : List OAuthState
  pub holiday_items : List HolidayItem
  pub files : List FileRecord

-- The Redis server, and how many calls its client has made.
pub record Server : Type 0 where
  pub dump : Dump
  pub calls : ℕ

-- The message of App/modules/notifications/events.py, without its constant fields.
pub record Event : Type 0 where
  pub event_id : ℕ
  pub timestamp : ℕ
  pub user_id : ℕ
  pub email : Text
  pub display_name : Text
  pub attempt : ℕ

-- A welcome e-mail.
pub record Mail : Type 0 where
  pub to : Text
  pub name : Text
  pub user_id : ℕ

-- The bucket of the object store: the keys of its objects, and how many calls its client has made.
pub record Bucket : Type 0 where
  pub keys : List Text
  pub calls : ℕ

pub record World : Type 0 where
  pub db : Db
  pub server : Server
  -- What is published to the exchange, and whether the broker refuses connections.
  pub published : List Event
  pub broker_down : Bool
  -- The e-mails that went out, and how many were tried.
  pub mailed : List Mail
  pub mail_tries : ℕ
  pub bucket : Bucket
  -- The clock, which a request moves in `later` alone, and how many random values were drawn.
  pub now : ℕ
  pub drawn : ℕ

abbrev pub Action : Type 0 → Type 0
Action A = World → Result A × World

module _ {A : Type 0} where
  abbrev pub pure : A → Action A
  pure a w = (ok a, w)

  abbrev pub raise : Exc → Action A
  raise e w = (err e, w)

  abbrev pub gets : (World → A) → Action A
  gets f w = (ok (f w), w)

  abbrev pub lift : Result A → Action A
  lift r w = (r, w)

  -- The value, or an exception where there is none.
  abbrev pub or_raise : Option A → Exc → Action A
  or_raise o e w = (elim o [ none ↦ err e | some a ↦ ok a ], w)

infixl 5 ◌>>=◌ ◌>>◌
abbrev pub ◌>>=◌ : {A B : Type 0} → Action A → (A → Action B) → Action B
◌>>=◌ m f w = let (r, w') = m w in elim r [ ok a ↦ f a w' | err e ↦ (err e, w') ]

abbrev pub ◌>>◌ : {A B : Type 0} → Action A → Action B → Action B
m >> k = m >>= λ _. k

abbrev pub raise_if : Bool → Exc → Action (Unit {0})
raise_if c e w = (elim c [ true ↦ err e | false ↦ ok tt ], w)

abbrev pub modify : (World → World) → Action (Unit {0})
modify f w = (ok tt, f w)

-- `if c: m`.
abbrev pub when : Bool → Action (Unit {0}) → Action (Unit {0})
when c m w = elim c [ true ↦ m w | false ↦ (ok tt, w) ]

-- `try: m finally: cleanup`, for a cleanup that does not raise.
abbrev pub finally : {A : Type 0} → Action A → (World → World) → Action A
finally m cleanup w = let (r, w') = m w in (r, cleanup w')

-- `except DuplicateKeyError: raise e`.
abbrev pub on_duplicate_key : {A : Type 0} → Exc → Result A → Result A
on_duplicate_key e (err duplicate_key) = err e
on_duplicate_key e r = r

module _ ⦃env : Env⦄ where
  -- `uuid.uuid4()`.
  unfoldable pub uuid4 : Action ℕ
  uuid4 w = (ok (env.uuid4 w.drawn), record w { drawn = w.drawn + 1 })

  -- The clock is read again after some time.
  unfoldable pub later : Action ℕ
  later w = let t = w.now + env.elapsed w.drawn in (ok t, record w { now = t })

  -- `secrets.token_urlsafe` and `secrets.token_hex`.
  unfoldable pub token_urlsafe : Action Text
  token_urlsafe w = (ok (env.token_urlsafe w.drawn), record w { drawn = w.drawn + 1 })

  unfoldable pub token_hex : Action Text
  token_hex w = (ok (env.token_hex w.drawn), record w { drawn = w.drawn + 1 })
