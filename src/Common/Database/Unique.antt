-- ===== src/Common/Database/Unique.antt =====
-- What the unique indexes of App/common/db.py compare, and what the writes of the repositories do.
use fastapi_newyear.Base.{
  ℕ, has, has_agree, if◌then◌else◌, ◌≡◌, Bool, true, false, ◌&&◌, ◌||◌, not, Option, none, some,
  List, [], ◌∷◌, ◌++◌, Text, text_eq, ◌==◌, arith,
}
use fastapi_newyear.Models.Accounts.{User, SessionToken, PasswordResetToken, OAuthState}
use fastapi_newyear.Models.Items.{HolidayItem}
use fastapi_newyear.Models.Files.{FileRecord}
use fastapi_newyear.Common.Database.{
  Collection, users, session_tokens, password_reset_tokens, oauth_states, holiday_items, files,
  Field, email, yandex_id, token_hash, state_hash, object_key, Direction, Call, create_index,
  unset_null, drop_index, create_indexes,
}
use fastapi_newyear.Errors.{ok, err, duplicate_key}
use fastapi_newyear.Env.{Env}
use fastapi_newyear.World.{World, uuid4}
use fastapi_newyear.Users.Repository as Users
use fastapi_newyear.Auth.Tokens
use fastapi_newyear.Auth.Resets
use fastapi_newyear.Auth.States
use fastapi_newyear.Items.Repository as Holidays
use fastapi_newyear.Storage.Repository as Stored

-- A field of a document, as the indexes see it.
pub data Content : Type 0 where
  missing : Content
  string : Text → Content
  digest : ℕ → Content
  other : Content

abbrev optional : Option Text → Content
optional none = missing
optional (some s) = string s

-- Two documents with the same content have the same entry in an index; one of strings alone has no
-- entry for anything else.
abbrev same_entry : Bool → Content → Content → Bool
same_entry only (string s) (string t) = text_eq s t
same_entry only (digest m) (digest n) = not only && (m == n)
same_entry only missing missing = not only
same_entry _ _ _ = false

abbrev same_entries : Bool → List (Field × Direction) → (Field → Content) → (Field → Content) → Bool
same_entries only [] a b = true
same_entries only (k ∷ ks) a b = same_entry only (a k.0) (b k.0) && same_entries only ks a b

-- Some unique index refuses to hold both documents. The index that `create_indexes` drops is an older
-- one, from before.
abbrev clash : List Call → (Field → Content) → (Field → Content) → Bool
clash [] a b = false
clash (create_index i ∷ cs) a b =
    (i.unique && same_entries i.strings_only i.keys a b) || clash cs a b
clash (unset_null f ∷ cs) a b = clash cs a b
clash (drop_index f ∷ cs) a b = clash cs a b

abbrev user_field : User → Field → Content
user_field u email = string u.email
user_field u yandex_id = optional u.yandex_id
user_field u _ = other

abbrev token_field : SessionToken → Field → Content
token_field t token_hash = digest t.token_hash
token_field t _ = other

abbrev reset_field : PasswordResetToken → Field → Content
reset_field t token_hash = digest t.token_hash
reset_field t _ = other

abbrev state_field : OAuthState → Field → Content
state_field s state_hash = digest s.state_hash
state_field s _ = other

abbrev file_field : FileRecord → Field → Content
file_field f object_key = string f.object_key
file_field f _ = other

-- An item has no unique field.
abbrev item_field : HolidayItem → Field → Content
item_field i _ = other

-- What keeps two documents out of one collection: the same id, or a unique index.
abbrev excluded : Collection → ℕ → ℕ → (Field → Content) → (Field → Content) → Bool
excluded c i j a b = i == j || clash (create_indexes c) a b

same_keys-users :
    (a b : User) → Users.same_keys a b ≡ excluded users a.id b.id (user_field a) (user_field b)
unfolding Users.same_keys create_indexes
same_keys-users a b = ground arith

same_keys-tokens :
    (a b : SessionToken)
    → Tokens.same_keys a b ≡ excluded session_tokens a.id b.id (token_field a) (token_field b)
unfolding Tokens.same_keys create_indexes
same_keys-tokens a b = ground arith

same_keys-resets :
    (a b : PasswordResetToken)
    → Resets.same_keys a b
      ≡ excluded password_reset_tokens a.id b.id (reset_field a) (reset_field b)
unfolding Resets.same_keys create_indexes
same_keys-resets a b = ground arith

same_keys-states :
    (a b : OAuthState)
    → States.same_keys a b ≡ excluded oauth_states a.id b.id (state_field a) (state_field b)
unfolding States.same_keys create_indexes
same_keys-states a b = ground arith

same_keys-files :
    (a b : FileRecord)
    → Stored.same_keys a b ≡ excluded files a.id b.id (file_field a) (file_field b)
unfolding Stored.same_keys create_indexes
same_keys-files a b = ground arith

same_id-items :
    (a b : HolidayItem)
    → Holidays.same_id a b ≡ excluded holiday_items a.id b.id (item_field a) (item_field b)
unfolding Holidays.same_id create_indexes
same_id-items a b = ground arith

module _ ⦃env : Env⦄ where
  -- Whether an index holds the entries of the account, or of the file, already.
  abbrev pub user_excluded : User → World → Bool
  user_excluded u w = has (λ x. excluded users u.id x.id (user_field u) (user_field x)) w.db.users

  abbrev pub file_excluded : FileRecord → World → Bool
  file_excluded f w = has (λ x. excluded files f.id x.id (file_field f) (file_field x)) w.db.files

  create_user_lem :
      (v : Users.NewUser) (w : World)
      → let u = Users.new_user (env.uuid4 w.drawn) w.now v in
        let c = w.db.users in
        ((Users.create v w).0 ≡ (if user_excluded u w then err duplicate_key else ok u))
        × ((Users.create v w).1.db
            ≡ record w.db { users = if user_excluded u w then c else c ++ u ∷ [] })
  unfolding Users.create uuid4
  create_user_lem v w =
      let u = Users.new_user (env.uuid4 w.drawn) w.now v in
      let refused = env.mongo.insert_one_lem Users.same_keys u w.db.users in
      let agree =
        has_agree (Users.same_keys u) (λ x. excluded users u.id x.id (user_field u) (user_field x))
          (same_keys-users u) w.db.users in
      (ground arith, ground arith)

  create_file_lem :
      (v : Stored.NewFile) (w : World)
      → let f = Stored.new_file w.now v in
        let c = w.db.files in
        ((Stored.create v w).0 ≡ (if file_excluded f w then err duplicate_key else ok f))
        × ((Stored.create v w).1.db
            ≡ record w.db { files = if file_excluded f w then c else c ++ f ∷ [] })
  unfolding Stored.create
  create_file_lem v w =
      let f = Stored.new_file w.now v in
      let refused = env.mongo.insert_one_lem Stored.same_keys f w.db.files in
      let agree =
        has_agree (Stored.same_keys f) (λ x. excluded files f.id x.id (file_field f) (file_field x))
          (same_keys-files f) w.db.files in
      (ground arith, ground arith)

  -- A new account, and a new file, is stored at the end of its collection and returned, exactly if no unique index of
  -- `create_indexes` and no id excludes it; else the call raises the error of a duplicate key, and no collection changes.
  pub create_lem :
      (v : Users.NewUser) (x : Stored.NewFile) (w : World)
      → let u = Users.new_user (env.uuid4 w.drawn) w.now v in
        let f = Stored.new_file w.now x in
        (((Users.create v w).0 ≡ (if user_excluded u w then err duplicate_key else ok u))
          × ((Users.create v w).1.db ≡ record w.db {
            users = if user_excluded u w then w.db.users else w.db.users ++ u ∷ [];
          }))
        × ((Stored.create x w).0 ≡ (if file_excluded f w then err duplicate_key else ok f))
        × ((Stored.create x w).1.db ≡ record w.db {
          files = if file_excluded f w then w.db.files else w.db.files ++ f ∷ [];
        })
  create_lem v x w = (create_user_lem v w, (create_file_lem x w).0, (create_file_lem x w).1)
