-- ===== src/Users/Repository.antt =====
-- App/modules/users/repository.py: the collection `users`, and its unique indexes of
-- App/common/db.py.
use fastapi_newyear.Base.{
  ℕ, Bool, true, false, ◌&&◌, ◌||◌, Option, none, some, List, Text, text_eq, ◌==◌,
}
use fastapi_newyear.Errors.{duplicate_key}
use fastapi_newyear.Models.Accounts.{User}
use fastapi_newyear.Env.{Env}
use fastapi_newyear.World.{World, Action, ◌>>=◌, ◌>>◌, pure, gets, or_raise, modify, uuid4}

-- `{"deleted_at": None}`.
abbrev pub is_none {ℓ} : {A : Type ℓ} → Option A → Bool
is_none none = true
is_none (some a) = false

-- A filter on an optional text: `None` differs from every text.
abbrev pub text_is : Text → Option Text → Bool
text_is s none = false
text_is s (some t) = text_eq s t

abbrev pub both : Option Text → Option Text → Bool
both none b = false
both (some a) b = text_is a b

unfoldable pub by_email : Text → User → Bool
by_email email u = text_eq email u.email && is_none u.deleted_at

unfoldable pub by_id : ℕ → User → Bool
by_id user_id u = user_id == u.id && is_none u.deleted_at

unfoldable pub by_yandex_id : Text → User → Bool
by_yandex_id yandex_id u = text_is yandex_id u.yandex_id && is_none u.deleted_at

unfoldable pub with_id : ℕ → User → Bool
with_id user_id u = user_id == u.id

-- The unique indexes of `create_indexes`, deleted users included: `email`, and `yandex_id` where it
-- is a string; and that of `_id`.
unfoldable pub same_keys : User → User → Bool
same_keys a b = a.id == b.id || text_eq a.email b.email || both a.yandex_id b.yandex_id

-- The keys that the callers of `create` give; the others are missing.
pub record NewUser : Type 0 where
  pub email : Text
  pub password_hash : Option Text
  pub password_salt : Option Text
  pub yandex_id : Option Text

unfoldable pub new_user : ℕ → ℕ → NewUser → User
new_user id now values = record {
  id = id;
  email = values.email;
  phone = none;
  display_name = none;
  bio = none;
  avatar_file_id = none;
  password_hash = values.password_hash;
  password_salt = values.password_salt;
  yandex_id = values.yandex_id;
  created_at = now;
  updated_at = some now;
  deleted_at = none;
}

abbrev pub set_users : List User → World → World
set_users c w = record w { db = record w.db { users = c } }

module _ ⦃env : Env⦄ where
  unfoldable pub get_active_by_email : Text → World → Option User
  get_active_by_email email w = env.mongo.find_one (by_email email) w.db.users

  unfoldable pub get_active_by_id : ℕ → World → Option User
  get_active_by_id user_id w = env.mongo.find_one (by_id user_id) w.db.users

  unfoldable pub get_by_yandex_id : Text → World → Option User
  get_by_yandex_id yandex_id w = env.mongo.find_one (by_yandex_id yandex_id) w.db.users

  unfoldable pub create : NewUser → Action User
  unfolding uuid4
  create values = do
    id ← uuid4
    now ← gets (λ w. w.now)
    let user = new_user id now values
    users ← gets (λ w. w.db.users)
    stored ← or_raise (env.mongo.insert_one same_keys user users) duplicate_key
    modify (set_users stored)
    pure user

  -- `$set`: the fields that `values` changes, and `updated_at`.
  unfoldable pub update : ℕ → (User → User) → Action (Option User)
  unfolding get_active_by_id
  update user_id values = do
    now ← gets (λ w. w.now)
    users ← gets (λ w. w.db.users)
    stored ←
        or_raise
          (env.mongo.update_one same_keys (with_id user_id)
            (λ u. record (values u) { updated_at = some now }) users)
          duplicate_key
    modify (set_users stored)
    gets (get_active_by_id user_id)
