-- ===== src/Examples/Accounts.antt =====
-- A user who has an account and one session, as `register` leaves them, and a second account.
use fastapi_newyear.Base.{false, none, some, [], ◌∷◌, Text, codes}
use fastapi_newyear.Redis.{word, num, free, valid}
use fastapi_newyear.Models.Accounts.{User, SessionToken, access, refresh}
use fastapi_newyear.World.{World, Db}
use fastapi_newyear.Examples.Environment.{empty_db, empty_world, digest}

-- The tokens that `jwt.encode` of the examples gives.
abbrev pub access_token : Text
access_token = 105 ∷ 106 ∷ 107 ∷ 1 ∷ 1000 ∷ 1900 ∷ codes "A"

abbrev pub refresh_token : Text
refresh_token = 105 ∷ 106 ∷ 108 ∷ 2 ∷ 1000 ∷ 605800 ∷ codes "R"

abbrev pub other_token : Text
other_token = 205 ∷ 206 ∷ 207 ∷ 1 ∷ 1000 ∷ 1900 ∷ codes "A"

abbrev pub frost : User
frost = record {
  id = 103;
  email = codes "a@x";
  phone = none;
  display_name = none;
  bio = none;
  avatar_file_id = none;
  password_hash = some (codes "$Winter2026S");
  password_salt = some (codes "S");
  yandex_id = none;
  created_at = 1000000000;
  updated_at = some 1000000000;
  deleted_at = none;
}

abbrev pub frost_access : SessionToken
frost_access = record {
  id = 105;
  session_id = 104;
  user_id = 103;
  token_type = access;
  token_hash = digest access_token;
  expires_at = 1900000000;
  is_revoked = false;
  created_at = 1000000000;
  revoked_at = none;
}

abbrev pub frost_refresh : SessionToken
frost_refresh = record frost_access {
  id = 106;
  token_type = refresh;
  token_hash = digest refresh_token;
  expires_at = 605800000000;
}

abbrev pub other_access : SessionToken
other_access = record frost_access {
  id = 205;
  session_id = 204;
  user_id = 203;
  token_hash = digest other_token;
}

abbrev pub signed_in_db : Db
signed_in_db = record empty_db {
  users = frost ∷ [];
  session_tokens = frost_access ∷ frost_refresh ∷ other_access ∷ [];
}

abbrev pub signed_in : World
signed_in = record empty_world {
  db = signed_in_db;
  server = record {
    dump =
        record {
          key =
              free (codes "wp")
              ∷ word "auth"
              ∷ word "user"
              ∷ num 103
              ∷ word "access"
              ∷ num 105
              ∷ [];
          value = valid;
          deadline = some 1900000000;
        }
        ∷ [];
    calls = 5;
  };
  drawn = 8;
}
