-- ===== src/Examples/Environment.antt =====
-- The environment of the examples, and an empty application in it.
use fastapi_newyear.Base.{
  leb, ◌&&◌, ◌==◌, none, true, ℕ, ◌+◌, ◌*◌, false, some, [], ◌∷◌, Text, codes,
}
use fastapi_newyear.Config.{Settings}
use fastapi_newyear.Env.{Env}
use fastapi_newyear.World.{World, Db}
use fastapi_newyear.Examples.Lists.{lists}
use fastapi_newyear.Examples.Keys.{entries}
use fastapi_newyear.Examples.Tokens.{open_tokens, plain_hashes, cons-ne-nil}

abbrev pub settings : Settings
settings = record {
  redis_key_prefix = codes "wp";
  items_cache_ttl_seconds = 120;
  user_profile_cache_ttl_seconds = 300;
  file_meta_cache_ttl_seconds = 300;
  rabbitmq_exchange = codes "app.events";
  rabbitmq_dlx = codes "app.dlx";
  queue_user_registered = codes "wp.auth.user.registered";
  queue_user_registered_dlq = codes "wp.auth.user.registered.dlq";
  rabbitmq_max_retries = 3;
  rabbitmq_consumer_max_failures = 5;
  jwt_access_secret = codes "A";
  jwt_refresh_secret = codes "R";
  jwt_access_expiration = codes "15m";
  jwt_refresh_expiration = codes "7d";
  cookie_secure = false;
  cookie_samesite = codes "lax";
  cookie_domain = none;
  frontend_redirect_url = codes "http://localhost:4200/docs";
  app_env = codes "development";
  swagger_enabled = true;
  smtp_host = codes "mailpit";
  smtp_port = 1025;
  smtp_from = codes "no-reply@wp-labs.local";
  smtp_user = [];
  smtp_pass = [];
  yandex_client_id = codes "id";
  yandex_client_secret = codes "secret";
  reset_password_expire_minutes = 30;
  oauth_state_expire_minutes = 10;
  auth_debug_return_reset_token = false;
  minio_bucket = codes "wp-files";
  max_upload_size_bytes = 10485760;
  avatar_allowed_mime_types = codes "image/png,image/jpeg,image/jpg";
}

-- A digest for the examples.
abbrev pub digest : Text → ℕ
digest [] = 7
digest (c ∷ s) = c + 31 * digest s

instance abbrev pub env : Env
env = record {
  settings = settings;
  mongo = lists;
  mongo_answers = λ t. true;
  redis = entries;
  redis_fails = λ n. false;
  jwt = open_tokens;
  bcrypt = plain_hashes;
  uuid4 = λ n. n + 100;
  elapsed = λ n. 3;
  token_urlsafe = λ n. n ∷ [];
  token_hex = λ n. n ∷ [];
  token_hex_nonempty = λ n. cons-ne-nil n [];
  sha256 = digest;
  email_str = λ e. some e;
  post_token = λ code. some (record { status = 200; access_token = some code });
  get_profile =
      λ token. some (record { status = 200; id = some token; default_email = some (codes "b@x") });
  mail_accepted = λ n. true;
  mail_raises = λ n. n == 0;
  minio_error = λ n. none;
  uuid_text = λ n. n ∷ [];
  quote = λ s. s;
  is_decimal = λ c. leb b'0' c && leb c b'9';
}

abbrev pub empty_db : Db
empty_db = record {
  users = [];
  session_tokens = [];
  password_reset_tokens = [];
  oauth_states = [];
  holiday_items = [];
  files = [];
}

abbrev pub empty_world : World
empty_world = record {
  db = empty_db;
  server = record { dump = []; calls = 0 };
  published = [];
  broker_down = false;
  mailed = [];
  mail_tries = 0;
  bucket = record { keys = []; calls = 0 };
  now = 1000000000;
  drawn = 0;
}
