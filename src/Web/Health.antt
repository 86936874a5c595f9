-- ===== src/Web/Health.antt =====
-- App/modules/health/router.py, and `get_info` of app/main.py. The times of the answers are not
-- modelled.
use fastapi_newyear.Base.{◌+◌, Bool, not, ◌&&◌, is_some, if◌then◌else◌}
use fastapi_newyear.Errors.{ok}
use fastapi_newyear.Env.{Env}
use fastapi_newyear.World.{Action, pure}
use fastapi_newyear.Common.Cache.Client
use fastapi_newyear.Web.{Response, Checks, plain, alive, message, readiness}

unfoldable pub all_ok : Checks → Bool
all_ok c = c.mongo && c.redis && c.rabbitmq && c.minio

unfoldable pub health : Action Response
health w = pure (plain 200 alive) w

unfoldable pub live : Action Response
live w = pure (plain 200 alive) w

unfoldable pub get_info : Action Response
get_info w = pure (plain 200 (message "LR1 endpoint is still alive")) w

module _ ⦃env : Env⦄ where
  unfoldable pub ready : Action Response
  unfolding all_ok
  ready w =
      let (redis_answers, server) = Client.ping w.server in
      let checks : Checks = record {
        mongo = env.mongo_answers w.now;
        redis = redis_answers;
        rabbitmq = not w.broker_down;
        minio = not (is_some (env.minio_error w.bucket.calls));
      } in
      let is_ready = all_ok checks in
      (
        ok (plain (if is_ready then 200 else 503) (readiness is_ready checks)),
        record w { server = server; bucket = record w.bucket { calls = w.bucket.calls + 1 } },
      )
