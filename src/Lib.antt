-- ===== src/Lib.antt =====
-- A shop list for the new year behind a FastAPI application: accounts, sessions, items, files. The
-- development models the routes and the services in App/modules/, what they use of App/common/,
-- and the consumer of the events that the application starts.
--
-- How the parts interact. A request is authenticated by its access cookie where its route asks for
-- a user, then validated, and then runs one operation of a service; it reads and writes the
-- collections of MongoDB through a repository, keeps copies and locks in Redis through the cache,
-- and publishes an event when a user registers; the consumer of these events sends an e-mail for
-- each. The answer, or the exception, becomes a response with a status, a body and calls that set
-- or delete cookies. Every operation is an action on one state, `World` of World.antt: it returns
-- or raises, and what it wrote before a raise stays written.
--
--   Base.antt        tests, lists, texts; what a filter finds in a collection after an update
--   Errors.antt      App/common/exceptions.py, and what libraries raise
--   Models.antt      the dataclasses and the response models
--   Redis.antt       keys, patterns and values of App/common/cache.py
--   Config.antt      App/common/config.py
--   Env.antt         what the program calls and does not implement, with its documented behaviour
--   World.antt       the state, and actions on it; World/Keeps: what an action keeps of the collections
--   Common.antt      App/common/cache.py (Common/Cache), App/common/security
--                    (Common/Passwords, Common/Jwt, Common/Cookies), App/common/db.py (Common/Database, the
--                    indexes) and App/common/queue (Common/Rabbitmq, the queues)
--   Users.antt       App/modules/users
--   Items.antt       App/modules/items: Repository, Schemas, Service; Titles, Freshness, Listing and Nulls are about what the operations keep and answer. Refinement has the
--                    map of notes that the operations change; Coherence compares what is read through the
--                    cache with the database
--   Notifications.antt  App/modules/notifications: Events, and Consumer with Once, Retries, Supervision and
--                    Lifecycle (start, stop and the startup of app/main.py)
--   Storage.antt     App/modules/storage: Repository, Names (object keys), Service, Profile; Access and
--                    Avatars are about who is given a file
--   Auth.antt        App/modules/auth: the three repositories (Auth/Tokens, Auth/Resets, Auth/States),
--                    service.py (Auth/Sessions, Auth/Service), yandex_oauth.py (Auth/Yandex),
--                    schemas.py (Auth/Schemas) and dependencies.py (Auth/Dependencies); Logout, Refresh,
--                    Recovery, Callback, Login, Sessions/Accepted and Sessions/Expired are about which
--                    tokens and passwords are accepted
--   Web.antt         the responses (App/common/web/error_handlers.py); Web/Routers: the functions of the
--                    routers of App/modules; Web/Requests: a request from its cookies to its response, for
--                    every route of app/main.py and of the routers that it includes; Web/Health: the
--                    probes; Gate and Answers are about the responses
--   Consistency.antt what each operation keeps of the unique keys, and the runs of the application
--                    (Consistency/Reachable)
--   Examples.antt    an environment that satisfies every law of Env.antt, and the witnesses
--
-- The environment. MongoDB, Redis, PyJWT, bcrypt, hashlib, secrets, the validation of addresses
-- and the OAuth provider are fields of the record `Env`, an instance argument of every definition
-- that uses them. Its laws are documented behaviour: `find_one` gives the first document that
-- matches, a unique index refuses a second key, SET with NX sets a free key only, SCAN returns
-- every key that matches, a token decodes to the claims it was made of until it expires. Any call
-- of the Redis client may fail: `redis_fails` says which, by their number.
--
-- Choices. Times are microseconds. The clock may move between two requests; within one it moves
-- only where a session is issued, from the making of the tokens to the storing of the id of the
-- access token (`later` of World.antt), and all other readings of one request agree; theorems that
-- speak of a later time change the clock of the state. UUIDs are numbers. A text is the list of
-- its code points; `lower`, `strip` and the digits of a duration are those of ASCII, and a
-- duration is one that `timedelta` holds. A Redis key is the list of the parts that are joined by
-- colons. A value in Redis is what `json.loads` gives back, without the text between. A request of
-- Web/Requests has the fields of its body, path and query, parsed and of the types that the
-- schemas name. The framework takes the user of the request first, then validates these fields
-- (Auth/Schemas, Items/Schemas, Storage/Profile), then calls the function of the route. Requests
-- run one after the other; no two of them are interleaved. Loops are over lists; `deliveries`
-- counts how often a message is delivered at most, and the limit of retries is enough where its
-- attempt is a number; a message whose handling raises is delivered again. The number of pages is
-- computed in whole numbers, which agrees with the source's division of floats below 2 ^ 53 items.
--
-- MinIO is the list of the keys of its bucket, and may fail at any call; the mail server may fail
-- before or after a mail goes out. The attempt number of a message is not negative.
--
-- Not modelled: the documentation of the routes (texts only), e-mail templates, the content of
-- files and its stream, the connections to MongoDB and RabbitMQ (input and output), the conversion
-- of documents, the migrations of a database that is no longer used, the deployment. The manifest
-- lists them.
pub mod Base
pub mod Errors
pub mod Models
pub mod Redis
pub mod Config
pub mod Env
pub mod World
pub mod Common
pub mod Users
pub mod Items
pub mod Notifications
pub mod Storage
pub mod Auth
pub mod Web
pub mod Consistency
pub mod Examples
