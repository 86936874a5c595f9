-- ===== src/Examples/Infrastructure.antt =====
-- Witnesses of the theorems on the indexes of the database and on the queues of the broker.
use fastapi_newyear.Base.{◌≡◌, refl, none, some, ◌∷◌, [], codes, has, text_eq}
use fastapi_newyear.Errors.{ok, err, duplicate_key}
use fastapi_newyear.Users.Repository as Users
use fastapi_newyear.Users.Repository.{NewUser}
use fastapi_newyear.Storage.Repository as Stored
use fastapi_newyear.Storage.Repository.{NewFile}
use fastapi_newyear.Common.Database
use fastapi_newyear.Common.Database.Unique.{create_lem}
use fastapi_newyear.Common.Rabbitmq.{
  declare_topology, publish_registration, consume_registrations, delivered, consumed, dead_lettered,
  registration_lem,
}
use fastapi_newyear.Examples.Environment.{env, settings}
use fastapi_newyear.Examples.Accounts.{signed_in}

abbrev second_frost : NewUser
second_frost = record {
  email = codes "a@x";
  password_hash = none;
  password_salt = none;
  yandex_id = some (codes "y1");
}

abbrev letter : NewFile
letter = record {
  id = 402;
  user_id = 103;
  original_name = codes "letter.pdf";
  object_key = codes "users/103/files/402.pdf";
  size = 64000;
  mimetype = codes "application/pdf";
  bucket = codes "wp-files";
}

create_example :
    (((Users.create second_frost signed_in).0 ≡ err duplicate_key)
      × ((Users.create second_frost signed_in).1.db ≡ signed_in.db))
    × ((Stored.create letter signed_in).0 ≡ ok (Stored.new_file signed_in.now letter))
    × ((Stored.create letter signed_in).1.db
        ≡ record signed_in.db { files = Stored.new_file signed_in.now letter ∷ [] })
unfolding has Users.new_user Database.create_indexes text_eq
create_example = create_lem second_frost letter signed_in

registration_example :
    (delivered (declare_topology settings) (publish_registration settings)
      ≡ consumed (consume_registrations settings))
    × (dead_lettered settings.queue_user_registered
          (declare_topology settings)
          (declare_topology settings)
        ≡ settings.queue_user_registered_dlq ∷ [])
    × (dead_lettered settings.queue_user_registered_dlq
          (declare_topology settings)
          (declare_topology settings)
        ≡ [])
unfolding text_eq
registration_example = registration_lem settings refl refl
