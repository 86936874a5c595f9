-- ===== src/Common/Database.antt =====
-- `create_indexes` of App/common/db.py: the calls on each collection, in order.
pub mod Unique
use fastapi_newyear.Base.{Bool, true, false, List, [], ◌∷◌}

pub data Collection : Type 0 where
  users holiday_items session_tokens password_reset_tokens oauth_states files : Collection

-- The fields of the documents, by their names.
pub data Field : Type 0 where
  email yandex_id avatar_file_id deleted_at owner_id title created_at : Field
  token_hash session_id is_revoked user_id is_used expires_at : Field
  state_hash provider object_key : Field

pub data Direction : Type 0 where
  ascending descending : Direction

-- `strings_only` is `partialFilterExpression` with `$type` "string".
pub record Index : Type 0 where
  pub keys : List (Field × Direction)
  pub unique : Bool
  pub strings_only : Bool

pub data Call : Type 0 where
  create_index : Index → Call
  -- `update_many`: a field that is null is removed from the document.
  unset_null : Field → Call
  -- The index of one field goes; that there is none is passed over.
  drop_index : Field → Call

abbrev index_on : List (Field × Direction) → Call
index_on keys = create_index (record { keys = keys; unique = false; strings_only = false })

abbrev unique_on : Field → Bool → Call
unique_on f only =
    create_index (record { keys = (f, ascending) ∷ []; unique = true; strings_only = only })

unfoldable pub create_indexes : Collection → List Call
create_indexes users =
    unique_on email false
    ∷ unset_null yandex_id
    ∷ drop_index yandex_id
    ∷ unique_on yandex_id true
    ∷ index_on ((avatar_file_id, ascending) ∷ [])
    ∷ index_on ((deleted_at, ascending) ∷ [])
    ∷ []
create_indexes holiday_items =
    index_on ((owner_id, ascending) ∷ (deleted_at, ascending) ∷ (created_at, descending) ∷ [])
    ∷ index_on ((owner_id, ascending) ∷ (title, ascending) ∷ (deleted_at, ascending) ∷ [])
    ∷ []
create_indexes session_tokens =
    unique_on token_hash false
    ∷ index_on ((session_id, ascending) ∷ (is_revoked, ascending) ∷ [])
    ∷ index_on ((user_id, ascending) ∷ (is_revoked, ascending) ∷ [])
    ∷ index_on ((expires_at, ascending) ∷ [])
    ∷ []
create_indexes password_reset_tokens =
    unique_on token_hash false
    ∷ index_on ((user_id, ascending) ∷ (is_used, ascending) ∷ [])
    ∷ index_on ((expires_at, ascending) ∷ [])
    ∷ []
create_indexes oauth_states =
    unique_on state_hash false
    ∷ index_on ((provider, ascending) ∷ (is_used, ascending) ∷ [])
    ∷ index_on ((expires_at, ascending) ∷ [])
    ∷ []
create_indexes files =
    index_on ((user_id, ascending) ∷ (deleted_at, ascending) ∷ (created_at, descending) ∷ [])
    ∷ unique_on object_key false
    ∷ []
