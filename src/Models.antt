-- ===== src/Models.antt =====
-- The dataclasses of the program and its response models. A document of MongoDB is the record of
-- its dataclass: `dataclass_to_document` and `document_to_dataclass` only rename `id` and print and
-- parse the ids. Ids are the 128-bit number of the UUID, digests the number that they stand for, and
-- times are microseconds.
pub mod Accounts
pub mod Items
pub mod Files
