-- ===== src/Database.antt =====
-- The database layer of the master, master/internal/db, on a collection of MongoDB. The driver is not
-- part of the repository: a collection is a value of the interface `Collection`, whose laws are the
-- documented behaviour of FindOne, InsertOne, UpdateOne and DeleteOne with a filter that names one
-- document.
pub mod Defs
pub mod Workers
pub mod Effects
pub mod Mirror
pub mod Loading
