-- ===== src/Repositories.antt =====
-- nexusfeed/db/repositories on the tables users, items and interactions of nexusfeed/db/models.py. A
-- table is the list of its rows. Postgres is not code of the repository: how it orders rows is an
-- argument, and so are the ids and times that it gives new ones.
pub mod Users
pub mod Items
pub mod Interactions
