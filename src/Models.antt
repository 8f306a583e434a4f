-- ===== src/Models.antt =====
-- backend/db/models.py: the closed taxonomies, the rows of the tables, and the database.
pub mod Taxonomy
pub mod Tables
pub mod Columns
