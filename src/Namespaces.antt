-- ===== src/Namespaces.antt =====
-- src/definitions/namespaces: the data types of the elements. A string is the list of its characters.
pub mod Latin1
mod Tests
