-- ===== src/Maps.antt =====
-- Go's `map[string]V`. `insert` and `lookup` are m[k] = v and v, ok := m[k]; a range loop visits
-- the values in an order that Go leaves open, which `Iteration` stands for.
mod Basic
mod Members
pub mod Alike
pub use Basic.{
  Map, Iteration, empty, lookup-insert, lookup-empty, insert_cases, lookup-insert_self,
  lookup-insert_ne, HasDistinctKeys, insert-HasDistinctKeys,
}
unfoldable pub use Basic.{lookup, insert, values}
pub use Members.{member-values, values-member}
