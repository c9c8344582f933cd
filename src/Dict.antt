-- ===== src/Dict.antt =====
-- Python's `dict` with text keys, in insertion order: the JSON objects of the state files and the
-- per-user tables inside them.
mod Defs
mod Laws
unfoldable pub use Defs.{Dict, lookup, set, delete, has, keys, get_or}
pub use Laws.{
  lookup-set, lookup-set_self, lookup-set_ne, lookup-delete, has-set, lookup_of_not-has,
  lookup_of_has, has_of_lookup, set_same, length-set, length-set_old, lookup-set_cases,
  lookup_of_lookup-delete, dict_laws,
}
