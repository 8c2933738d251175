-- ===== src/Encoding/SortOrder.antt =====
-- src/data/src/lib.rs: the sort order of a column.
use incresql.Prelude.{Bool, true, false}

pub data SortOrder : Type 0 where
  asc desc : SortOrder

unfoldable pub is_asc : SortOrder → Bool
is_asc asc = true
is_asc desc = false

unfoldable pub is_desc : SortOrder → Bool
is_desc asc = false
is_desc desc = true
