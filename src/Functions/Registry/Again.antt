-- ===== src/Functions/Registry/Again.antt =====
-- src/functions/src/registry.rs: the call that a widening makes, resolved.
use incresql.Data.DataType.{DataType}
use incresql.Functions.{Functions}
use incresql.Functions.Registry.{Registry}
