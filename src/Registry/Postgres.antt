-- ===== src/Registry/Postgres.antt =====
-- wyndpy/registry/postgres_adapter.py: a stub, whose every method raises NotImplementedError.
use wyndpy.Base.{Option, some, Bool, false}
use wyndpy.Base.Reply.{raised, other}
use wyndpy.Base.Value.{Value}
use wyndpy.Core.Protocols.{Registry}

-- `PostgresRegistry.implemented`
abbrev pub postgres_implemented : Option Bool
postgres_implemented = some false

-- `PostgresRegistry(dsn)`. No method reads `dsn`.
abbrev pub postgres_registry : {W : Type 0} → Value → Registry W
postgres_registry dsn = record {
  get = λ item_id w. (raised (other "NotImplementedError"), w);
  upsert = λ item w. (raised (other "NotImplementedError"), w);
  list_pending_discovery = λ w. (raised (other "NotImplementedError"), w);
}
