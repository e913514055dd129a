-- ===== src/Vshard/Pool.antt =====
-- The connection pool of internal/vshard/tarantool.go. The client library makes a connector of a
-- URI. A call of `Get` that has to wait for the lock is `none`; its two critical sections are two
-- steps, between which other calls may run.
pub mod Lock
use qumomf.Prelude.{
  String, Bool, true, false, Option, none, some, List, [], ◌∷◌, map, if◌then◌else◌,
}
use qumomf.Prelude.Dict.{Dict, lookup, insert}
use qumomf.Vshard.Tarantool.{remove_user_info}

pub record Pool (Connector : Type 0) : Type 0 where
  pub rules : Dict String
  pub connectors : Dict Connector
  -- does someone hold the lock?
  pub locked : Bool

-- `NewConnPool`
unfoldable pub new_conn_pool : {Connector : Type 0} → Dict String → Pool Connector
new_conn_pool rules = record { rules = rules; connectors = []; locked = false }

abbrev rule_or : String → Option String → String
rule_or uri none = uri
rule_or uri (some u) = u

unfoldable pub override_uri : String → Dict String → String
override_uri uri rules = rule_or uri (lookup uri rules)

module _ {Connector : Type 0} (setup_connection : String → Connector) where
  abbrev pub address : Pool Connector → String → String
  address p uri = override_uri (remove_user_info uri) p.rules

  -- The first section: the connector, if there is one.
  unfoldable pub find_connector : Pool Connector → String → Option (Option Connector)
  unfolding override_uri remove_user_info
  find_connector p uri = if p.locked then none else some (lookup (address p uri) p.connectors)

  -- The second section, once the lock is taken. If the connector is there by now, the lock is not
  -- given back.
  abbrev pub add_if_absent : Pool Connector → String → Option Connector → Connector × Pool Connector
  add_if_absent p u (some conn) = (conn, record p { locked = true })
  add_if_absent p u none = (
    setup_connection u,
    record p { connectors = insert u (setup_connection u) p.connectors; locked = false },
  )

  unfoldable pub add_connector : Pool Connector → String → Option (Connector × Pool Connector)
  unfolding override_uri remove_user_info
  add_connector p uri =
      if p.locked
      then none
      else some (add_if_absent p (address p uri) (lookup (address p uri) p.connectors))

  abbrev pub found_or_added :
      Pool Connector → String → Option (Option Connector) → Option (Connector × Pool Connector)
  found_or_added p uri none = none
  found_or_added p uri (some (some conn)) = some (conn, p)
  found_or_added p uri (some none) = add_connector p uri

  -- `Get`, with no other call in between.
  unfoldable pub get : Pool Connector → String → Option (Connector × Pool Connector)
  unfolding find_connector add_connector
  get p uri = found_or_added p uri (find_connector p uri)

-- `Close`, which waits for the lock too: the connectors that it closes.
unfoldable pub close : {Connector : Type 0} → Pool Connector → Option (List Connector)
close {Connector} p =
    if p.locked then none else some (map (λ (e : String × Connector). e.1) p.connectors)
