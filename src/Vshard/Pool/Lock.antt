-- ===== src/Vshard/Pool/Lock.antt =====
-- Who holds the lock of the connection pool after a `Get`.
use qumomf.Prelude.{
  String, ◌==◌, eq_refl, ◌≡◌, refl, ap, ◌∙◌, Bool, true, false, Option, none, some, some_eq, [],
  ◌∷◌, if◌then◌else◌, Bool-cases, inl, inr,
}
use qumomf.Prelude.Dict.{Dict, lookup, insert}
use qumomf.Vshard.Pool.{Pool, address, find_connector, add_connector, found_or_added, get, close}

pub lookup-insert_same :
    {V : Type 0} (key : String) (value : V) (entries : Dict V)
    → lookup key (insert key value entries) ≡ some value
unfolding lookup insert
lookup-insert_same key value [] = rw (eq_refl key) refl
lookup-insert_same key value (entry ∷ entries) = elim (Bool-cases (entry.0 == key)) [
  | inl e ↦ rw e (rw (eq_refl key) refl)
  | inr e ↦ rw e (rw e (lookup-insert_same key value entries))
]

was_free :
    {C : Type 0} (b : Bool) (o : Option C)
    → ◌≡◌ {A = Option (Option C)} (if b then none else some o) (some none)
    → (b ≡ false) × (o ≡ none)
was_free true o h = cc
was_free false o h = (refl, some_eq h)

module _ {Connector : Type 0} (setup_connection : String → Connector) (p : Pool Connector)
    (uri : String) where
  -- A call of `Get` that no other call interrupts returns with the lock free, and the next call for
  -- the same URI returns the same connector from the pool.
  pub get_uninterrupted :
      p.locked ≡ false
      → (conn : Connector) × (p' : Pool Connector) × (get setup_connection p uri ≡ some (conn, p'))
        × (p'.locked ≡ false)
        × (get setup_connection p' uri ≡ some (conn, p'))
  unfolding get find_connector add_connector
  get_uninterrupted free = at (lookup (address setup_connection p uri) p.connectors) refl
    where
      at :
          (o : Option Connector)
          → lookup (address setup_connection p uri) p.connectors ≡ o
          → (conn : Connector) × (p' : Pool Connector) × (get setup_connection p uri
              ≡ some (conn, p'))
            × (p'.locked ≡ false)
            × (get setup_connection p' uri ≡ some (conn, p'))
      at (some conn) e = (conn, p, rw (free, e) refl, free, rw (free, e) refl)
      at none e =
          let u = address setup_connection p uri in
          let conn = setup_connection u in
          let p' = record p { connectors = insert u conn p.connectors; locked = false } in
          let missed : find_connector setup_connection p uri ≡ some none = rw (free, e) refl in
          let added : add_connector setup_connection p uri ≡ some (conn, p') = rw (free, e) refl in
          (
            conn,
            p',
            ap (found_or_added setup_connection p uri) missed ∙ added,
            refl,
            rw (lookup-insert_same u conn p.connectors) refl,
          )

  -- Two calls of `Get` that both miss a URI before either of them has taken the lock end with the
  -- same connector and the lock held, so every later call, and the closing of the pool, waits for good.
  pub get_twice_locks :
      find_connector setup_connection p uri ≡ some none
      → (conn : Connector) × (p1 : Pool Connector) × (p2 : Pool Connector) × (add_connector
            setup_connection p uri
          ≡ some (conn, p1))
        × (add_connector setup_connection p1 uri ≡ some (conn, p2))
        × ((later : String) → get setup_connection p2 later ≡ none)
        × (close p2 ≡ none)
  unfolding get find_connector add_connector close
  get_twice_locks missed =
      let (free, absent) =
        was_free p.locked (lookup (address setup_connection p uri) p.connectors) missed in
      let u = address setup_connection p uri in
      let conn = setup_connection u in
      let p1 = record p { connectors = insert u conn p.connectors; locked = false } in
      (
        conn,
        p1,
        record p1 { locked = true },
        rw (free, absent) refl,
        rw (lookup-insert_same u conn p.connectors) refl,
        λ later. refl,
        refl,
      )
