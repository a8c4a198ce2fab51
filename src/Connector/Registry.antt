-- ===== src/Connector/Registry.antt =====
-- app/integrations/factory.py: the registry of connector classes. A class is its constructor, from a
-- configuration to an instance.
use nexus_inventory_platform.Base.{
  String, List, none, some, str_eq, if◌then◌else◌, ◌≡◌, arith, Bool-cases, inl, inr,
}
use nexus_inventory_platform.Values.{Raised, Result, ok, raised, lookup, insert, lookup-insert}

abbrev pub Registry : Type 0 → Type 0 → Type 0
Registry C K = List (String × (C → K))

module _ {C K : Type 0} where
  -- ConnectorFactory.register(erp_type)(connector_cls)
  unfoldable pub register : String → (C → K) → Registry C K → Registry C K
  unfolding insert
  register erp_type connector_cls registry = insert erp_type connector_cls registry

  -- ConnectorFactory.get: an unknown type is a ValueError.
  unfoldable pub get_connector : String → C → Registry C K → Result K
  unfolding lookup
  get_connector erp_type config registry = elim (lookup erp_type registry) [
    | none ↦ raised Raised.value_error
    | some connector_cls ↦ ok (connector_cls config)
  ]

  -- After a class is registered for a type, that type gives an instance of it, also where another class
  -- was registered before, and every other type gives what it gave.
  pub get_connector-register :
      (erp_type wanted : String) (cls : C → K) (config : C) (registry : Registry C K)
      → get_connector wanted config (register erp_type cls registry)
        ≡ (if str_eq erp_type wanted then ok (cls config) else get_connector wanted config registry)
  unfolding get_connector register
  get_connector-register erp_type wanted cls config registry =
      elim (Bool-cases (str_eq erp_type wanted)) [
        | inl e ↦ ground (arith, e, lookup-insert erp_type wanted cls registry)
        | inr e ↦ ground (arith, e, lookup-insert erp_type wanted cls registry)
      ]
