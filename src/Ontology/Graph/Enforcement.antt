-- ===== src/Ontology/Graph/Enforcement.antt =====
-- lib/dataops/ontology/graph/graph-enforcement.ts: whether an invalid graph is refused. The module's
-- overrides are a record; what the environment variable asks for is an argument.
use adam_os.Base.{Option, none, some, List, [], Str, lookup, insert, remove}

pub data GraphEnforcementMode : Type 0 where
  warn enforce : GraphEnforcementMode

pub record Overrides : Type 0 where
  pub tenants : List (Str × GraphEnforcementMode)
  pub global : Option GraphEnforcementMode

-- The first that is set: the tenant's override, the global one, the environment's
abbrev pub first_mode :
    Option GraphEnforcementMode
    → Option GraphEnforcementMode
    → GraphEnforcementMode
    → GraphEnforcementMode
first_mode (some m) global env = m
first_mode none (some m) env = m
first_mode none none env = env

unfoldable pub resolve_graph_enforcement_mode :
    GraphEnforcementMode → Overrides → Str → GraphEnforcementMode
unfolding lookup
resolve_graph_enforcement_mode env s tenant = first_mode (lookup tenant s.tenants) s.global env

abbrev pub set_global_graph_enforcement_mode : Option GraphEnforcementMode → Overrides → Overrides
set_global_graph_enforcement_mode mode s = record s { global = mode }

unfoldable pub set_tenant_graph_enforcement_mode :
    Str → GraphEnforcementMode → Overrides → Overrides
unfolding insert
set_tenant_graph_enforcement_mode tenant mode s = record s {
  tenants = insert tenant mode s.tenants;
}

unfoldable pub clear_tenant_graph_enforcement_mode : Str → Overrides → Overrides
unfolding remove
clear_tenant_graph_enforcement_mode tenant s = record s { tenants = remove tenant s.tenants }

abbrev pub reset_graph_enforcement_overrides : Overrides → Overrides
reset_graph_enforcement_overrides s = record { tenants = []; global = none }
