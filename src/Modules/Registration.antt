-- ===== src/Modules/Registration.antt =====
-- The registry of src/formshift_server/modules.py: what registration and its rollback leave.
use formshift_server.Prelude.{
  String, none, some, ◌≡◌, ◌==◌, string_eq, if◌then◌else◌, ok, arith, eq_iff,
}
use formshift_server.Prelude.Dict.{get-put, remove-put}
use formshift_server.Modules.{
  Module, Registry, add, register, register_isolated, unregister, lookup_module,
}

-- A registry that a registration leaves: the module under its name, every other name as before.
pub record Registers (registry : Registry) (m : Module) (after : Registry) : Type 0 where
  pub was_free : lookup_module registry m.manifest.name ≡ none
  pub lookups :
      (name : String)
      → lookup_module after name
        ≡ (if m.manifest.name == name then some m else lookup_module registry name)
  pub undone : unregister after m.manifest.name ≡ registry

add-Registers :
    (registry : Registry) (m : Module) (after : Registry)
    → add registry m ≡ ok after
    → Registers registry m after
unfolding add lookup_module unregister
add-Registers registry m after h =
    let name = m.manifest.name in
    record {
      was_free = ground arith;
      lookups = λ j. ground (arith, get-put name j m registry);
      undone = ground (arith, remove-put name m registry);
    }

-- A successful `register` is of a core module under a free name. It adds exactly that module, and
-- `unregister` of its name gives the registry back as it was.
pub register-Registers :
    (registry : Registry) (m : Module) (after : Registry)
    → register registry m ≡ ok after
    → (m.manifest.isolation ≡ "core") × Registers registry m after
unfolding register
register-Registers registry m after h = (
  ground (arith, eq_iff m.manifest.isolation "core"),
  add-Registers registry m after (ground (arith, eq_iff m.manifest.isolation "core")),
)

pub register_isolated-Registers :
    (registry : Registry) (m : Module) (after : Registry)
    → register_isolated registry m ≡ ok after
    → (m.manifest.isolation ≡ "isolated") × Registers registry m after
unfolding register_isolated
register_isolated-Registers registry m after h = (
  ground (arith, eq_iff m.manifest.isolation "isolated"),
  add-Registers registry m after (ground (arith, eq_iff m.manifest.isolation "isolated")),
)
