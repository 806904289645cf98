-- ===== src/Bytecode/Namespace/Tests.antt =====
-- Examples for the namespace stack.
use yast_core.Prelude.{◌≡◌, refl, true, false, [], ◌∷◌}
use yast_core.Prelude.Int.{pos}
use yast_core.Bytecode.Namespace.{NamespaceStack, push_namespace}

-- Three namespaces, the lowest below the tare.
abbrev three : NamespaceStack
three = record {
  entries =
      record { name_space = 30; with_xrefs = false }
      ∷ record { name_space = 20; with_xrefs = true }
      ∷ record { name_space = 10; with_xrefs = false }
      ∷ [];
  tare_level = 1;
  calls = [];
}

push_test : (push_namespace 40 true three).0 ≡ pos 2
unfolding push_namespace
push_test = refl
