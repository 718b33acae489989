-- ===== src/Cmd/Init/Available.antt =====
-- The test suite types that `init` of cmd/aragorn/init.go lists and accepts.
use aragorn.Prelude.{Str, ◌≡◌, some, map, Occurs, map-Occurs}
use aragorn.Prelude.Assoc.{Assoc}
use aragorn.Prelude.Sort.{Sorted, sort_by-Sorted, sort_by-Occurs}
use aragorn.Plugin.{Registration, get_plugin, for_type, test_suite_plugin}
use aragorn.Plugin.Registered.{for_type_complete}
use aragorn.Cmd.Init.{available_ids}

-- The types that `init` offers are sorted, and every plugin that it accepts is among them.
available_ids-Sorted :
    {P : Type 0} (reg : Assoc (Registration P))
    → Sorted (λ s. s) (available_ids reg)
      × ((id : Str) (r : Registration P)
          → get_plugin test_suite_plugin id reg ≡ some r
          → Occurs r.id (available_ids reg))
unfolding available_ids
available_ids-Sorted {P} reg =
    let ids = map (λ (r : Registration P). r.id) (for_type test_suite_plugin reg) in
    (
      sort_by-Sorted (λ s. s) ids,
      λ id r h.
          sort_by-Occurs (λ s. s) r.id ids
            (map-Occurs (λ (x : Registration P). x.id) r (for_type test_suite_plugin reg)
              (for_type_complete test_suite_plugin id reg r h)),
    )
