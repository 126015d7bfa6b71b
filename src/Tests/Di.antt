-- ===== src/Tests/Di.antt =====
-- The service container on concrete runs.
use common_system.Prelude.{
  ℕ, suc, ◌≡◌, ◌⊎◌, refl, true, false, none, some, [], ◌∷◌, String, ◌==◌, if◌then◌else◌,
}
use common_system.Result.Core.{ok, is_ok}
use common_system.Di.Container.{
  Factory, answer, give, ask, singleton, transient, scoped, ServiceEntry, Container, find,
  register_factory_internal, freeze, is_registered_internal,
}
use common_system.Di.Container.Frozen.{
  add_factory, remove, changes, frozen_for_good, register_lookup,
}
use common_system.Di.Container.Resolve.{
  resolve_with_detection, invoke_factory_safe, push_resolution, pop_resolution, guarded, resolve_as,
  invoke_entry, store_singleton, Scoped, Resolved,
}
use common_system.Di.Container.Resolve.Preserved.{Preserved, Preserved-refl, keys}
use common_system.Di.Container.Resolve.Kept.{resolve-Preserved}
use common_system.Di.Container.Resolve.Total.{free, resolve_terminates}
use common_system.Di.Container.Resolve.Singleton.{singleton_shared}
use common_system.Di.Container.Resolve.Lifetimes.{ScopeKept, scoped_shared}

abbrev name_of : ℕ → String
name_of k = if k == 1 then "Logger" else if k == 2 then "Store" else "Session"

abbrev entry : ℕ → Factory → ServiceEntry
entry k f = record {
  interface_type = k;
  type_name = name_of k;
  factory = some f;
  lifetime = singleton;
  singleton_instance = none;
  is_instantiated = false;
}

-- 1 is a singleton that resolves 2, a transient; 3 is scoped; 4 resolves itself.
abbrev shop : Container
shop = record {
  services =
      (1, entry 1 (ask 2 (λ _. give)))
      ∷ (2, record (entry 2 give) { lifetime = transient })
      ∷ (3, record (entry 3 give) { lifetime = scoped })
      ∷ (4, entry 4 (ask 4 (λ _. give)))
      ∷ [];
  frozen = false;
  stack = [];
  order = [];
  made = 0;
  log = [];
}

-- The singleton is the second object made, and its entry holds it.
abbrev opened_shop : Container
opened_shop = record shop {
  services =
      (
        1,
        record (entry 1 (ask 2 (λ _. give))) {
          singleton_instance = some 1;
          is_instantiated = true;
        },
      )
      ∷ (2, record (entry 2 give) { lifetime = transient })
      ∷ (3, record (entry 3 give) { lifetime = scoped })
      ∷ (4, entry 4 (ask 4 (λ _. give)))
      ∷ [];
  made = 2;
}

resolve_logger :
    resolve_with_detection name_of 5 1 none shop ≡ some (ok (some 1), opened_shop, none)
unfolding resolve_with_detection find push_resolution pop_resolution guarded resolve_as invoke_entry
    store_singleton ok
resolve_logger = refl

resolve_store :
    resolve_with_detection name_of 5 2 none opened_shop
    ≡ some (ok (some 2), record opened_shop { made = 3 }, none)
unfolding resolve_with_detection find push_resolution pop_resolution guarded resolve_as invoke_entry
resolve_store = refl

resolve-Preserved_example : Preserved shop opened_shop
resolve-Preserved_example =
    resolve-Preserved name_of 5 1 none shop (ok (some 1)) opened_shop none resolve_logger

resolve_terminates_example :
    (out : Resolved × Container × Scoped) × (resolve_with_detection name_of
        (suc (free (keys shop.services) []))
        4
        none
        shop
      ≡ some out)
resolve_terminates_example = resolve_terminates name_of 4 none shop

there_1 : find 1 shop.services ≡ some (entry 1 (ask 2 (λ _. give)))
unfolding find
there_1 = refl

singleton_shared_example :
    (l' : Container) × (resolve_with_detection name_of 3 1 (some []) opened_shop
      ≡ some (ok (some 1), l', some []))
    × (l'.made ≡ 2)
    × (l'.services ≡ opened_shop.services)
singleton_shared_example =
    singleton_shared name_of 5 2 1 none (some []) shop (entry 1 (ask 2 (λ _. give))) (some 1)
      opened_shop none opened_shop there_1 refl resolve_logger (Preserved-refl opened_shop)

there_3 : find 3 shop.services ≡ some (record (entry 3 give) { lifetime = scoped })
unfolding find
there_3 = refl

-- Through a scope that holds nothing.
resolve_session :
    resolve_with_detection name_of 5 3 (some []) shop
    ≡ some (ok (some 0), record shop { made = 1 }, some ((3, some 0) ∷ []))
unfolding resolve_with_detection find push_resolution pop_resolution guarded resolve_as invoke_entry
    invoke_factory_safe ok
resolve_session = refl

-- A factory that returns null, and one that hands on what it resolved.
null_given : invoke_factory_safe name_of (λ k c. none) (answer none) shop ≡ some (ok none, shop)
unfolding invoke_factory_safe
null_given = refl

scoped_shared_example :
    ScopeKept [] ((3, some 0) ∷ [])
    × ((l' : Container) × (resolve_with_detection name_of 2 3
            (some ((3, some 0) ∷ []))
            (record shop { made = 1 })
          ≡ some (ok (some 0), l', some ((3, some 0) ∷ [])))
        × (l'.made ≡ 1)
        × (l'.services ≡ shop.services))
    × ((r : Resolved) × (l' : Container) × (resolve_with_detection name_of 2 3 none
            (record shop { made = 1 })
          ≡ some (r, l', none))
        × (is_ok r ≡ false)
        × (l'.made ≡ 1))
scoped_shared_example =
    scoped_shared name_of 4 1 3 [] shop (record (entry 3 give) { lifetime = scoped }) (some 0)
      (record shop { made = 1 }) ((3, some 0) ∷ []) (record shop { made = 1 }) ((3, some 0) ∷ [])
      there_3 refl resolve_session (Preserved-refl (record shop { made = 1 })) (λ j w p. p)

frozen_for_good_example :
    ((changes (remove 1 "Logger" ∷ add_factory 9 "Nine" give singleton ∷ []) (freeze shop)).services
      ≡ shop.services)
    × ((changes (remove 1 "Logger" ∷ add_factory 9 "Nine" give singleton ∷ []) (freeze shop)).frozen
        ≡ true)
frozen_for_good_example =
    frozen_for_good (remove 1 "Logger" ∷ add_factory 9 "Nine" give singleton ∷ []) shop

register_lookup_example :
    let (r, d) = register_factory_internal 1 "Logger" give transient shop in
    ((is_ok r ≡ false)
      × (d.services ≡ shop.services)
      × ((shop.frozen ≡ true) ⊎ (is_registered_internal 1 shop ≡ true)))
    ⊎ ((is_ok r ≡ true)
        × (shop.frozen ≡ false)
        × (find 1 shop.services ≡ none)
        × (find 2 d.services ≡ (
            if 1 == 2
            then some (record {
              interface_type = 1;
              type_name = "Logger";
              factory = some give;
              lifetime = transient;
              singleton_instance = none;
              is_instantiated = false;
            })
            else find 2 shop.services)))
register_lookup_example = register_lookup 1 2 "Logger" give transient shop
