-- ===== src/Di/Container/Frozen.antt =====
-- Registration: what each operation does on every branch, and what freezing forbids.
use common_system.Prelude.{
  ℕ, ◌≡◌, refl, ◌∙◌, ◌⊎◌, true, false, none, some, List, [], ◌∷◌, String, arith, ◌==◌,
  if◌then◌else◌,
}
use common_system.Result.Core.{ok, err, is_ok}
use common_system.Di.Container.Registry.{
  Instance, Factory, Lifetime, Services, Container, find, erase, register_factory_internal,
  register_instance_internal, unregister_internal, clear, freeze, is_registered_internal,
}

-- The operations that can change the registry.
pub data Change : Type 0 where
  add_factory : ℕ → String → Factory → Lifetime → Change
  add_instance : ℕ → String → Instance → Change
  remove : ℕ → String → Change
  remove_all : Change
  lock : Change

pub change : Change → Container → Container
change (add_factory k name f l) c = (register_factory_internal k name f l c).1
change (add_instance k name v) c = (register_instance_internal k name v c).1
change (remove k name) c = (unregister_internal k name c).1
change remove_all c = (clear c).1
change lock c = freeze c

pub changes : List Change → Container → Container
changes [] c = c
changes (o ∷ os) c = changes os (change o c)

change_frozen :
    (o : Change) (c : Container)
    → c.frozen ≡ true
    → ((change o c).services ≡ c.services) × ((change o c).frozen ≡ true)
unfolding change register_factory_internal register_instance_internal unregister_internal clear
    freeze
change_frozen (add_factory k name f l) c h = ground arith
change_frozen (add_instance k name v) c h = ground arith
change_frozen (remove k name) c h = ground arith
change_frozen remove_all c h = ground arith
change_frozen lock c h = ground arith

changes_frozen :
    (os : List Change) (c : Container)
    → c.frozen ≡ true
    → ((changes os c).services ≡ c.services) × ((changes os c).frozen ≡ true)
unfolding changes
changes_frozen [] c h = (refl, h)
changes_frozen (o ∷ os) c h =
    let (same, still) = change_frozen o c h in
    let (rest, end_) = changes_frozen os (change o c) still in (rest ∙ same, end_)

-- Once `freeze` has been called, no sequence of operations changes the registered services, and the
-- container stays frozen.
pub frozen_for_good :
    (os : List Change) (c : Container)
    → ((changes os (freeze c)).services ≡ c.services) × ((changes os (freeze c)).frozen ≡ true)
unfolding freeze
frozen_for_good os c = changes_frozen os (freeze c) refl

find-erase : (k j : ℕ) (m : Services) → find j (erase k m) ≡ (if k == j then none else find j m)
unfolding find erase
find-erase k j [] = ground arith
find-erase k j ((i, e) ∷ m) = ground (arith, find-erase k j m)

-- A registration is refused, with the services unchanged, only where the container is frozen or the
-- type is registered. Otherwise it is accepted, and a lookup of any type `j` finds the new entry, with
-- the factory and the lifetime that were given and no instance yet, if `j` is the type, and what it
-- found before if not.
pub register_lookup :
    (k j : ℕ) (name : String) (f : Factory) (l : Lifetime) (c : Container)
    → let (r, d) = register_factory_internal k name f l c in
      ((is_ok r ≡ false)
        × (d.services ≡ c.services)
        × ((c.frozen ≡ true) ⊎ (is_registered_internal k c ≡ true)))
      ⊎ ((is_ok r ≡ true)
          × (c.frozen ≡ false)
          × (find k c.services ≡ none)
          × (find j d.services ≡ (
              if k == j
              then some (record {
                interface_type = k;
                type_name = name;
                factory = some f;
                lifetime = l;
                singleton_instance = none;
                is_instantiated = false;
              })
              else find j c.services)))
unfolding register_factory_internal is_ok ok err is_registered_internal find
register_lookup k j name f l c = ground arith

-- A removal is refused, with the services unchanged, only where the container is frozen or the type
-- is not registered. Otherwise it is accepted, and a lookup of any type `j` finds nothing if `j` is
-- the type, and what it found before if not.
unregister_lookup :
    (k j : ℕ) (name : String) (c : Container)
    → let (r, d) = unregister_internal k name c in
      ((is_ok r ≡ false)
        × (d.services ≡ c.services)
        × ((c.frozen ≡ true) ⊎ (find k c.services ≡ none)))
      ⊎ ((is_ok r ≡ true)
          × (c.frozen ≡ false)
          × (find j d.services ≡ (if k == j then none else find j c.services)))
unfolding unregister_internal is_ok ok err
unregister_lookup k j name c = ground (arith, find-erase k j c.services)
