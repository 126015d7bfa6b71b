-- ===== src/Di/Container/Resolve/Invoke.antt =====
-- Running a factory, and what is done with its result, keeps what the container held.
use common_system.Prelude.{
  ℕ, ◌+◌, ◌≡◌, ◌⊎◌, refl, sym, subst, inl, inr, true, false, Bool-cases, Option-cases, Option, none,
  some, List, String, arith,
}
use common_system.Result.Core.{Result}
use common_system.Di.Container.Registry.{
  Instance, Factory, answer, construct, throws, ask, Lifetime, singleton, transient, scoped,
  ServiceEntry, Container, find,
}
use common_system.Di.Container.Resolve.{
  update, Resolved, Scoped, lookup, Run, invoke_factory_safe, invoke_entry, store_singleton,
  with_scope, store_scoped, resolve_as, then_store,
}
use common_system.Di.Container.Resolve.Preserved.{
  Preserved, Preserved-refl, Preserved-trans, made-Preserved, update-Preserved,
}

module _ (type_name_of : ℕ → String) where
  store_singleton_cases :
      (k : ℕ) (r : Resolved) (c : Container) {s : Resolved} {d : Container}
      → store_singleton type_name_of k r c ≡ some (s, d)
      → (d ≡ c)
        ⊎ ((e : ServiceEntry) × (v : Instance) × (find k c.services ≡ some e)
            × (e.is_instantiated ≡ false)
            × (d ≡ record c {
              services =
                  update k (record e { singleton_instance = v; is_instantiated = true }) c.services;
            }))
  unfolding store_singleton
  store_singleton_cases k r c {d = d} h = elim (Option-cases r.value_) [
    | inl no_value ↦ inl (ground (arith, no_value))
    | inr (v, has) ↦ elim (Option-cases (find k c.services)) [
      | inl gone ↦ absurd (ground (arith, has, gone))
      | inr (e, there) ↦ elim (Bool-cases e.is_instantiated) [
        | inl made ↦ inl (ground (arith, has, there, made))
        | inr fresh ↦ inr (e, v, there, fresh, ground (arith, has, there, fresh))
      ]
    ]
  ]

  -- The write of a singleton's instance.
  pub store_singleton-Preserved :
      (k : ℕ) (r : Resolved) (c : Container) {s : Resolved} {d : Container}
      → store_singleton type_name_of k r c ≡ some (s, d)
      → Preserved c d
  store_singleton-Preserved k r c h = elim (store_singleton_cases k r c h) [
    | inl same ↦ subst (Preserved c) (sym same) (Preserved-refl c)
    | inr (e, v, there, fresh, same) ↦ subst (Preserved c) (sym same) (
        update-Preserved k e (record e { singleton_instance = v; is_instantiated = true }) c there
          (refl, refl, refl, λ i. cc))
  ]

  pub ask_parts :
      (resolve : ℕ → Container → Run type_name_of) (k : ℕ) (next : Result Instance → Factory)
      (c : Container) {r : Resolved} {d : Container}
      → invoke_factory_safe type_name_of resolve (ask k next) c ≡ some (r, d)
      → (r' : Resolved) × (c' : Container) × (resolve k c ≡ some (r', c'))
        × (invoke_factory_safe type_name_of resolve (next r') c' ≡ some (r, d))
  unfolding invoke_factory_safe
  ask_parts resolve k next c h = elim (Option-cases (resolve k c)) [
    | inl stuck ↦ absurd (ground (arith, stuck))
    | inr (out, first) ↦ (out.0, out.1, first, ground (arith, first))
  ]

  -- A method that keeps what it finds.
  abbrev pub Keeps : (ℕ → Container → Run type_name_of) → Type 0
  Keeps resolve =
      (k : ℕ) (c : Container) (r : Resolved) (d : Container)
      → resolve k c ≡ some (r, d)
      → Preserved c d

  module _ (resolve : ℕ → Container → Run type_name_of) (keeps : Keeps resolve) where
    invoke-Preserved :
        (f : Factory) (c : Container) (r : Resolved) (d : Container)
        → invoke_factory_safe type_name_of resolve f c ≡ some (r, d)
        → Preserved c d
    unfolding invoke_factory_safe
    invoke-Preserved (answer instance_) c r d h = subst (Preserved c) (cc h) (Preserved-refl c)
    invoke-Preserved (construct next) c r d h =
        Preserved-trans (made-Preserved c)
          (invoke-Preserved (next c.made) (record c { made = c.made + 1 }) r d h)
    invoke-Preserved (throws what) c r d h = subst (Preserved c) (cc h) (Preserved-refl c)
    invoke-Preserved (ask k next) c r d h =
        let (r', c', first, rest) = ask_parts resolve k next c h in
        Preserved-trans (keeps k c r' c' first) (invoke-Preserved (next r') c' r d rest)

    pub invoke_entry-Preserved :
        (f : Option Factory) (c : Container) (r : Resolved) (d : Container)
        → invoke_entry type_name_of resolve f c ≡ some (r, d)
        → Preserved c d
    unfolding invoke_entry
    invoke_entry-Preserved none c r d h = subst (Preserved c) (cc h) (Preserved-refl c)
    invoke_entry-Preserved (some f) c r d h = invoke-Preserved f c r d h

    -- What is done with the result of the factory keeps what the factory kept.
    after_store :
        (k : ℕ) (m : Scoped) (c : Container) (o : Run type_name_of) (r : Resolved) (d : Container)
        (m' : Scoped)
        → ((r' : Resolved) (c' : Container) → o ≡ some (r', c') → Preserved c c')
        → with_scope type_name_of m (then_store type_name_of k o) ≡ some (r, d, m')
        → Preserved c d
    after_store k m c none r d m' before h = cc
    after_store k m c (some (r', c')) r d m' before h =
        elim (Option-cases (store_singleton type_name_of k r' c')) [
          | inl gone ↦ absurd (ground (arith, gone))
          | inr (out, stored) ↦
              Preserved-trans (before r' c' refl)
                (store_singleton-Preserved k r' c' {s = out.0} {d = d} (ground (arith, stored)))
        ]

    after_plain :
        (m : Scoped) (c : Container) (o : Run type_name_of) (r : Resolved) (d : Container)
        (m' : Scoped)
        → ((r' : Resolved) (c' : Container) → o ≡ some (r', c') → Preserved c c')
        → with_scope type_name_of m o ≡ some (r, d, m')
        → Preserved c d
    after_plain m c none r d m' before h = cc
    after_plain m c (some (r', c')) r d m' before h = before r' d (ground arith)

    after_scoped :
        (k : ℕ) (m : List (ℕ × Instance)) (c : Container) (o : Run type_name_of) (r : Resolved)
        (d : Container) (m' : Scoped)
        → ((r' : Resolved) (c' : Container) → o ≡ some (r', c') → Preserved c c')
        → store_scoped type_name_of k m o ≡ some (r, d, m')
        → Preserved c d
    after_scoped k m c none r d m' before h = cc
    after_scoped k m c (some (r', c')) r d m' before h = before r' d (ground arith)

    pub resolve_as-Preserved :
        (k : ℕ) (l : Lifetime) (e : ServiceEntry) (m : Scoped) (c : Container) (r : Resolved)
        (d : Container) (m' : Scoped)
        → resolve_as type_name_of resolve k l e m c ≡ some (r, d, m')
        → Preserved c d
    unfolding resolve_as
    resolve_as-Preserved k singleton e m c r d m' h = elim (Bool-cases e.is_instantiated) [
      | inl made ↦ subst (Preserved c) (ground (arith, made)) (Preserved-refl c)
      | inr fresh ↦
          after_store k m c (invoke_entry type_name_of resolve e.factory c) r d m'
            (invoke_entry-Preserved e.factory c) (ground (arith, fresh))
    ]
    resolve_as-Preserved k transient e m c r d m' h =
        after_plain m c (invoke_entry type_name_of resolve e.factory c) r d m'
          (invoke_entry-Preserved e.factory c) h
    resolve_as-Preserved k scoped e none c r d m' h = subst (Preserved c) (cc h) (Preserved-refl c)
    resolve_as-Preserved k scoped e (some m) c r d m' h = elim (Option-cases (lookup k m)) [
      | inl new ↦
          after_scoped k m c (invoke_entry type_name_of resolve e.factory c) r d m'
            (invoke_entry-Preserved e.factory c) (ground (arith, new))
      | inr (v, old) ↦ subst (Preserved c) (ground (arith, old)) (Preserved-refl c)
    ]
