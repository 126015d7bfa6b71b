-- ===== src/Di/Container/Resolve/Singleton.antt =====
-- A singleton has one instance.
use common_system.Prelude.{
  ℕ, suc, zero, ◌≡◌, refl, sym, subst, ap, ◌∙◌, inl, inr, true, false, Bool-cases, Option-cases,
  none, some, [], ◌∷◌, String, arith, ◌==◌,
}
use common_system.Result.Core.{ok, err}
use common_system.Di.Container.Registry.{
  Instance, singleton, ServiceEntry, Services, Container, find,
}
use common_system.Di.Container.Resolve.{
  mem, push_resolution, pop_resolution, update, Resolved, Scoped, Run, invoke_entry,
  store_singleton, with_scope, resolve_as, then_store, guarded, resolve_with_detection,
}
use common_system.Di.Container.Resolve.Preserved.{EntryKept, Preserved}
use common_system.Di.Container.Resolve.Invoke.{Keeps}
use common_system.Di.Container.Resolve.Kept.{
  nested, nested-Preserved, guarded_parts, resolve-Preserved,
}
use common_system.Di.Container.Resolve.Invoke.{invoke_entry-Preserved}

find-update_self :
    (k : ℕ) (d : ServiceEntry) (m : Services) {e : ServiceEntry}
    → find k m ≡ some e
    → find k (update k d m) ≡ some d
unfolding find
find-update_self k d [] h = cc
find-update_self k d ((j, x) ∷ m) h = elim (Bool-cases (j == k)) [
  | inl this ↦ rw (this, this)
  | inr other ↦ rw (other, other) (find-update_self k d m (rw other at h))
]

-- The entry of a type holds the instance `v`.
abbrev pub Holds : ℕ → Instance → Container → Type 0
Holds k v c =
    (e : ServiceEntry) × (find k c.services ≡ some e)
    × (e.lifetime ≡ singleton)
    × (e.is_instantiated ≡ true)
    × (e.singleton_instance ≡ v)

-- A later container still holds it.
Holds-Preserved :
    (k : ℕ) (v : Instance) (c d : Container) → Holds k v c → Preserved c d → Holds k v d
Holds-Preserved k v c d (e, there, life, made, inst) p =
    let kept : EntryKept (some e) (find k d.services) =
      subst (λ o. EntryKept o (find k d.services)) there (p.entries_kept k) in
    elim (Option-cases (find k d.services)) [
      | inl gone ↦ absurd (subst (EntryKept (some e)) gone kept)
      | inr (e', there') ↦
          let same : e' ≡ e = (subst (EntryKept (some e)) there' kept).3 made in
          (e, there' ∙ ap some same, life, made, inst)
    ]

module _ (type_name_of : ℕ → String) where
  store_singleton-Holds :
      (k : ℕ) (r : Resolved) (c : Container) (v : Instance) (d : Container) (e : ServiceEntry)
      → find k c.services ≡ some e
      → e.lifetime ≡ singleton
      → store_singleton type_name_of k r c ≡ some (ok v, d)
      → Holds k v d
  unfolding store_singleton ok
  store_singleton-Holds k r c v d e there life h = elim (Option-cases r.value_) [
    | inl no_value ↦ absurd (ground (arith, no_value))
    | inr (w, has) ↦ elim (Bool-cases e.is_instantiated) [
      | inl made ↦ (e, ground (arith, has, made), life, made, ground (arith, has, made))
      | inr fresh ↦
          let e' : ServiceEntry = record e { singleton_instance = v; is_instantiated = true } in
          let same : d ≡ record c { services = update k e' c.services } =
            ground (arith, has, fresh) in
          (
            e',
            ap (λ (x : Container). find k x.services) same ∙ find-update_self k e' c.services there,
            life,
            refl,
            refl,
          )
    ]
  ]

  -- The entry of a type in a container that kept what another held.
  pub kept_entry :
      (k : ℕ) (c d : Container) (e : ServiceEntry)
      → find k c.services ≡ some e
      → Preserved c d
      → (e' : ServiceEntry) × (find k d.services ≡ some e') × (e'.lifetime ≡ e.lifetime)
  kept_entry k c d e there p =
      let kept : EntryKept (some e) (find k d.services) =
        subst (λ o. EntryKept o (find k d.services)) there (p.entries_kept k) in
      elim (Option-cases (find k d.services)) [
        | inl gone ↦ absurd (subst (EntryKept (some e)) gone kept)
        | inr (e', there') ↦ (e', there', (subst (EntryKept (some e)) there' kept).1)
      ]

  then_store-Holds :
      (k : ℕ) (m : Scoped) (o : Run type_name_of) (v : Instance) (d : Container) (m' : Scoped)
      → ((r : Resolved) (c : Container)
          → o ≡ some (r, c)
          → (e : ServiceEntry) × (find k c.services ≡ some e) × (e.lifetime ≡ singleton))
      → with_scope type_name_of m (then_store type_name_of k o) ≡ some (ok v, d, m')
      → Holds k v d
  then_store-Holds k m none v d m' entry h = absurd (cc h)
  then_store-Holds k m (some (r, c)) v d m' entry h =
      elim (Option-cases (store_singleton type_name_of k r c)) [
        | inl gone ↦ absurd (ground (arith, gone))
        | inr (out, stored) ↦
            let (e, there, life) = entry r c refl in
            store_singleton-Holds k r c v d e there life (ground (arith, stored))
      ]

  singleton_Holds :
      (resolve : ℕ → Container → Run type_name_of) (keeps : Keeps type_name_of resolve) (k : ℕ)
      (e : ServiceEntry) (m : Scoped) (c : Container) (v : Instance) (d : Container) (m' : Scoped)
      → find k c.services ≡ some e
      → e.lifetime ≡ singleton
      → resolve_as type_name_of resolve k singleton e m c ≡ some (ok v, d, m')
      → Holds k v d
  unfolding resolve_as ok
  singleton_Holds resolve keeps k e m c v d m' there life h = elim (Bool-cases e.is_instantiated) [
    | inl made ↦
        let same : c ≡ d = ground (arith, made) in
        let held : Holds k v c = (e, there, life, made, ground (arith, made)) in
        subst (Holds k v) same held
    | inr fresh ↦
        then_store-Holds k m (invoke_entry type_name_of resolve e.factory c) v d m'
          (λ r c' q.
            let (e', there', same) =
              kept_entry k c c' e there
                (invoke_entry-Preserved type_name_of resolve keeps e.factory c r c' q) in
            (e', there', same ∙ life))
          (ground (arith, fresh))
  ]

  -- A resolution of a singleton that succeeds leaves its instance in the entry.
  resolve_with_detection-Holds :
      (fuel k : ℕ) (m : Scoped) (c : Container) (e : ServiceEntry) (v : Instance) (d : Container)
      (m' : Scoped)
      → find k c.services ≡ some e
      → e.lifetime ≡ singleton
      → resolve_with_detection type_name_of fuel k m c ≡ some (ok v, d, m')
      → (mem k c.stack ≡ false) × Holds k v d
  unfolding resolve_with_detection ok push_resolution
  resolve_with_detection-Holds zero k m c e v d m' there life h = absurd (cc h)
  resolve_with_detection-Holds (suc fuel) k m c e v d m' there life h =
      elim (Bool-cases (mem k c.stack)) [
        | inl busy ↦ absurd (unfold err in ground (arith, busy))
        | inr free ↦
            let (c', run, same) =
              guarded_parts type_name_of k
                (resolve_as type_name_of (nested type_name_of fuel) k e.lifetime e m
                  (push_resolution k c))
                {r = ok v} {d = d} {m = m'} (ground (arith, free, there)) in
            let held =
              singleton_Holds (nested type_name_of fuel) (nested-Preserved type_name_of fuel) k e m
                (push_resolution k c) v c' m' there life
                (subst
                  (λ l.
                    resolve_as type_name_of (nested type_name_of fuel) k l e m (push_resolution k c)
                    ≡ some (ok v, c', m'))
                  life run) in
            (free, subst (Holds k v) (sym same) (unfold pop_resolution in held))
      ]

  -- A resolution where the entry holds an instance gives it and makes nothing.
  resolve-Holds :
      (fuel k : ℕ) (m : Scoped) (c : Container) (v : Instance)
      → mem k c.stack ≡ false
      → Holds k v c
      → (d : Container) × (resolve_with_detection type_name_of (suc fuel) k m c ≡ some (ok v, d, m))
        × (d.made ≡ c.made)
        × (d.services ≡ c.services)
  unfolding resolve_with_detection resolve_as guarded push_resolution pop_resolution
  resolve-Holds fuel k m c v free (e, there, life, made, inst) = (
    pop_resolution k (push_resolution k c),
    ground (arith, free, there, life, made, inst),
    refl,
    refl,
  )

  -- A singleton has one instance: what a resolution gave, every later one gives, from the root or
  -- from any scope, and it runs no factory for it. Later are all containers that keep what the first
  -- resolution left, as further resolutions of any types do.
  pub singleton_shared :
      (fuel later k : ℕ) (m n : Scoped) (c : Container) (e : ServiceEntry) (v : Instance)
      (d : Container) (m' : Scoped) (l : Container)
      → find k c.services ≡ some e
      → e.lifetime ≡ singleton
      → resolve_with_detection type_name_of fuel k m c ≡ some (ok v, d, m')
      → Preserved d l
      → (l' : Container) × (resolve_with_detection type_name_of (suc later) k n l
          ≡ some (ok v, l', n))
        × (l'.made ≡ l.made)
        × (l'.services ≡ l.services)
  singleton_shared fuel later k m n c e v d m' l there life first p =
      let (free, held) = resolve_with_detection-Holds fuel k m c e v d m' there life first in
      let before = resolve-Preserved type_name_of fuel k m c (ok v) d m' first in
      resolve-Holds later k n l v (ap (mem k) (p.stack_same ∙ before.stack_same) ∙ free)
        (Holds-Preserved k v d l held p)
