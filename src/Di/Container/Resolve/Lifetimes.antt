-- ===== src/Di/Container/Resolve/Lifetimes.antt =====
-- A scoped service is one to a scope.
use common_system.Prelude.{
  ℕ, suc, zero, ◌≡◌, refl, sym, subst, ap, ◌∙◌, inl, inr, false, Bool-cases, Option-cases, none,
  some, List, ◌∷◌, String, neg, arith, ==_iff, ◌==◌,
}
use common_system.Result.Core.{ok, err, is_ok}
use common_system.Di.Container.Registry.{
  Instance, Lifetime, singleton, transient, scoped, ServiceEntry, Container, find,
}
use common_system.Di.Container.Resolve.{
  mem, failure, push_resolution, pop_resolution, Resolved, Scoped, lookup, Run, invoke_entry,
  with_scope, then_store, store_scoped, resolve_as, guarded, resolve_with_detection,
}
use common_system.Di.Container.Resolve.Preserved.{Preserved, Preserved-trans}
use common_system.Di.Container.Resolve.Kept.{nested, guarded_parts, resolve-Preserved}
use common_system.Di.Container.Resolve.Singleton.{kept_entry}

-- What a scope holds it goes on to hold.
abbrev pub ScopeKept : List (ℕ × Instance) → List (ℕ × Instance) → Type 0
ScopeKept m n = (j : ℕ) (w : Instance) → lookup j m ≡ some w → lookup j n ≡ some w

added-ScopeKept :
    (k : ℕ) (v : Instance) (m : List (ℕ × Instance)) → lookup k m ≡ none → ScopeKept m ((k, v) ∷ m)
added-ScopeKept k v m new j w h = elim (Bool-cases (k == j)) [
  | inl same ↦
      let this : k ≡ j = (==_iff k j).0 same in
      absurd (cc (sym new ∙ ap (λ i. lookup i m) this ∙ h))
  | inr other ↦ rw other h
]

module _ (type_name_of : ℕ → String) where
  with_scope_same :
      (m : List (ℕ × Instance)) (o : Run type_name_of) (r : Resolved) (d : Container)
      (m' : List (ℕ × Instance))
      → with_scope type_name_of (some m) o ≡ some (r, d, some m')
      → m' ≡ m
  with_scope_same m none r d m' h = absurd (cc h)
  with_scope_same m (some (s, c)) r d m' h = ground arith

  store_scoped-ScopeKept :
      (k : ℕ) (m : List (ℕ × Instance)) (o : Run type_name_of) (r : Resolved) (d : Container)
      (m' : List (ℕ × Instance))
      → lookup k m ≡ none
      → store_scoped type_name_of k m o ≡ some (r, d, some m')
      → ScopeKept m m'
  store_scoped-ScopeKept k m none r d m' new h = absurd (cc h)
  store_scoped-ScopeKept k m (some (s, c)) r d m' new h = elim (Option-cases s.value_) [
    | inl no_value ↦
        let same : m ≡ m' = ground (arith, no_value) in subst (ScopeKept m) same (λ j w e. e)
    | inr (v, has) ↦
        let same : (k, v) ∷ m ≡ m' = ground (arith, has) in
        subst (ScopeKept m) same (added-ScopeKept k v m new)
  ]

  store_scoped_held :
      (k : ℕ) (m : List (ℕ × Instance)) (o : Run type_name_of) (v : Instance) (d : Container)
      (m' : List (ℕ × Instance))
      → store_scoped type_name_of k m o ≡ some (ok v, d, some m')
      → lookup k m' ≡ some v
  unfolding ok
  store_scoped_held k m none v d m' h = absurd (cc h)
  store_scoped_held k m (some (s, c)) v d m' h = elim (Option-cases s.value_) [
    | inl no_value ↦ absurd (ground (arith, no_value))
    | inr (w, has) ↦
        let same : (k, w) ∷ m ≡ m' = ground (arith, has) in
        let value : w ≡ v = ground (arith, has) in
        subst (λ n. lookup k n ≡ some v) same (ground (arith, value))
  ]

  as-ScopeKept :
      (resolve : ℕ → Container → Run type_name_of) (k : ℕ) (life : Lifetime) (e : ServiceEntry)
      (m : List (ℕ × Instance)) (c : Container) (r : Resolved) (d : Container)
      (m' : List (ℕ × Instance))
      → resolve_as type_name_of resolve k life e (some m) c ≡ some (r, d, some m')
      → ScopeKept m m'
  unfolding resolve_as
  as-ScopeKept resolve k singleton e m c r d m' h = elim (Bool-cases e.is_instantiated) [
    | inl made ↦ let same : m ≡ m' = ground (arith, made) in subst (ScopeKept m) same (λ j w p. p)
    | inr fresh ↦
        let made = then_store type_name_of k (invoke_entry type_name_of resolve e.factory c) in
        subst (ScopeKept m) (sym (with_scope_same m made r d m' (ground (arith, fresh))))
          (λ j w p. p)
  ]
  as-ScopeKept resolve k transient e m c r d m' h =
      subst (ScopeKept m)
        (sym (with_scope_same m (invoke_entry type_name_of resolve e.factory c) r d m' h))
        (λ j w p. p)
  as-ScopeKept resolve k scoped e m c r d m' h = elim (Option-cases (lookup k m)) [
    | inl new ↦
        store_scoped-ScopeKept k m (invoke_entry type_name_of resolve e.factory c) r d m' new
          (ground (arith, new))
    | inr (v, old) ↦
        let same : m ≡ m' = ground (arith, old) in subst (ScopeKept m) same (λ j w p. p)
  ]

  -- A resolution of any type through a scope keeps what the scope held.
  resolve-ScopeKept :
      (fuel k : ℕ) (m : List (ℕ × Instance)) (c : Container) (r : Resolved) (d : Container)
      (m' : List (ℕ × Instance))
      → resolve_with_detection type_name_of fuel k (some m) c ≡ some (r, d, some m')
      → ScopeKept m m'
  unfolding resolve_with_detection
  resolve-ScopeKept zero k m c r d m' h = absurd (cc h)
  resolve-ScopeKept (suc fuel) k m c r d m' h = elim (Bool-cases (mem k c.stack)) [
    | inl busy ↦ let same : m ≡ m' = ground (arith, busy) in subst (ScopeKept m) same (λ j w p. p)
    | inr free ↦ elim (Option-cases (find k c.services)) [
      | inl gone ↦
          let same : m ≡ m' = ground (arith, free, gone) in subst (ScopeKept m) same (λ j w p. p)
      | inr (e, there) ↦
          let (c', run, same) =
            guarded_parts type_name_of k
              (resolve_as type_name_of (nested type_name_of fuel) k e.lifetime e (some m)
                (push_resolution k c))
              {r = r} {d = d} {m = some m'} (ground (arith, free, there)) in
          as-ScopeKept (nested type_name_of fuel) k e.lifetime e m (push_resolution k c) r c' m' run
    ]
  ]

  as_scoped_held :
      (resolve : ℕ → Container → Run type_name_of) (k : ℕ) (e : ServiceEntry)
      (m : List (ℕ × Instance)) (c : Container) (v : Instance) (d : Container)
      (m' : List (ℕ × Instance))
      → resolve_as type_name_of resolve k scoped e (some m) c ≡ some (ok v, d, some m')
      → lookup k m' ≡ some v
  unfolding resolve_as ok
  as_scoped_held resolve k e m c v d m' h = elim (Option-cases (lookup k m)) [
    | inl new ↦
        store_scoped_held k m (invoke_entry type_name_of resolve e.factory c) v d m'
          (unfold ok in ground (arith, new))
    | inr (w, old) ↦
        let same : m ≡ m' = ground (arith, old) in
        let value : w ≡ v = ground (arith, old) in
        subst (λ n. lookup k n ≡ some v) same (old ∙ ap some value)
  ]

  -- What a resolution in a scope that succeeds went through.
  resolved_as :
      (fuel k : ℕ) (m : Scoped) (c : Container) (e : ServiceEntry) (v : Instance) (d : Container)
      (m' : Scoped)
      → find k c.services ≡ some e
      → resolve_with_detection type_name_of (suc fuel) k m c ≡ some (ok v, d, m')
      → (mem k c.stack ≡ false)
        × ((c' : Container) × (resolve_as type_name_of
                (nested type_name_of fuel)
                k
                e.lifetime
                e
                m
                (push_resolution k c)
              ≡ some (ok v, c', m')))
  unfolding resolve_with_detection ok
  resolved_as fuel k m c e v d m' there h = elim (Bool-cases (mem k c.stack)) [
    | inl busy ↦ absurd (unfold err in ground (arith, busy))
    | inr free ↦
        let (c', run, same) =
          guarded_parts type_name_of k
            (resolve_as type_name_of (nested type_name_of fuel) k e.lifetime e m
              (push_resolution k c))
            {r = ok v} {d = d} {m = m'} (ground (arith, free, there)) in
        (free, (c', run))
  ]

  -- A resolution of a scoped service where the scope holds it, and one without a scope.
  scoped_answers :
      (fuel k : ℕ) (instances : List (ℕ × Instance)) (c : Container) (e : ServiceEntry)
      (v : Instance)
      → find k c.services ≡ some e
      → e.lifetime ≡ scoped
      → mem k c.stack ≡ false
      → lookup k instances ≡ some v
      → ((d : Container) × (resolve_with_detection type_name_of (suc fuel) k (some instances) c
            ≡ some (ok v, d, some instances))
          × (d.made ≡ c.made)
          × (d.services ≡ c.services))
        × ((r : Resolved) × (d : Container) × (resolve_with_detection type_name_of
                (suc fuel)
                k
                none
                c
              ≡ some (r, d, none))
            × (is_ok r ≡ false)
            × (d.made ≡ c.made))
  unfolding resolve_with_detection resolve_as guarded push_resolution pop_resolution is_ok err
  scoped_answers fuel k instances c e v there life free held = (
    (pop_resolution k (push_resolution k c), ground (arith, free, there, life, held), refl, refl),
    (
      failure (neg 55) "Cannot resolve scoped service from root container. Use create_scope().",
      pop_resolution k (push_resolution k c),
      ground (arith, free, there, life),
      refl,
      refl,
    ),
  )

  -- A scoped service is one to a scope. What a resolution through a scope gave, every later one
  -- through this scope gives, and it runs no factory for it; the first one has kept what the scope
  -- held. Later are all containers that keep what the first resolution left and all states of the
  -- scope that keep what it held, as further resolutions do. Without a scope it is refused.
  pub scoped_shared :
      (fuel later k : ℕ) (m : List (ℕ × Instance)) (c : Container) (e : ServiceEntry) (v : Instance)
      (d : Container) (m' : List (ℕ × Instance)) (l : Container) (n : List (ℕ × Instance))
      → find k c.services ≡ some e
      → e.lifetime ≡ scoped
      → resolve_with_detection type_name_of (suc fuel) k (some m) c ≡ some (ok v, d, some m')
      → Preserved d l
      → ScopeKept m' n
      → ScopeKept m m'
        × ((l' : Container) × (resolve_with_detection type_name_of (suc later) k (some n) l
              ≡ some (ok v, l', some n))
            × (l'.made ≡ l.made)
            × (l'.services ≡ l.services))
        × ((r : Resolved) × (l' : Container) × (resolve_with_detection type_name_of
                (suc later)
                k
                none
                l
              ≡ some (r, l', none))
            × (is_ok r ≡ false)
            × (l'.made ≡ l.made))
  scoped_shared fuel later k m c e v d m' l n there life first p q =
      let (free, (c', run)) = resolved_as fuel k (some m) c e v d (some m') there first in
      let before =
        resolve-Preserved type_name_of (suc fuel) k (some m) c (ok v) d (some m') first in
      let (e', there', same) = kept_entry type_name_of k c l e there (Preserved-trans before p) in
      let held = as_scoped_held (nested type_name_of fuel) k e m (push_resolution k c) v c' m' (
        subst
          (λ lt.
            resolve_as type_name_of (nested type_name_of fuel) k lt e (some m) (push_resolution k c)
            ≡ some (ok v, c', some m'))
          life run) in
      let (again, refused) =
        scoped_answers later k n l e' v there' (same ∙ life)
          (ap (mem k) (p.stack_same ∙ before.stack_same) ∙ free) (q k v held) in
      (resolve-ScopeKept (suc fuel) k m c (ok v) d m' first, again, refused)
