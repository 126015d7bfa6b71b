-- ===== src/Di/Container/Resolve/Total.antt =====
-- Resolution ends: the cycle check bounds how deep factories can resolve within factories.
use common_system.Prelude.{
  ℕ, suc, zero, ◌+◌, ◌≤◌, ◌<◌, ◌≢◌, ◌≡◌, refl, ap, ◌∙◌, inl, inr, true, false, Bool-cases,
  Option-cases, Option, none, some, List, [], ◌∷◌, String, arith, ==_iff, ◌==◌, if◌then◌else◌,
}
use common_system.Di.Container.Registry.{
  Instance, Factory, answer, construct, throws, ask, Lifetime, singleton, transient, scoped,
  ServiceEntry, Services, Container, find,
}
use common_system.Di.Container.Resolve.{
  mem, push_resolution, Resolved, Scoped, lookup, Run, invoke_factory_safe, invoke_entry,
  store_singleton, ScopedRun, with_scope, store_scoped, resolve_as, then_store, guarded,
  forget_scope, resolve_with_detection,
}
use common_system.Di.Container.Resolve.Preserved.{keys}
use common_system.Di.Container.Resolve.Invoke.{Keeps}
use common_system.Di.Container.Resolve.Kept.{nested, nested-Preserved}
use common_system.Di.Container.Resolve.Invoke.{invoke_entry-Preserved}

-- How many registered types are not being resolved.
abbrev pub free : List ℕ → List ℕ → ℕ
free [] stack = 0
free (k ∷ ks) stack = (if mem k stack then 0 else 1) + free ks stack

free-le : (k : ℕ) (ks stack : List ℕ) → free ks (k ∷ stack) ≤ free ks stack
free-le k [] stack = omega arith
free-le k (j ∷ ks) stack = ground (arith, free-le k ks stack)

free-push :
    (k : ℕ) (ks stack : List ℕ)
    → mem k ks ≡ true
    → mem k stack ≡ false
    → free ks (k ∷ stack) < free ks stack
free-push k [] stack there new = absurd (cc there)
free-push k (j ∷ ks) stack there new = elim (Bool-cases (j == k)) [
  | inl this ↦
      let same : j ≡ k = (==_iff j k).0 this in rw same (ground (arith, free-le k ks stack, new))
  | inr other ↦ ground (arith, other, free-push k ks stack, new, there)
]

mem-keys : (k : ℕ) (m : Services) {e : ServiceEntry} → find k m ≡ some e → mem k (keys m) ≡ true
unfolding find
mem-keys k [] h = cc
mem-keys k ((j, d) ∷ m) h = elim (Bool-cases (j == k)) [
  | inl this ↦ rw this
  | inr other ↦ rw other (mem-keys k m (rw other at h))
]

find-mem : (k : ℕ) (m : Services) → mem k (keys m) ≡ true → (e : ServiceEntry) × (find k m ≡ some e)
unfolding find
find-mem k [] h = absurd (cc h)
find-mem k ((j, d) ∷ m) h = elim (Bool-cases (j == k)) [
  | inl this ↦ (d, rw this)
  | inr other ↦ let (e, p) = find-mem k m (rw other at h) in (e, rw other p)
]

-- Fewer types than `n` are still to be resolved.
abbrev Small : ℕ → Container → Type 0
Small n c = free (keys c.services) c.stack < n

module _ (type_name_of : ℕ → String) where
  store_done :
      (k : ℕ) (r : Resolved) (c : Container)
      → mem k (keys c.services) ≡ true
      → store_singleton type_name_of k r c ≢ none
  unfolding store_singleton
  store_done k r c there h = let (e, p) = find-mem k c.services there in ground (arith, p)

  with_scope_done :
      (m : Scoped) (o : Run type_name_of) → o ≢ none → with_scope type_name_of m o ≢ none
  with_scope_done m none h k = h refl
  with_scope_done m (some out) h k = cc

  store_scoped_done :
      (k : ℕ) (m : List (ℕ × Instance)) (o : Run type_name_of)
      → o ≢ none
      → store_scoped type_name_of k m o ≢ none
  store_scoped_done k m none h q = h refl
  store_scoped_done k m (some (r, c)) h q = ground arith

  then_store_done :
      (k : ℕ) (o : Run type_name_of)
      → o ≢ none
      → ((r : Resolved) (c : Container) → o ≡ some (r, c) → mem k (keys c.services) ≡ true)
      → then_store type_name_of k o ≢ none
  then_store_done k none h there = h
  then_store_done k (some (r, c)) h there = store_done k r c (there r c refl)

  module _ (n : ℕ) (resolve : ℕ → Container → Run type_name_of) (keeps : Keeps type_name_of resolve)
      (total : (k : ℕ) (c : Container) → Small n c → resolve k c ≢ none) where
    invoke_done :
        (f : Factory) (c : Container)
        → Small n c
        → invoke_factory_safe type_name_of resolve f c ≢ none
    unfolding invoke_factory_safe
    invoke_done (answer instance_) c s h = cc
    invoke_done (construct next) c s h =
        invoke_done (next c.made) (record c { made = c.made + 1 }) s h
    invoke_done (throws what) c s h = cc
    invoke_done (ask k next) c s h = elim (Option-cases (resolve k c)) [
      | inl stuck ↦ total k c s stuck
      | inr (out, first) ↦
          let p = keeps k c out.0 out.1 first in
          invoke_done (next out.0) out.1 (rw (p.keys_same, p.stack_same) s) (ground (arith, first))
    ]

    invoke_entry_done :
        (f : Option Factory) (c : Container)
        → Small n c
        → invoke_entry type_name_of resolve f c ≢ none
    unfolding invoke_entry
    invoke_entry_done none c s h = cc
    invoke_entry_done (some f) c s h = invoke_done f c s h

    resolve_as_done :
        (k : ℕ) (l : Lifetime) (e : ServiceEntry) (m : Scoped) (c : Container)
        → Small n c
        → mem k (keys c.services) ≡ true
        → resolve_as type_name_of resolve k l e m c ≢ none
    unfolding resolve_as
    resolve_as_done k singleton e m c s there h = elim (Bool-cases e.is_instantiated) [
      | inl made ↦ ground (arith, made)
      | inr fresh ↦
          with_scope_done m
            (then_store type_name_of k (invoke_entry type_name_of resolve e.factory c))
            (then_store_done k (invoke_entry type_name_of resolve e.factory c)
              (invoke_entry_done e.factory c s)
              (λ r d q.
                ap (mem k)
                  (invoke_entry-Preserved type_name_of resolve keeps e.factory c r d q).keys_same
                ∙ there))
            (ground (arith, fresh))
    ]
    resolve_as_done k transient e m c s there h =
        with_scope_done m (invoke_entry type_name_of resolve e.factory c)
          (invoke_entry_done e.factory c s) h
    resolve_as_done k scoped e none c s there h = cc
    resolve_as_done k scoped e (some m) c s there h = elim (Option-cases (lookup k m)) [
      | inl new ↦
          store_scoped_done k m (invoke_entry type_name_of resolve e.factory c)
            (invoke_entry_done e.factory c s) (ground (arith, new))
      | inr (v, old) ↦ ground (arith, old)
    ]

  guarded_done : (k : ℕ) (o : ScopedRun type_name_of) → o ≢ none → guarded type_name_of k o ≢ none
  unfolding guarded
  guarded_done k none h q = h refl
  guarded_done k (some (r, c, m)) h q = cc

  forget_done : (o : ScopedRun type_name_of) → o ≢ none → forget_scope type_name_of o ≢ none
  forget_done none h q = h refl
  forget_done (some (r, c, m)) h q = cc

  resolve_done :
      (fuel k : ℕ) (m : Scoped) (c : Container)
      → Small fuel c
      → resolve_with_detection type_name_of fuel k m c ≢ none
  unfolding resolve_with_detection
  resolve_done zero k m c s h = absurd (omega arith)
  resolve_done (suc fuel) k m c s h = elim (Bool-cases (mem k c.stack)) [
    | inl busy ↦ ground (arith, busy)
    | inr new ↦ elim (Option-cases (find k c.services)) [
      | inl gone ↦ ground (arith, new, gone)
      | inr (e, there) ↦
          let reg = mem-keys k c.services there in
          guarded_done k
            (resolve_as type_name_of (nested type_name_of fuel) k e.lifetime e m
              (push_resolution k c))
            (resolve_as_done fuel (nested type_name_of fuel) (nested-Preserved type_name_of fuel)
              (λ j a small.
                forget_done (resolve_with_detection type_name_of fuel j none a)
                  (resolve_done fuel j none a small))
              k e.lifetime e m (push_resolution k c)
              (unfold push_resolution in
                ground (arith, new, free-push k (keys c.services) c.stack reg new, s))
              (unfold push_resolution in reg))
            (ground (arith, new, there))
    ]
  ]

  -- A resolution returns, a value or an error, whatever the factories resolve in turn: one more unit
  -- of fuel than there are registered types that are not being resolved is enough.
  pub resolve_terminates :
      (k : ℕ) (m : Scoped) (c : Container)
      → (out : Resolved × Container × Scoped) × (resolve_with_detection type_name_of
            (suc (free (keys c.services) c.stack))
            k
            m
            c
          ≡ some out)
  resolve_terminates k m c =
      elim (Option-cases
        (resolve_with_detection type_name_of (suc (free (keys c.services) c.stack)) k m c)) [
          | inl stuck ↦
              absurd (resolve_done (suc (free (keys c.services) c.stack)) k m c (omega arith) stuck)
          | inr found ↦ found
        ]
