-- ===== src/Di/Container/Resolve/Kept.antt =====
-- A resolution restores the resolution stack and keeps the registry.
use common_system.Prelude.{
  ℕ, suc, zero, ◌≡◌, refl, sym, subst, ap, ◌∙◌, inl, inr, false, Bool-cases, Option-cases, none,
  some, List, [], ◌∷◌, String, arith,
}
use common_system.Di.Container.Registry.{Container, find}
use common_system.Di.Container.Resolve.{
  mem, erase_key, drop_back, push_resolution, pop_resolution, Resolved, Scoped, Run, ScopedRun,
  resolve_as, guarded, forget_scope, resolve_with_detection,
}
use common_system.Di.Container.Resolve.Preserved.{Preserved, Preserved-refl}
use common_system.Di.Container.Resolve.Invoke.{Keeps, resolve_as-Preserved}

erase_key-not_mem : (k : ℕ) (xs : List ℕ) → mem k xs ≡ false → erase_key k xs ≡ xs
erase_key-not_mem k [] h = refl
erase_key-not_mem k (j ∷ xs) h = ground (arith, erase_key-not_mem k xs)

-- What the guard's scope kept is kept without the type that it had pushed.
pop-Preserved :
    (k : ℕ) (c d : Container)
    → mem k c.stack ≡ false
    → Preserved (push_resolution k c) d
    → Preserved c (pop_resolution k d)
unfolding push_resolution pop_resolution
pop-Preserved k c d free p = record {
  stack_same =
      ap (erase_key k) p.stack_same ∙ ground (arith, free, erase_key-not_mem k c.stack free);
  order_same = ap (drop_back k) p.order_same ∙ ground arith;
  frozen_same = p.frozen_same;
  log_same = p.log_same;
  made_grows = p.made_grows;
  keys_same = p.keys_same;
  entries_kept = p.entries_kept;
}

module _ (type_name_of : ℕ → String) where
  pub guarded_parts :
      (k : ℕ) (o : ScopedRun type_name_of) {r : Resolved} {d : Container} {m : Scoped}
      → guarded type_name_of k o ≡ some (r, d, m)
      → (c : Container) × (o ≡ some (r, c, m)) × (d ≡ pop_resolution k c)
  unfolding guarded
  guarded_parts k none h = absurd (cc h)
  guarded_parts k (some (r, c, m)) h = (c, ground arith, ground arith)

  -- A nested resolution of the same fuel.
  abbrev pub nested : ℕ → ℕ → Container → Run type_name_of
  nested fuel j c = forget_scope type_name_of (resolve_with_detection type_name_of fuel j none c)

  forget_parts :
      (o : ScopedRun type_name_of) {r : Resolved} {d : Container}
      → forget_scope type_name_of o ≡ some (r, d)
      → (m : Scoped) × (o ≡ some (r, d, m))
  forget_parts none h = absurd (cc h)
  forget_parts (some (r, c, m)) h = (m, ground arith)

  -- A resolution, of whatever outcome, ends with the resolution stack, the registered types, what
  -- they were registered with, the instantiated singletons, the frozen flag and the audit log as
  -- they were.
  pub resolve-Preserved :
      (fuel k : ℕ) (m : Scoped) (c : Container) (r : Resolved) (d : Container) (m' : Scoped)
      → resolve_with_detection type_name_of fuel k m c ≡ some (r, d, m')
      → Preserved c d
  unfolding resolve_with_detection
  resolve-Preserved zero k m c r d m' h = absurd (cc h)
  resolve-Preserved (suc fuel) k m c r d m' h = elim (Bool-cases (mem k c.stack)) [
    | inl busy ↦ subst (Preserved c) (ground (arith, busy)) (Preserved-refl c)
    | inr free ↦ elim (Option-cases (find k c.services)) [
      | inl gone ↦ subst (Preserved c) (ground (arith, free, gone)) (Preserved-refl c)
      | inr (e, there) ↦
          let (c', run, same) =
            guarded_parts k
              (resolve_as type_name_of (nested fuel) k e.lifetime e m (push_resolution k c)) {r = r}
              {d = d} {m = m'} (ground (arith, free, there)) in
          subst (Preserved c) (sym same) (
            pop-Preserved k c c' free (
              resolve_as-Preserved type_name_of (nested fuel)
                (λ j a s b q.
                  let (n, p) = forget_parts (resolve_with_detection type_name_of fuel j none a) q in
                  resolve-Preserved fuel j none a s b n p)
                k e.lifetime e m (push_resolution k c) r c' m' run))
    ]
  ]

  pub nested-Preserved : (fuel : ℕ) → Keeps type_name_of (nested fuel)
  nested-Preserved fuel k c r d h =
      let (m, p) = forget_parts (resolve_with_detection type_name_of fuel k none c) h in
      resolve-Preserved fuel k none c r d m p
