-- ===== src/Di/Container/Resolve/Preserved.antt =====
-- What a resolution leaves as it was: all but the instances of singletons that it makes.
use common_system.Prelude.{
  ℕ, ◌+◌, ◌≤◌, ◌≡◌, refl, subst, ap, ◌∙◌, inl, inr, true, Bool-cases, Option, none, some, List, [],
  ◌∷◌, arith, ◌==◌,
}
use common_system.Di.Container.Registry.{ServiceEntry, Services, Container, find}
use common_system.Di.Container.Resolve.{update}

abbrev pub keys : Services → List ℕ
keys [] = []
keys ((j, e) ∷ m) = j ∷ keys m

-- An entry keeps what it was registered with, and all of it once it is instantiated.
abbrev pub EntryKept : Option ServiceEntry → Option ServiceEntry → Type 0
EntryKept none none = Unit
EntryKept (some e) (some d) =
    (d.factory ≡ e.factory)
    × (d.lifetime ≡ e.lifetime)
    × (d.type_name ≡ e.type_name)
    × (e.is_instantiated ≡ true → d ≡ e)
EntryKept _ _ = ⊥

pub record Preserved (c d : Container) : Type 0 where
  pub stack_same : d.stack ≡ c.stack
  pub order_same : d.order ≡ c.order
  pub frozen_same : d.frozen ≡ c.frozen
  pub log_same : d.log ≡ c.log
  pub made_grows : c.made ≤ d.made
  pub keys_same : keys d.services ≡ keys c.services
  pub entries_kept : (k : ℕ) → EntryKept (find k c.services) (find k d.services)

EntryKept-refl : (o : Option ServiceEntry) → EntryKept o o
EntryKept-refl none = tt
EntryKept-refl (some e) = (refl, refl, refl, λ _. refl)

EntryKept-trans : (a b c : Option ServiceEntry) → EntryKept a b → EntryKept b c → EntryKept a c
EntryKept-trans none none none h k = tt
EntryKept-trans none none (some z) h k = k
EntryKept-trans none (some y) c h k = absurd h
EntryKept-trans (some x) none c h k = absurd h
EntryKept-trans (some x) (some y) none h k = k
EntryKept-trans (some x) (some y) (some z) h k = (
  k.0 ∙ h.0,
  k.1 ∙ h.1,
  k.2 ∙ h.2,
  λ i. k.3 (ap (λ (e : ServiceEntry). e.is_instantiated) (h.3 i) ∙ i) ∙ h.3 i,
)

pub Preserved-refl : (c : Container) → Preserved c c
Preserved-refl c = record {
  stack_same = refl;
  order_same = refl;
  frozen_same = refl;
  log_same = refl;
  made_grows = omega arith;
  keys_same = refl;
  entries_kept = λ k. EntryKept-refl (find k c.services);
}

pub Preserved-trans : {a b c : Container} → Preserved a b → Preserved b c → Preserved a c
Preserved-trans {a} {b} {c} h k = record {
  stack_same = k.stack_same ∙ h.stack_same;
  order_same = k.order_same ∙ h.order_same;
  frozen_same = k.frozen_same ∙ h.frozen_same;
  log_same = k.log_same ∙ h.log_same;
  made_grows = omega (arith, h.made_grows, k.made_grows);
  keys_same = k.keys_same ∙ h.keys_same;
  entries_kept = λ j.
      EntryKept-trans (find j a.services) (find j b.services) (find j c.services) (h.entries_kept j)
        (k.entries_kept j);
}

keys-update : (k : ℕ) (e : ServiceEntry) (m : Services) → keys (update k e m) ≡ keys m
keys-update k e [] = refl
keys-update k e ((j, d) ∷ m) = ground (arith, keys-update k e m)

-- Setting the instance of an entry that has none keeps every entry.
find-update_kept :
    (k j : ℕ) (e d : ServiceEntry) (m : Services)
    → find k m ≡ some e
    → EntryKept (some e) (some d)
    → EntryKept (find j m) (find j (update k d m))
unfolding find
find-update_kept k j e d [] h kept = cc
find-update_kept k j e d ((i, x) ∷ m) h kept = elim (Bool-cases (i == k)) [
  | inl here ↦
      let same : e ≡ x = cc (rw here at h) in
      elim (Bool-cases (i == j)) [
        | inl this ↦ rw (here, this) (subst (λ y. EntryKept (some y) (some d)) same kept)
        | inr other ↦ rw (here, other) (EntryKept-refl (find j m))
      ]
  | inr there ↦ elim (Bool-cases (i == j)) [
    | inl this ↦ rw (there, this) (EntryKept-refl (some x))
    | inr other ↦ rw (there, other) (find-update_kept k j e d m (rw there at h) kept)
  ]
]

-- Constructing an object.
pub made-Preserved : (c : Container) → Preserved c (record c { made = c.made + 1 })
made-Preserved c = record {
  stack_same = refl;
  order_same = refl;
  frozen_same = refl;
  log_same = refl;
  made_grows = omega arith;
  keys_same = refl;
  entries_kept = λ k. EntryKept-refl (find k c.services);
}

pub update-Preserved :
    (k : ℕ) (e d : ServiceEntry) (c : Container)
    → find k c.services ≡ some e
    → EntryKept (some e) (some d)
    → Preserved c (record c { services = update k d c.services })
update-Preserved k e d c there kept = record {
  stack_same = refl;
  order_same = refl;
  frozen_same = refl;
  log_same = refl;
  made_grows = omega arith;
  keys_same = keys-update k d c.services;
  entries_kept = λ j. find-update_kept k j e d c.services there kept;
}
