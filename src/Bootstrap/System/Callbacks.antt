-- ===== src/Bootstrap/System/Callbacks.antt =====
-- What the callbacks of the bootstrapper do, up to one that throws.
use common_system.Prelude.{
  ℕ, Bool, true, false, ◌&&◌, ◌≡◌, refl, sym, ap, ◌∙◌, ◌⊎◌, inl, inr, List, [], ◌∷◌, ◌++◌,
  append_assoc, append-nil,
}
use common_system.Bootstrap.System.{World, Registries, call_back, execute_callbacks, proceed}

abbrev pub registries : World → Registries
registries w = (w.registry, w.container)

module _ (run : ℕ → Registries → Bool × Registries) where
  -- What callbacks make of the registries, one after the other.
  abbrev pub effects : List ℕ → Registries → Registries
  effects [] rs = rs
  effects (callback ∷ callbacks) rs = effects callbacks (run callback rs).1

  -- Whether all of them return.
  abbrev pub all_return : List ℕ → Registries → Bool
  all_return [] rs = true
  all_return (callback ∷ callbacks) rs =
      (run callback rs).0 && all_return callbacks (run callback rs).1

  -- The callbacks that are called, in their order, and the ones that an exception leaves out.
  abbrev pub Called : List ℕ → World → List ℕ → List ℕ → Bool × World → Type 0
  Called callbacks w called skipped out =
      (callbacks ≡ called ++ skipped)
      × (out.1.journal ≡ w.journal ++ called)
      × (registries out.1 ≡ effects called (registries w))
      × (out.0 ≡ all_return callbacks (registries w))
      × ((skipped ≡ []) ⊎ (out.0 ≡ false))

  proceed-Called :
      (callback : ℕ) (callbacks : List ℕ) (w : World) (returns : Bool) (w' : World)
      → (run callback (registries w)).0 ≡ returns
      → registries w' ≡ (run callback (registries w)).1
      → w'.journal ≡ w.journal ++ callback ∷ []
      → ((called : List ℕ) × (skipped : List ℕ) × Called callbacks w' called skipped
            (execute_callbacks run callbacks w'))
      → (called : List ℕ) × (skipped : List ℕ) × Called
          (callback ∷ callbacks)
          w
          called
          skipped
          (proceed run (execute_callbacks run callbacks) (returns, w'))
  proceed-Called callback callbacks w false w' returns made log later =
      (callback ∷ [], callbacks, (refl, log, made, rw returns refl, inr refl))
  proceed-Called callback callbacks w true w' returns made log
        (called, skipped, (parts, journal, after, answer, ends)) =
      (
        callback ∷ called,
        skipped,
        (
          ap (λ s. callback ∷ s) parts,
          journal ∙ ap (λ s. s ++ called) log ∙ append_assoc w.journal (callback ∷ []) called,
          after ∙ ap (effects called) made,
          answer ∙ ap (all_return callbacks) made ∙ rw returns refl,
          ends,
        ),
      )

  pub execute-Called :
      (callbacks : List ℕ) (w : World)
      → (called : List ℕ) × (skipped : List ℕ) × Called callbacks w called skipped
          (execute_callbacks run callbacks w)
  unfolding execute_callbacks call_back
  execute-Called [] w = ([], [], (refl, sym (append-nil w.journal), refl, refl, inl refl))
  execute-Called (callback ∷ callbacks) w =
      let out = call_back run callback w in
      proceed-Called callback callbacks w out.0 out.1 refl refl refl
        (execute-Called callbacks out.1)
