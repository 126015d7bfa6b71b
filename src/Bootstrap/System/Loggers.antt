-- ===== src/Bootstrap/System/Loggers.antt =====
-- What the registration of the loggers leaves.
use common_system.Prelude.{
  ℕ, ◌+◌, Bool, true, false, ◌≡◌, refl, subst, sym, inl, inr, Option, none, some, List, [], ◌∷◌,
  String, ◌==◌, Bool-cases, if◌then◌else◌,
}
use common_system.Prelude.Maps.{Map, put, drop}
use common_system.Bootstrap.System.{
  SystemBootstrapper, register_loggers, register_named, enter, enter_default, called,
}
use common_system.Logging.Registry.{
  audit, Logger, LoggerFactory, LoggerRegistry, Done, register_logger, set_default_logger,
}
use common_system.Logging.Registry.Lookup
use common_system.Logging.Audit.{register_logger as act_register, set_default_logger as act_default}
use common_system.Result.Core.{is_err, ok, err}

-- The loggers by name, and the default one.
abbrev pub Loggers : Type 0
Loggers = Map Logger × Option Logger

-- What the factories that are there answer, in their order, where the first call is number `calls`.
abbrev pub planned : Map (Option LoggerFactory) → ℕ → List (ℕ × Option Logger)
planned [] calls = []
planned ((name, none) ∷ rest) calls = planned rest calls
planned ((name, some factory) ∷ rest) calls = (name, factory calls) ∷ planned rest (calls + 1)

-- Whether one of the answers cannot be registered, and what is there then, or when the first one cannot be: all
-- that was, where the answer is null or the registry frozen, and nothing where the name is empty.
abbrev pub expect : Bool → List (ℕ × Option Logger) → Loggers → Bool × Loggers
expect frozen [] loggers = (false, loggers)
expect frozen ((name, none) ∷ plan) loggers = (true, loggers)
expect true ((name, some l) ∷ plan) loggers = (true, loggers)
expect false ((name, some l) ∷ plan) loggers =
    if name == 0 then (true, ([], none)) else expect false plan (put name l loggers.0, loggers.1)

-- The same from the default logger's answer on, where there is a factory for it.
abbrev pub expect_all : SystemBootstrapper → LoggerRegistry → Bool × Loggers
expect_all b r = elim b.default_logger_factory [
  | none ↦ expect r.frozen (planned b.named_logger_factories r.calls) (r.loggers, r.default_logger)
  | some factory ↦ elim (factory r.calls) [
    | none ↦ (true, (r.loggers, r.default_logger))
    | some l ↦
        if r.frozen
        then (true, (r.loggers, r.default_logger))
        else expect false (planned b.named_logger_factories (r.calls + 1)) (r.loggers, some l)
  ]
]

-- A registry as expected.
abbrev pub Leaves : Bool × Loggers → Done → Type 0
Leaves expected done =
    (is_err done.0 ≡ expected.0)
    × (done.1.loggers ≡ expected.1.0)
    × (done.1.default_logger ≡ expected.1.1)

module _ (text : ℕ → String) where
  -- The methods of a registry do as expected with a plan, from a given number of calls on.
  abbrev Follows : (LoggerRegistry → Done) → List (ℕ × Option Logger) → ℕ → Type 0
  Follows next plan calls =
      (q : LoggerRegistry)
      → q.frozen ≡ false
      → q.calls ≡ calls
      → Leaves (expect false plan (q.loggers, q.default_logger)) (next q)

  open-Leaves :
      (name : ℕ) (l : Logger) (next : LoggerRegistry → Done) (plan : List (ℕ × Option Logger))
      (r : LoggerRegistry)
      → Follows next plan r.calls
      → Leaves
          (expect false ((name, some l) ∷ plan) (r.loggers, r.default_logger))
          (enter text name next (some l) (record r { frozen = false }))
  unfolding register_logger Lookup.clear is_err ok err
  open-Leaves name l next plan r follows = elim (Bool-cases (name == 0)) [
    | inl blank ↦ simp blank (refl, refl, refl)
    | inr named ↦
        let entered : LoggerRegistry = audit act_register (text name) true "" (record r {
          loggers = put name l r.loggers;
          factories = drop name r.factories;
          frozen = false;
        }) in
        simp named (follows entered refl refl)
  ]

  enter-Leaves :
      (name : ℕ) (answer : Option Logger) (next : LoggerRegistry → Done)
      (plan : List (ℕ × Option Logger)) (frozen : Bool) (r : LoggerRegistry)
      → Follows next plan r.calls
      → Leaves
          (expect frozen ((name, answer) ∷ plan) (r.loggers, r.default_logger))
          (enter text name next answer (record r { frozen = frozen }))
  unfolding register_logger Lookup.clear is_err ok err
  enter-Leaves name none next plan frozen r follows = (refl, refl, refl)
  enter-Leaves name (some l) next plan true r follows = (refl, refl, refl)
  enter-Leaves name (some l) next plan false r follows = open-Leaves name l next plan r follows

  named-Leaves :
      (factories : Map (Option LoggerFactory)) (r : LoggerRegistry) (frozen : Bool)
      → r.frozen ≡ frozen
      → Leaves
          (expect frozen (planned factories r.calls) (r.loggers, r.default_logger))
          (register_named text factories r)
  unfolding register_named is_err ok
  named-Leaves [] r frozen f = (refl, refl, refl)
  named-Leaves ((name, none) ∷ rest) r frozen f = named-Leaves rest r frozen f
  named-Leaves ((name, some factory) ∷ rest) r frozen f =
      subst
        (λ z.
          Leaves
            (expect frozen (planned ((name, some factory) ∷ rest) r.calls)
              (r.loggers, r.default_logger))
            (enter text name (register_named text rest) (factory r.calls)
              (record (called r) { frozen = z })))
        (sym f)
        (enter-Leaves name (factory r.calls) (register_named text rest) (planned rest (r.calls + 1))
          frozen (called r)
          (λ q open_ calls.
            subst
              (λ n.
                Leaves (expect false (planned rest n) (q.loggers, q.default_logger))
                  (register_named text rest q))
              calls (named-Leaves rest q false open_)))

  default-Leaves :
      (b : SystemBootstrapper) (answer : Option Logger) (frozen : Bool) (r : LoggerRegistry)
      → Leaves
          (elim answer [
            | none ↦ (true, (r.loggers, r.default_logger))
            | some l ↦
                if frozen
                then (true, (r.loggers, r.default_logger))
                else expect false (planned b.named_logger_factories r.calls) (r.loggers, some l)
          ])
          (enter_default text
            (register_named text b.named_logger_factories)
            answer
            (record r { frozen = frozen }))
  unfolding set_default_logger is_err ok err
  default-Leaves b none frozen r = (refl, refl, refl)
  default-Leaves b (some l) true r = (refl, refl, refl)
  default-Leaves b (some l) false r =
      let entered : LoggerRegistry =
        audit act_default "default" true ""
          (record r { default_logger = some l; default_factory = none; frozen = false }) in
      named-Leaves b.named_logger_factories entered false refl

  with-Leaves :
      (default_factory : Option LoggerFactory) (b : SystemBootstrapper) (r : LoggerRegistry)
      → Leaves
          (expect_all (record b { default_logger_factory = default_factory }) r)
          (register_loggers text (record b { default_logger_factory = default_factory }) r)
  unfolding register_loggers
  with-Leaves none b r = named-Leaves b.named_logger_factories r r.frozen refl
  with-Leaves (some factory) b r = default-Leaves b (factory r.calls) r.frozen (called r)

  -- The registration of the loggers is as expected.
  pub register-Leaves :
      (b : SystemBootstrapper) (r : LoggerRegistry)
      → Leaves (expect_all b r) (register_loggers text b r)
  register-Leaves b r = with-Leaves b.default_logger_factory b r
