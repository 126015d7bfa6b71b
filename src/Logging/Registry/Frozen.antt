-- ===== src/Logging/Registry/Frozen.antt =====
-- What a frozen registry still does.
use common_system.Prelude.{
  ℕ, ◌+◌, true, ◌≡◌, refl, sym, ap, ◌∙◌, Option, none, some, List, [], ◌∷◌, String, arith,
  Option-cases, inl, inr,
}
use common_system.Prelude.Maps.{at, at-put}
use common_system.Logging.Registry.{
  Logger, LoggerFactory, LoggerRegistry, register_logger, unregister_logger, register_factory,
  set_default_logger, set_default_factory,
}
use common_system.Logging.Registry.Lookup.{
  logger, create_from_factory, get_logger, create_default_from_factory, get_default_logger, clear,
  freeze, keep_logger, or_null,
}

-- Any method that can change the registry.
pub data Call : Type 0 where
  registers : ℕ → Option Logger → Call
  registers_factory : ℕ → Option LoggerFactory → Call
  unregisters : ℕ → Call
  sets_default : Option Logger → Call
  sets_default_factory : Option LoggerFactory → Call
  gets : ℕ → Call
  gets_default : Call
  clears : Call
  freezes : Call

unfoldable pub call : (ℕ → String) → Call → LoggerRegistry → LoggerRegistry
call text (registers name l) r = (register_logger text name l r).1
call text (registers_factory name f) r = (register_factory text name f r).1
call text (unregisters name) r = (unregister_logger text name r).1
call text (sets_default l) r = (set_default_logger l r).1
call text (sets_default_factory f) r = (set_default_factory f r).1
call text (gets name) r = (get_logger name r).1
call text gets_default r = (get_default_logger r).1
call text clears r = clear r
call text freezes r = freeze r

unfoldable pub run_calls : (ℕ → String) → List Call → LoggerRegistry → LoggerRegistry
run_calls text [] r = r
run_calls text (c ∷ calls) r = run_calls text calls (call text c r)

-- What a frozen registry holds on to: a logger once it is there.
record Holds (r r' : LoggerRegistry) : Type 0 where
  frozen : r'.frozen ≡ true
  logged : (k : ℕ) (l : Logger) → at k r.loggers ≡ some l → at k r'.loggers ≡ some l
  default : (l : Logger) → r.default_logger ≡ some l → r'.default_logger ≡ some l

Holds-same :
    (r r' : LoggerRegistry)
    → r'.frozen ≡ true
    → r'.loggers ≡ r.loggers
    → r'.default_logger ≡ r.default_logger
    → Holds r r'
Holds-same r r' f ls d = record { frozen = f; logged = λ k l e. rw ls e; default = λ l e. d ∙ e }

keep_logger-Holds :
    (name : ℕ) (made : Option Logger) (r : LoggerRegistry)
    → r.frozen ≡ true
    → at name r.loggers ≡ none
    → Holds r (keep_logger name made (record r { calls = r.calls + 1 })).1
keep_logger-Holds name none r f unknown =
    Holds-same r (record r { calls = r.calls + 1 }) f refl refl
keep_logger-Holds name (some l) r f unknown = record {
  frozen = f;
  logged = λ k q e. ground (arith, e, unknown, at-put name k l r.loggers);
  default = λ q e. e;
}

create-Holds :
    (name : ℕ) (r : LoggerRegistry)
    → r.frozen ≡ true
    → at name r.loggers ≡ none
    → Holds r (create_from_factory name r).1
unfolding create_from_factory
create-Holds name r f unknown = elim (Option-cases (at name r.factories)) [
  | inl without ↦ rw (unknown, create_from_factory) (rw without (Holds-same r r f refl refl))
  | inr (make, there) ↦
      rw (unknown, create_from_factory)
        (rw there (keep_logger-Holds name (make r.calls) r f unknown))
]

or_null_state : (p : Option Logger × LoggerRegistry) → (or_null p).1 ≡ p.1
or_null_state (none, r) = refl
or_null_state (some l, r) = refl

get_logger-Holds : (name : ℕ) (r : LoggerRegistry) → r.frozen ≡ true → Holds r (get_logger name r).1
unfolding get_logger
get_logger-Holds name r f = elim (Option-cases (at name r.loggers)) [
  | inr (l, known) ↦ rw (known, get_logger) (Holds-same r r f refl refl)
  | inl unknown ↦
      rw (unknown, get_logger)
        (rw (or_null_state (create_from_factory name r)) (create-Holds name r f unknown))
]

get_default-loggers :
    (r : LoggerRegistry)
    → ((get_default_logger r).1.loggers ≡ r.loggers) × ((get_default_logger r).1.frozen ≡ r.frozen)
unfolding get_default_logger create_default_from_factory
get_default-loggers r = ground arith

get_default-Holds : (r : LoggerRegistry) → r.frozen ≡ true → Holds r (get_default_logger r).1
unfolding get_default_logger
get_default-Holds r f = record {
  frozen = (get_default-loggers r).1 ∙ f;
  logged = λ k l e. rw (get_default-loggers r).0 e;
  default = λ l e. ground (arith, e);
}

call-Holds :
    (text : ℕ → String) (c : Call) (r : LoggerRegistry) → r.frozen ≡ true → Holds r (call text c r)
unfolding call register_logger register_factory unregister_logger set_default_logger
    set_default_factory clear freeze
call-Holds text (registers name l) r f =
    Holds-same r (call text (registers name l) r) (ground arith) (ground arith) (ground arith)
call-Holds text (registers_factory name g) r f =
    Holds-same r (call text (registers_factory name g) r) (ground arith) (ground arith)
      (ground arith)
call-Holds text (unregisters name) r f =
    Holds-same r (call text (unregisters name) r) (ground arith) (ground arith) (ground arith)
call-Holds text (sets_default l) r f =
    Holds-same r (call text (sets_default l) r) (ground arith) (ground arith) (ground arith)
call-Holds text (sets_default_factory g) r f =
    Holds-same r (call text (sets_default_factory g) r) (ground arith) (ground arith) (ground arith)
call-Holds text (gets name) r f = get_logger-Holds name r f
call-Holds text gets_default r f = get_default-Holds r f
call-Holds text clears r f =
    Holds-same r (call text clears r) (ground arith) (ground arith) (ground arith)
call-Holds text freezes r f = Holds-same r (freeze r) refl refl refl

run_calls-Holds :
    (text : ℕ → String) (calls : List Call) (r : LoggerRegistry)
    → r.frozen ≡ true
    → Holds r (run_calls text calls r)
unfolding run_calls
run_calls-Holds text [] r f = Holds-same r r f refl refl
run_calls-Holds text (c ∷ calls) r f =
    let h = call-Holds text c r f in
    let rest = run_calls-Holds text calls (call text c r) h.frozen in
    record {
      frozen = rest.frozen;
      logged = λ k l e. rest.logged k l (h.logged k l e);
      default = λ l e. rest.default l (h.default l e);
    }

keep_logger_kept :
    (name : ℕ) (made : Option Logger) (r : LoggerRegistry) (l : Logger)
    → (or_null (keep_logger name made r)).0 ≡ logger l
    → at name (keep_logger name made r).1.loggers ≡ some l
keep_logger_kept name none r l e = cc e
keep_logger_kept name (some q) r l e = ground (arith, e, at-put name name q r.loggers)

created :
    (name : ℕ) (make : LoggerFactory) (r : LoggerRegistry)
    → at name r.loggers ≡ none
    → at name r.factories ≡ some make
    → create_from_factory name r
      ≡ keep_logger name (make r.calls) (record r { calls = r.calls + 1 })
unfolding create_from_factory
created name make r unknown there = rw (unknown, create_from_factory) (rw there refl)

missing :
    (name : ℕ) (r : LoggerRegistry)
    → at name r.loggers ≡ none
    → get_logger name r ≡ or_null (create_from_factory name r)
unfolding get_logger
missing name r unknown = rw (unknown, get_logger) refl

-- A logger that is answered is in the map.
get_logger_kept :
    (name : ℕ) (r : LoggerRegistry) (l : Logger)
    → (get_logger name r).0 ≡ logger l
    → at name (get_logger name r).1.loggers ≡ some l
unfolding get_logger
get_logger_kept name r l e = elim (Option-cases (at name r.loggers)) [
  | inr (q, known) ↦ ground (arith, e, known)
  | inl unknown ↦ elim (Option-cases (at name r.factories)) [
    | inl without ↦ absurd (ground (arith, e, unknown, without))
    | inr (make, there) ↦
        let same = created name make r unknown there in
        rw (unknown, get_logger)
          (rw (or_null_state (create_from_factory name r)) (
            rw same (
              keep_logger_kept name (make r.calls) (record r { calls = r.calls + 1 }) l
                (sym (ap (λ p. p.0) (missing name r unknown ∙ ap or_null same)) ∙ e))))
  ]
]

get_logger_known :
    (name : ℕ) (r : LoggerRegistry) (l : Logger)
    → at name r.loggers ≡ some l
    → (get_logger name r).0 ≡ logger l
unfolding get_logger
get_logger_known name r l known = ground (arith, known)

-- Once a frozen registry has answered a logger for a name, be it one that a factory makes in that
-- call, it answers this logger for the name after any sequence of calls of its methods.
pub frozen_logger_stable :
    (text : ℕ → String) (name : ℕ) (l : Logger) (calls : List Call) (r : LoggerRegistry)
    → r.frozen ≡ true
    → (get_logger name r).0 ≡ logger l
    → (get_logger name (run_calls text calls (get_logger name r).1)).0 ≡ logger l
frozen_logger_stable text name l calls r f answered =
    let got = get_logger-Holds name r f in
    let later = run_calls-Holds text calls (get_logger name r).1 got.frozen in
    get_logger_known name (run_calls text calls (get_logger name r).1) l
      (later.logged name l (get_logger_kept name r l answered))
