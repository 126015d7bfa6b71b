-- ===== src/Result/Laws.antt =====
-- A result holds a value or an error, never both or neither, and chains as a monad.
use Prim.Native.String.{◌++◌}
use common_system.Prelude.{
  ◌≡◌, refl, ◌⊎◌, inl, inr, true, false, Option, none, some, String, arith, if◌then◌else◌,
}
use common_system.Result.Core.{
  ErrorInfo, detailed_error, Result, returns, throws_runtime_error, throws_bad_optional_access, ok,
  err, is_ok, is_err, unwrap, unwrap_or, value_or, value, error, or_else, map_result, and_then,
}
use common_system.Result.Catch.{Exception, internal_error, out_of_memory, invalid_argument, handle}

-- Exactly one of `value_` and `error_` is set: the result was made by one of the factories.
abbrev pub IsWhole : {T : Type 0} → Result T → Type 0
IsWhole {T} r = ((v : T) × (r ≡ ok v)) ⊎ ((e : ErrorInfo) × (r ≡ err e))

module _ {T : Type 0} where
  -- Every accessor of a whole result tells the same story: with a value, `is_ok` alone holds, all
  -- readers return the value, and `error` throws; with an error, `is_err` alone holds, `unwrap`
  -- throws its message, `value` throws, and the readers with a default return that.
  whole_access :
      (r : Result T) (d : T)
      → IsWhole r
      → ((is_ok r ≡ true)
          × (is_err r ≡ false)
          × ((v : T) × (unwrap r ≡ returns v)
              × (value r ≡ returns v)
              × (unwrap_or d r ≡ v)
              × (value_or d r ≡ v))
          × (error r ≡ throws_bad_optional_access))
        ⊎ ((is_ok r ≡ false)
            × (is_err r ≡ true)
            × ((e : ErrorInfo) × (error r ≡ returns e)
                × (unwrap r ≡ throws_runtime_error ("Called unwrap on error: " ++ e.message)))
            × (value r ≡ throws_bad_optional_access)
            × (unwrap_or d r ≡ d)
            × (value_or d r ≡ d))
  unfolding ok err is_ok is_err unwrap unwrap_or value_or value error
  whole_access r d (inl (v, p)) = inl (rw p, rw p, (v, rw p, rw p, rw p, rw p), rw p)
  whole_access r d (inr (e, p)) = inr (rw p, rw p, (e, rw p, rw p), rw p, rw p, rw p)

  -- `or_else` runs its function only on an error, and gives a whole result if the function does.
  pub or_else-IsWhole :
      (f : ErrorInfo → Result T) (r : Result T)
      → IsWhole r
      → ((e : ErrorInfo) → IsWhole (f e))
      → IsWhole (or_else f r)
  unfolding or_else ok err
  or_else-IsWhole f r (inl (v, p)) w = rw p (inl (v, refl))
  or_else-IsWhole f r (inr (e, p)) w = rw p (w e)

module _ {T U : Type 0} (f : T → U) (g : T → Result U) (w : (v : T) → IsWhole (g v)) where
  chain_parts :
      (value_ : Option T) (error_ : Option ErrorInfo)
      → let r : Result T = record { value_ = value_; error_ = error_ } in
        IsWhole (map_result f r) × IsWhole (and_then g r)
  unfolding map_result and_then
  chain_parts (some v) e = (inl (f v, refl), w v)
  chain_parts none (some e) = (inr (e, refl), inr (e, refl))
  chain_parts none none = (inr (_, refl), inr (_, refl))

-- `map`, and `and_then` with a function whose results are whole, make a whole result of any result,
-- also of one that holds neither a value nor an error.
chain-IsWhole :
    {T U : Type 0} (f : T → U) (g : T → Result U) (r : Result T)
    → ((v : T) → IsWhole (g v))
    → IsWhole (map_result f r) × IsWhole (and_then g r)
chain-IsWhole f g r w = chain_parts f g w r.value_ r.error_

-- The laws of a monad on whole results, with `and_then` for bind and `ok` for unit, and `map` as
-- `and_then` with a function that cannot fail.
pub monad_laws :
    {S T U : Type 0} (v : S) (r : Result S) (f : S → Result T) (g : T → Result U) (h : S → T)
    → IsWhole r
    → (and_then f (ok v) ≡ f v)
      × (and_then ok r ≡ r)
      × (and_then g (and_then f r) ≡ and_then (λ x. and_then g (f x)) r)
      × (map_result h r ≡ and_then (λ x. ok (h x)) r)
unfolding and_then map_result ok err
monad_laws v r f g h (inl (x, p)) = (refl, rw p, rw p, rw p)
monad_laws v r f g h (inr (e, p)) = (refl, rw p, rw p, rw p)

-- What the standard's class hierarchy says of an exception: the classes below `logic_error` and
-- `runtime_error`, and that these two and `bad_alloc` exclude one another.
pub record IsStandard (e : Exception) : Type 0 where
  pub invalid_below : e.is_invalid_argument ≡ true → e.is_logic_error ≡ true
  pub range_below : e.is_out_of_range ≡ true → e.is_logic_error ≡ true
  pub system_below : e.is_system_error ≡ true → e.is_runtime_error ≡ true
  pub logic_or_runtime : e.is_logic_error ≡ true → e.is_runtime_error ≡ false
  pub alloc_apart :
      e.is_bad_alloc ≡ true → (e.is_logic_error ≡ false) × (e.is_runtime_error ≡ false)

-- The classification from the base classes down to the most derived one.
abbrev pub most_derived : String → Exception → ErrorInfo
most_derived m e =
    if e.is_logic_error
    then (if e.is_invalid_argument
        then detailed_error invalid_argument e.what m "std::invalid_argument"
        else if e.is_out_of_range
        then detailed_error invalid_argument e.what m "std::out_of_range"
        else detailed_error internal_error e.what m "std::logic_error")
    else if e.is_runtime_error
    then (if e.is_system_error
        then detailed_error e.system_code e.what m ("std::system_error: " ++ e.system_category)
        else detailed_error internal_error e.what m "std::runtime_error")
    else if e.is_bad_alloc
    then detailed_error out_of_memory e.what m "std::bad_alloc"
    else if e.is_exception
    then detailed_error internal_error e.what m "std::exception"
    else detailed_error internal_error "Unknown exception caught" m
        "Non-standard exception (not derived from std::exception)"

-- The order of the handlers loses nothing: an exception of a standard class is reported as the most
-- derived class that a handler names.
handle-most_derived : (m : String) (e : Exception) → IsStandard e → handle m e ≡ most_derived m e
unfolding handle
handle-most_derived m e s = ground arith
