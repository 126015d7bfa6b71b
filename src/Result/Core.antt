-- ===== src/Result/Core.antt =====
-- core.h: struct error_info and class Result. `value_` and `error_` are two optionals, as in the
-- source. The overloads for rvalues do the same as those for lvalues.
use Prim.Native.String.{◌++◌}
use text.Mathlib.Text.{◌==◌ as str_eq}
use common_system.Prelude.{Bool, true, false, ◌&&◌, Option, none, some, String, ℤ, neg, eqb_int}

pub record ErrorInfo : Type 0 where
  pub code : ℤ
  pub message : String
  pub module_name : String
  pub details : Option String

-- The constructors of `error_info`.
abbrev pub plain_error : ℤ → String → String → ErrorInfo
plain_error c msg mod_ = record { code = c; message = msg; module_name = mod_; details = none }

abbrev pub detailed_error : ℤ → String → String → String → ErrorInfo
detailed_error c msg mod_ det = record {
  code = c;
  message = msg;
  module_name = mod_;
  details = some det;
}

eqb_details : Option String → Option String → Bool
eqb_details none none = true
eqb_details (some a) (some b) = str_eq a b
eqb_details _ _ = false

-- operator==
unfoldable pub eqb_error : ErrorInfo → ErrorInfo → Bool
unfolding eqb_details
eqb_error a b =
    eqb_int a.code b.code
    && str_eq a.message b.message
    && str_eq a.module_name b.module_name
    && eqb_details a.details b.details

pub record Result (T : Type 0) : Type 0 where
  pub value_ : Option T
  pub error_ : Option ErrorInfo

abbrev pub has_value : {T : Type 0} → Option T → Bool
has_value none = false
has_value (some _) = true

-- What a call does: it returns, or an exception leaves it.
pub data Outcome (T : Type 0) : Type 0 where
  returns : T → Outcome T
  throws_runtime_error : String → Outcome T
  throws_bad_optional_access : Outcome T

-- std::optional::value()
abbrev pub optional_value : {T : Type 0} → Option T → Outcome T
optional_value none = throws_bad_optional_access
optional_value (some v) = returns v

module _ {T : Type 0} where
  unfoldable pub ok : T → Result T
  ok v = record { value_ = some v; error_ = none }

  unfoldable pub err : ErrorInfo → Result T
  err e = record { value_ = none; error_ = some e }

  unfoldable pub uninitialized : Result T
  unfolding err
  uninitialized = err (plain_error (neg 6) "Result not initialized" "common::Result")

  unfoldable pub is_ok : Result T → Bool
  is_ok r = has_value r.value_

  unfoldable pub is_err : Result T → Bool
  is_err r = has_value r.error_

  -- Without `source_location`, which only adds the caller's place to the text.
  unfoldable pub unwrap : Result T → Outcome T
  unwrap r = elim r.error_ [
    | some e ↦ throws_runtime_error ("Called unwrap on error: " ++ e.message)
    | none ↦ optional_value r.value_
  ]

  unfoldable pub unwrap_or : T → Result T → T
  unwrap_or default r = elim r.value_ [ some v ↦ v | none ↦ default ]

  unfoldable pub value_or : T → Result T → T
  unfolding unwrap_or
  value_or default r = unwrap_or default r

  unfoldable pub value : Result T → Outcome T
  value r = optional_value r.value_

  unfoldable pub error : Result T → Outcome ErrorInfo
  error r = optional_value r.error_

  unfoldable pub or_else : (ErrorInfo → Result T) → Result T → Result T
  or_else f r = elim r.value_ [ some _ ↦ r | none ↦ elim r.error_ [ some e ↦ f e | none ↦ r ] ]

module _ {T U : Type 0} where
  unfoldable pub map_result : (T → U) → Result T → Result U
  unfolding ok err uninitialized
  map_result f r = elim r.value_ [
    | some v ↦ ok (f v)
    | none ↦ elim r.error_ [ some e ↦ err e | none ↦ uninitialized ]
  ]

  unfoldable pub and_then : (T → Result U) → Result T → Result U
  unfolding ok err uninitialized
  and_then f r = elim r.value_ [
    | some v ↦ f v
    | none ↦ elim r.error_ [ some e ↦ err e | none ↦ uninitialized ]
  ]
