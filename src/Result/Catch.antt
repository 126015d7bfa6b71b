-- ===== src/Result/Catch.antt =====
-- utilities.h: make_error, exception_mapper, try_catch and try_catch_void.
use Prim.Native.String.{◌++◌}
use common_system.Prelude.{Bool, String, ℤ, neg, if◌then◌else◌}
use common_system.Result.Core.{ErrorInfo, plain_error, detailed_error, Result, ok, err}

-- An exception as the handlers see it: which of the classes that they name its type is or derives
-- from. The class hierarchy itself is the standard library's.
pub record Exception : Type 0 where
  pub is_bad_alloc : Bool
  pub is_invalid_argument : Bool
  pub is_out_of_range : Bool
  pub is_system_error : Bool
  pub is_logic_error : Bool
  pub is_runtime_error : Bool
  pub is_exception : Bool
  pub what : String
  pub system_code : ℤ
  pub system_category : String

-- What the guarded function does.
pub data Attempt (T : Type 0) : Type 0 where
  returned : T → Attempt T
  threw : Exception → Attempt T

unfoldable pub make_error : {T : Type 0} → ℤ → String → String → Result T
unfolding err
make_error code message module_name = err (plain_error code message module_name)

-- error_codes::INTERNAL_ERROR, OUT_OF_MEMORY, INVALID_ARGUMENT.
abbrev pub internal_error : ℤ
internal_error = neg 99

abbrev pub out_of_memory : ℤ
out_of_memory = neg 8

abbrev pub invalid_argument : ℤ
invalid_argument = neg 1

unfoldable pub map_unknown_exception : String → ErrorInfo
map_unknown_exception module_name =
    detailed_error internal_error "Unknown exception caught" module_name
      "Non-standard exception (not derived from std::exception)"

unfoldable pub map_generic_exception : Exception → String → ErrorInfo
map_generic_exception e module_name =
    detailed_error internal_error e.what module_name "std::exception"

-- The handlers, in the order in which they are tried.
unfoldable pub handle : String → Exception → ErrorInfo
unfolding map_generic_exception map_unknown_exception
handle module_name e =
    if e.is_bad_alloc
    then detailed_error out_of_memory e.what module_name "std::bad_alloc"
    else if e.is_invalid_argument
    then detailed_error invalid_argument e.what module_name "std::invalid_argument"
    else if e.is_out_of_range
    then detailed_error invalid_argument e.what module_name "std::out_of_range"
    else if e.is_system_error
    then detailed_error e.system_code e.what module_name
        ("std::system_error: " ++ e.system_category)
    else if e.is_logic_error
    then detailed_error internal_error e.what module_name "std::logic_error"
    else if e.is_runtime_error
    then detailed_error internal_error e.what module_name "std::runtime_error"
    else if e.is_exception
    then map_generic_exception e module_name
    else map_unknown_exception module_name

unfoldable pub try_catch : {T : Type 0} → Attempt T → String → Result T
unfolding ok err handle
try_catch (returned v) module_name = ok v
try_catch (threw e) module_name = err (handle module_name e)

-- The same handlers around a function without a value.
unfoldable pub try_catch_void : Attempt (Unit {0}) → String → Result (Unit {0})
unfolding ok err handle
try_catch_void (returned v) module_name = ok tt
try_catch_void (threw e) module_name = err (handle module_name e)
