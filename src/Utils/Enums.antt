-- ===== src/Utils/Enums.antt =====
-- enum_serialization.h: enumerations to text and back. The template's parameter is an instance; a
-- text is compared by its codes, and `std::toupper` is that of the C locale.
pub mod Tables
pub mod Exact
use Prim.Native.Char.{code}
use Prim.Native.String.{String, ◌++◌ as concat}
use common_system.Prelude.{
  ℕ, ◌-◌, Bool, true, false, ◌&&◌, ◌≡◌, ◌↔◌, Option, none, some, List, [], ◌∷◌, pos, leb, ◌==◌,
  if◌then◌else◌, map,
}
use common_system.Result.Core.{Result, ok, err, plain_error}

abbrev pub codes : String → List ℕ
codes String.[] = []
codes (String.◌∷◌ c s) = code c ∷ codes s

abbrev pub toupper : ℕ → ℕ
toupper c = if leb b'a' c && leb c b'z' then c - 32 else c

abbrev pub upper : String → List ℕ
upper s = map toupper (codes s)

abbrev pub eqb_codes : List ℕ → List ℕ → Bool
eqb_codes [] [] = true
eqb_codes (a ∷ s) (b ∷ t) = (a == b) && eqb_codes s t
eqb_codes _ _ = false

pub record EnumTraits (E : Type 0) : Type 0 where
  pub values : List (E × String)
  pub module_name : String
  pub eqb : E → E → Bool

module _ {E : Type 0} where
  unfoldable pub find_name : (E → E → Bool) → E → List (E × String) → String
  find_name eqb value [] = "UNKNOWN"
  find_name eqb value (entry ∷ rest) =
      if eqb entry.0 value then entry.1 else find_name eqb value rest

  unfoldable pub find_value : List ℕ → List (E × String) → Option E
  find_value text [] = none
  find_value text (entry ∷ rest) =
      if eqb_codes (codes entry.1) text then some entry.0 else find_value text rest

module _ {E : Type 0} ⦃e : EnumTraits E⦄ where
  unfoldable pub enum_to_string : E → String
  unfolding find_name
  enum_to_string value = find_name e.eqb value e.values

  abbrev parsed : String → Option E → Result E
  parsed str none = err (plain_error (pos 1) (concat "Invalid enum value: " str) e.module_name)
  parsed str (some value) = ok value

  unfoldable pub enum_from_string : String → Result E
  unfolding find_value
  enum_from_string str = parsed str (find_value (upper str) e.values)
