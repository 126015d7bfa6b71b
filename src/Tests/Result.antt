-- ===== src/Tests/Result.antt =====
-- Results and error codes on concrete values.
use common_system.Prelude.{
  ℕ, ◌+◌, ◌*◌, ◌≡◌, ◌⊎◌, inl, inr, refl, true, false, pos, neg, negsuc, ◌/◌,
}
use common_system.Error.Codes.{network_system, category_base, network_system_codes}
use common_system.Error.Messages.{get_error_message, get_category_name}
use common_system.Error.Ranges.{hundred_name, declared_code-category}
use common_system.Result.Core.{ErrorInfo, plain_error, Result, ok, err, map_result, and_then}
use common_system.Result.Catch.{Exception}
use common_system.Result.Laws.{monad_laws}

unknown_code : get_error_message (negsuc 499) ≡ "Database connection failed"
unfolding get_error_message
unknown_code = refl

-- `message_too_large`.
declared_code-category_example :
    (get_category_name (negsuc 641) ≡ hundred_name (category_base network_system / 100))
    ⊎ (negsuc 641 ≡ pos 0)
unfolding network_system_codes
declared_code-category_example =
    declared_code-category network_system ("message_too_large", negsuc 641)
      (inr (inr (inr (inr (inr (inr (inr (inr (inr (inl refl))))))))))

abbrev timeout : ErrorInfo
timeout = plain_error (neg 4) "late" "net"

monad_laws_example :
    let f : ℕ → Result ℕ = λ x. ok (x * 2) in
    (and_then f (ok 4) ≡ f 4)
    × (and_then ok (err timeout) ≡ err {T = ℕ} timeout)
    × (and_then f (and_then f (err timeout)) ≡ and_then (λ x. and_then f (f x)) (err timeout))
    × (map_result (λ x. x + 1) (err timeout) ≡ and_then (λ x. ok (x + 1)) (err timeout))
monad_laws_example =
    monad_laws 4 (err timeout) (λ x. ok (x * 2)) (λ x. ok (x * 2)) (λ x. x + 1)
      (inr (timeout, refl))

-- std::out_of_range.
abbrev range_error : Exception
range_error = record {
  is_bad_alloc = false;
  is_invalid_argument = false;
  is_out_of_range = true;
  is_system_error = false;
  is_logic_error = true;
  is_runtime_error = false;
  is_exception = true;
  what = "index";
  system_code = pos 0;
  system_category = "";
}
