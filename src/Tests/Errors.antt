-- ===== src/Tests/Errors.antt =====
-- Errors of the pipeline, their codes and data, and the revert of a paymaster.
use ethera_bundler.Base.{◌≡◌, refl, ◌⊎◌, [], ◌∷◌, length}
use ethera_bundler.Errors.{failed_op, unknown}
use ethera_bundler.Errors.Decode.{decode_handle_ops_revert}
use ethera_bundler.Errors.Decode.RoundTrip.{
  Revert, reason_of, selector_of, IsSelectors, Known, decode_handle_ops_revert-reason_of,
  decode_handle_ops_revert_cases,
}
use ethera_bundler.Tests.Data.{format, abi}

abi-IsSelectors : IsSelectors abi
abi-IsSelectors = record {
  len = length_4;
  distinct_1 = (refl, refl, refl, refl, refl);
  distinct_2 = (refl, refl, refl, refl);
  distinct_3 = (refl, refl, refl);
  distinct_4 = (refl, refl);
}
  where
    length_4 : (r : Revert) → length (selector_of r) ≡ 4
    length_4 (Revert.failed_op i reason) = refl
    length_4 _ = refl

decode_handle_ops_revert-reason_of_example :
    decode_handle_ops_revert (0x22 ∷ 0x02 ∷ 0x66 ∷ 0xb6 ∷ 3 ∷ []) ≡ failed_op 3 "AA31"
decode_handle_ops_revert-reason_of_example =
    decode_handle_ops_revert-reason_of abi-IsSelectors (Revert.failed_op 3 "AA31") (3 ∷ []) refl

decode_handle_ops_revert_cases_example :
    (decode_handle_ops_revert (1 ∷ 2 ∷ []) ≡ unknown (1 ∷ 2 ∷ []))
    ⊎ ((k : Known (1 ∷ 2 ∷ []) []) × (decode_handle_ops_revert (1 ∷ 2 ∷ []) ≡ reason_of k.0))
decode_handle_ops_revert_cases_example = decode_handle_ops_revert_cases (1 ∷ 2 ∷ [])
