-- ===== src/Tests/Packing.antt =====
-- Packing the operation, and parsing its blob.
use ethera_bundler.Base.{◌≡◌, refl, some, ok, err, replicate, arith}
use ethera_bundler.Packing.{overflow, pack, parse_paymaster_and_data}
use ethera_bundler.Packing.Words.{unpack_uints}
use ethera_bundler.Packing.Blob.{Parsed, parse_paymaster_and_data-Parsed}
use ethera_bundler.Packing.Fields.{pack_lem}
use ethera_bundler.Packing.RoundTrip.{pack-unpack_uints, pack-parse_paymaster_and_data}
use ethera_bundler.Tests.Data.{
  uint, op, op-IsUserOp, wide_op, wide_op-IsUserOp, packed_op, pack-packed_op, sponsor,
  replicate-IsBytes,
}

parse_paymaster_and_data-Parsed_example : Parsed (replicate 60 7)
parse_paymaster_and_data-Parsed_example =
    parse_paymaster_and_data-Parsed (replicate 60 7) (replicate-IsBytes 60 7 (omega arith)).1
      (omega arith)

pack_lem_example : pack wide_op ≡ err (overflow "gasFees")
pack_lem_example = pack_lem wide_op wide_op-IsUserOp

pack-unpack_uints_example :
    (unpack_uints packed_op.account_gas_limits ≡ (80_000, 90_000))
    × (unpack_uints packed_op.gas_fees ≡ (20_000_000, 3_000_000_000))
pack-unpack_uints_example = pack-unpack_uints op op-IsUserOp packed_op pack-packed_op

pack-parse_paymaster_and_data_example :
    parse_paymaster_and_data packed_op.paymaster_and_data ≡ ok (some (sponsor, 70_000, 60_000))
pack-parse_paymaster_and_data_example =
    pack-parse_paymaster_and_data op op-IsUserOp packed_op sponsor refl refl refl pack-packed_op
