-- ===== src/Validator/Window.antt =====
-- The 256-bit word of validation data: `aggregator | validUntil << 160 | validAfter << 208`.
use Prim.Native.Nat.{bit_and}
use mathlib.Core.Option.{get_or}
use ethera_bundler.Base.{
  ℕ, ◌+◌, ◌*◌, ◌/◌, ◌%◌, ◌^◌, ◌<◌, ◌≡◌, refl, ap, ◌∙◌, not, ◌&&◌, ◌||◌, ◌==◌, arith, if◌then◌else◌,
  ltb, lt→ltb,
}
use ethera_bundler.Base.Bits.{bit_and-mask}
use ethera_bundler.Base.Bytes.{be_value}
use ethera_bundler.Alloy.{Uint, try_u64}
use ethera_bundler.Alloy.Laws.{low_part, bytes_eq-be_value, is_zero-be_value}
use ethera_bundler.Types.{IsAddress}
use ethera_bundler.Validator.{
  uint48_max, parse_window, signature_failed, requires_aggregator, is_out_of_time_range,
  sig_validation_failed,
}

-- The three fields of a word, by arithmetic.
abbrev pub aggregator_of : ℕ → ℕ
aggregator_of word = word % 2 ^ 160

abbrev pub until_of : ℕ → ℕ
until_of word = if word / 2 ^ 160 % 2 ^ 48 == 0 then uint48_max else word / 2 ^ 160 % 2 ^ 48

abbrev pub after_of : ℕ → ℕ
after_of word = word / 2 ^ 208 % 2 ^ 48

-- `_packValidationData` of the entry point.
abbrev pub window_word : ℕ → ℕ → ℕ → ℕ
window_word aggregator until after = aggregator + until * 2 ^ 160 + after * 2 ^ 208

checked_48 : (n d : ℕ) → get_or (try_u64 (bit_and n uint48_max)) d ≡ n % 2 ^ 48
checked_48 n d = rw (bit_and-mask 48 n, lt→ltb (n % 2 ^ 48) (2 ^ 64) (omega arith))

module _ ⦃u : Uint⦄ where
  -- The three fields of a parsed window are those of the word by arithmetic, where an expiry of 0
  -- stands for the largest 48-bit number, and the aggregator is an address of 20 bytes.
  pub parse_window_fields :
      (word : ℕ)
      → ((parse_window word).valid_after ≡ after_of word)
        × ((parse_window word).valid_until ≡ until_of word)
        × IsAddress (parse_window word).aggregator
        × (be_value (parse_window word).aggregator ≡ aggregator_of word)
  unfolding parse_window
  parse_window_fields word =
      let low = low_part 12 20 (aggregator_of word) refl (omega arith) (omega arith) in
      let masked = bit_and-mask 160 word in
      (
        checked_48 (word / 2 ^ 208) 0,
        rw (checked_48 (word / 2 ^ 160) uint48_max),
        rw masked low.0,
        rw masked low.1,
      )

  pub signature_failed-parse_window :
      (word : ℕ) → signature_failed (parse_window word) ≡ (aggregator_of word == 1)
  unfolding signature_failed
  signature_failed-parse_window word =
      let (_, _, is, value) = parse_window_fields word in
      bytes_eq-be_value 20 (parse_window word).aggregator sig_validation_failed is (omega arith)
      ∙ ap (λ k. k == 1) value

  pub requires_aggregator-parse_window :
      (word : ℕ)
      → requires_aggregator (parse_window word)
        ≡ not (aggregator_of word == 0) && not (aggregator_of word == 1)
  unfolding requires_aggregator
  requires_aggregator-parse_window word =
      let (_, _, is, value) = parse_window_fields word in
      rw (
        signature_failed-parse_window word,
        is_zero-be_value 20 (parse_window word).aggregator is,
        value,
      )

  pub is_out_of_time_range-parse_window :
      (word now : ℕ)
      → is_out_of_time_range (parse_window word) now
        ≡ (ltb (until_of word) now || ltb now (after_of word))
  unfolding is_out_of_time_range
  is_out_of_time_range-parse_window word now =
      let (after, until, _, _) = parse_window_fields word in rw (after, until)

  -- A window packed from fields of 160, 48 and 48 bits is parsed into those fields, with the
  -- largest 48-bit number for an expiry of 0.
  pub parse_window-window_word :
      (aggregator until after : ℕ)
      → aggregator < 2 ^ 160
      → until < 2 ^ 48
      → after < 2 ^ 48
      → let w = parse_window (window_word aggregator until after) in
        (be_value w.aggregator ≡ aggregator)
        × (w.valid_until ≡ (if until == 0 then uint48_max else until))
        × (w.valid_after ≡ after)
  parse_window-window_word aggregator until after ha hu hv =
      let word : ℕ = window_word aggregator until after in
      let (af, un, _, agg) = parse_window_fields word in
      let e1 : aggregator_of word ≡ aggregator = omega arith in
      let e2 : word / 2 ^ 160 % 2 ^ 48 ≡ until = omega arith in
      let e3 : after_of word ≡ after = omega arith in
      (agg ∙ e1, un ∙ ap (λ k. if k == 0 then uint48_max else k) e2, af ∙ e3)
