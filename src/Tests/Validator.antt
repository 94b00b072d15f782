-- ===== src/Tests/Validator.antt =====
-- Validation data, and the simulation of an operation.
use ethera_bundler.Base.{◌≡◌, ◌↔◌, ok, arith}
use ethera_bundler.Base.Bytes.{be_value}
use ethera_bundler.Validator.{ValidationReport, parse_window, judge}
use ethera_bundler.Validator.Window.{parse_window-window_word, window_word}
use ethera_bundler.Validator.Verdict.{IsAcceptable, judge-ok_iff}
use ethera_bundler.Tests.Data.{uint, accepted}

parse_window-window_word_example :
    let w = parse_window (window_word 1 20 10) in
    (be_value w.aggregator ≡ 1) × (w.valid_until ≡ 20) × (w.valid_after ≡ 10)
parse_window-window_word_example =
    parse_window-window_word 1 20 10 (omega arith) (omega arith) (omega arith)

judge-ok_iff_example :
    ((r : ValidationReport) × (judge accepted 1000 ≡ ok r)) ↔ IsAcceptable accepted 1000
judge-ok_iff_example = judge-ok_iff accepted 1000
