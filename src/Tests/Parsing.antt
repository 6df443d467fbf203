-- ===== src/Tests/Parsing.antt =====
-- Metric strings.
use statsgod.Prelude.Int.{pos}
use statsgod.Metric.{metric_type_counter, new_metric}
use statsgod.Metric.Parse.Elements.{parse-sampled, parse-simple}
use statsgod.Prelude.Outcome.{done}
use statsgod.Metric.Parse.Fields.{IsPlain}
use statsgod.Utf8.{string_of, runes-ascii, IsAscii, runes}
use statsgod.Float.Fixed.{fixed, Fixed}
use statsgod.Metric.Parse.{
  sample_rate_of, get_metric_type, unless_full, scan_rune, missing_elements, build_metric, scan,
  parse_metric_string,
}
use statsgod.Metric.Parse.Results.{
  parse_metric_string_long, parse_metric_string_blanks, parse_metric_string-IsResult, IsResult,
}
use statsgod.Prelude.{
  append-nil, bytes_eq, sym, ◌∙◌, ap, length, refl, none, some, arith, zero, ◌∷◌, suc, [], ◌≡◌,
  List, All, codes, ℕ, Bytes,
}

abbrev sampled : Bytes
sampled = codes "a.b:12.5|c|@0.25"

parse_metric_string-IsResult_example : IsResult {F = Fixed} (parse_metric_string (codes "a:1|c"))
parse_metric_string-IsResult_example = parse_metric_string-IsResult (codes "a:1|c")

blanks_skipped :
    parse_metric_string {F = Fixed} (codes " a : 1|c") ≡ parse_metric_string (codes "a:1 |c ")
blanks_skipped =
    parse_metric_string_blanks (codes " a : 1|c") (codes "a:1 |c ") (unfold runes in refl)

abbrev copies : ℕ → ℕ → List ℕ
copies zero c = []
copies (suc n) c = c ∷ copies n c

length-copies : (n c : ℕ) → length (copies n c) ≡ n
length-copies zero c = refl
length-copies (suc n) c = ap suc (length-copies n c)

IsPlain-copies : (n : ℕ) → All (IsPlain 0) (copies n b'x')
IsPlain-copies zero = tt
IsPlain-copies (suc n) = ((refl, ground arith), IsPlain-copies n)

IsAscii-copies : (n : ℕ) → IsAscii (copies n b'x')
IsAscii-copies zero = tt
IsAscii-copies (suc n) = (ground arith, IsAscii-copies n)

abbrev long_name : Bytes
long_name = copies 512 b'x'

parse_metric_string_long_example :
    parse_metric_string {F = Fixed} long_name ≡ done (new_metric, some missing_elements)
parse_metric_string_long_example =
    parse_metric_string_long long_name long_name []
      (runes-ascii long_name (IsAscii-copies 512) ∙ sym (append-nil long_name)) (IsPlain-copies 512)
      (length-copies 512 b'x')

parse-simple_example :
    parse_metric_string {F = Fixed} (codes "ab:10|g")
    ≡ done (build_metric (codes "ab") (codes "10") (codes "g") [])
parse-simple_example =
    parse-simple (codes "ab:10|g") (codes "ab") (codes "10") (codes "g") (unfold runes in refl)
      (ground arith) (ground arith) (ground arith)

parse-sampled_example :
    parse_metric_string {F = Fixed} sampled
    ≡ done (build_metric (codes "a.b") (codes "12.5") (codes "c") (codes "0.25"))
parse-sampled_example =
    parse-sampled sampled (codes "a.b") (codes "12.5") (codes "c") [] (codes "0.25")
      (unfold runes in refl) (ground arith) (ground arith) (ground arith) (ground arith)
      (ground arith)

-- A counter sent with the rate 0.25 stands for four hits.
sampled_run :
    parse_metric_string {F = Fixed} sampled
    ≡ done (
      record new_metric {
        key = codes "a.b";
        metric_type = metric_type_counter;
        total_hits = some (pos 4000);
        last_value = some (pos 12500);
        all_values = some (pos 12500) ∷ [];
        sample_rate = some (pos 250);
      },
      none,
    )
unfolding parse_metric_string runes scan scan_rune unless_full build_metric fixed string_of
    get_metric_type bytes_eq sample_rate_of
sampled_run = refl
