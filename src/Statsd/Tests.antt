-- ===== src/Statsd/Tests.antt =====
-- Messages of tests/statsd_msg.c at whole values, and the theorems at concrete messages.
use brubeck.Prelude.{ℕ, ◌^◌, ◌≡◌, refl, Option, none, some, true, arith, codes, ◌>>=◌}
use Prim.Native.String.{String}
use brubeck.Value.Whole.{whole}
use brubeck.Metric.{meter, timer}
use brubeck.Statsd.Number.{
  Libc, parse_sign, parse_digits, parse_fraction, parse_decimal, parse_float,
}
use brubeck.Statsd.Number.Decimal
use brubeck.Statsd.Number.Decimal.{Number, none_, plus, point}
use brubeck.Statsd.Message.{Msg, scan_key, parse_type, parse_rate, parse_body, msg_parse}
use brubeck.Statsd.Message.Print.{Text, IsText, rate, print, message_of, freq_of, msg_parse-print}
use brubeck.Statsd.Message.Accept.{IsAccepted, msg_parse-IsAccepted}

abbrev libc : Libc ℕ
libc = record { pow = λ a b. a ^ b; strtod = λ text. (0, text) }

abbrev parsed : String → Option (Msg ℕ)
parsed text = msg_parse libc 0 (codes text)

abbrev of_timer : Msg ℕ
of_timer = record {
  key = codes "lol";
  key_len = 3;
  type = timer;
  value = 12;
  sample_freq = 1;
  modifiers = 0;
}

accepts :
    (parsed "lol:0012|ms" ≡ some of_timer)
    × (parsed "lol:12|ms|@1" ≡ some of_timer)
    × (parsed "lol:12.|ms\n" ≡ some of_timer)
    × (parsed "lol:|ms" ≡ some (record of_timer { value = 0 }))
    × (parsed "lol:+12|ms" ≡ some (record of_timer { modifiers = 1 }))
unfolding msg_parse scan_key parse_body parse_float parse_sign parse_decimal parse_digits
    parse_fraction parse_type parse_rate
accepts = (refl, refl, refl, refl, refl)

refuses :
    (parsed "this.are.some.floats:12.89.23|g" ≡ none)
    × (parsed "this.are.some.floats:12.89|a" ≡ none)
    × (parsed "this.are.some.floats:12.89|msdos" ≡ none)
    × (parsed "this.are.some.floats:12.89" ≡ none)
    × (parsed "this.are.some.floats|g" ≡ none)
    × (parsed "this.are.some.floats:1.0|g|1.0" ≡ none)
    × (parsed "this.are.some.floats:1.0|g|@0" ≡ none)
    × (parsed "this.are.some.floats:1.0|g|@3.0" ≡ none)
unfolding msg_parse scan_key parse_body parse_float parse_sign parse_decimal parse_digits
    parse_fraction parse_type parse_rate
refuses = (refl, refl, refl, refl, refl, refl, refl, refl)

abbrev text : Text
text = record {
  stem = codes "github.aut";
  last = b'h';
  number = record { sign = plus; digits = codes "17"; fraction = point (codes "5") };
  type = meter;
  trailer = rate (record { sign = none_; digits = codes "1"; fraction = Decimal.whole });
  newline = true;
}

text-IsText : IsText text
text-IsText = record {
  key_bytes = omega arith;
  key_fits = omega arith;
  last_byte = omega arith;
  number = ((refl, (refl, tt)), (refl, tt));
  type = λ e. cc;
  trailer = ((refl, tt), tt);
}

printed : print text ≡ codes "github.auth:+17.5|c|@1\n"
printed = refl

msg_parse-print_example :
    msg_parse libc 0 (print text)
    ≡ (freq_of libc text.trailer >>= λ f. some (message_of libc (codes "github.auth") text f))
msg_parse-print_example = msg_parse-print libc 0 text text-IsText

msg_parse-IsAccepted_example : IsAccepted libc 0 (codes "lol:0012|ms") of_timer
msg_parse-IsAccepted_example = msg_parse-IsAccepted libc 0 (codes "lol:0012|ms") accepts.0
