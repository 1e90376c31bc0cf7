-- ===== src/Screen/Tests.antt =====
-- Tests of the screen.
use hausboot.Base.{ℕ, ◌≡◌, none, some, List, arith}
use hausboot.Screen.TextScreen.{
  write_hex, write_decimal, digits_value, hex_value, write_hex-digits, decimal_value,
  write_decimal-digits, write_decimal_overruns,
}
use hausboot.Screen.VideoMemory.{VideoMemory, put_char, scroll_up}
use hausboot.Screen.VideoMemory.Puts.{scroll_up-none, Puts, put_char-Puts}

write_hex-digits_example : digits_value hex_value 16 0 (write_hex 0xBADCAFE) ≡ 0xBADCAFE
write_hex-digits_example = write_hex-digits 0xBADCAFE (omega arith)

write_decimal-digits_example :
    (text : List ℕ) × (write_decimal 720 ≡ some text) × (digits_value decimal_value 10 0 text ≡ 720)
write_decimal-digits_example = write_decimal-digits 720 (omega arith)

write_decimal_overruns_example : write_decimal 4294967295 ≡ none
write_decimal_overruns_example = write_decimal_overruns 4294967295 (omega arith)

abbrev screen : VideoMemory
screen = record { cells = λ i. 0; x = 79; y = 3; fg = 7; bg = 0; cursor = 0 }

put_char-Puts_example : Puts screen (put_char 0 screen b'A')
put_char-Puts_example = put_char-Puts 0 screen b'A' (omega arith) (omega arith)

scroll_up-none_example : scroll_up 1000 screen ≡ none
scroll_up-none_example = scroll_up-none 1000 screen
