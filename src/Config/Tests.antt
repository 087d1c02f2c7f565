-- ===== src/Config/Tests.antt =====
-- The theorems on the configuration loader, applied to small files; whole numbers stand for `double`.
use shunya_kv.Prelude.{ℕ, ◌-◌, ◌≡◌, refl, true, false, [], ◌∷◌, Option, none, some, arith, length}
use shunya_kv.Prelude.Bytes.{Bytes, codes, find_byte, same_bytes}
use shunya_kv.Resp.Chars.{from_chars}
use shunya_kv.Resp.Writer.Decimal.{print_decimal, print_decimal-IsDecimal}
use shunya_kv.Config.{
  DbConfig, sieve, setting, maybe_unquote, load_line, trim, first_not_blank, last_not_blank,
  cut_comment, one_of,
}
use shunya_kv.Config.Port.{load_line-port}
use shunya_kv.Config.Lines.{IsSetting, setting_line, setting-setting_line}

stod : Bytes → Option (ℕ × ℕ)
stod v = elim (from_chars v) [ none ↦ none | some (d, rest) ↦ some (d, length v - length rest) ]

abbrev defaults : DbConfig ℕ
defaults = record {
  policy = sieve;
  soft_trigger = 0;
  soft_stop = 0;
  soft_budget = 0;
  soft_throttle = false;
  prob_evict_trigger = 0;
  prob_evict_budget = 0;
  memory_reserve_percentage = 15;
  pool_max_memory_percent = 0;
  page_size_goal = 0;
  key_reserve = 0;
  prob_pool_size_percent = 0;
  db_port = 60110;
  hash = codes "fnv1a64";
  send_shard_details_on_connect = false;
}

too_large : setting (codes "port = 70000 # test") ≡ some (codes "port", print_decimal 70000)
unfolding setting trim first_not_blank last_not_blank cut_comment maybe_unquote find_byte
    print_decimal
too_large = refl

is_port : one_of (codes "db_port" ∷ codes "base_port" ∷ codes "port" ∷ []) (codes "port") ≡ true
unfolding one_of same_bytes
is_port = refl

load_line-port_example : load_line stod defaults (codes "port = 70000 # test") ≡ defaults
load_line-port_example =
    load_line-port stod print_decimal defaults (codes "port = 70000 # test") (codes "port") 70000
      print_decimal-IsDecimal is_port too_large

port_line :
    IsSetting
      (codes "port")
      (codes "\"7000\"")
      (codes "  ")
      (codes " ")
      (codes " ")
      (codes " ")
      (codes "# test")
      (codes "\r")
port_line = record {
  blanks_0 = (refl, (refl, tt));
  blanks_1 = (refl, tt);
  blanks_2 = (refl, tt);
  blanks_3 = (refl, tt);
  key_trimmed = record { some_bytes = omega arith; first = refl; last = refl };
  key_no_equals = ground arith;
  key_no_comment = omega arith;
  value_trimmed = record { some_bytes = omega arith; first = refl; last = refl };
  value_no_comment = ground arith;
  tail = ((refl, tt), refl, refl);
}

setting-setting_line_example :
    setting (
      setting_line
        (codes "port")
        (codes "\"7000\"")
        (codes "  ")
        (codes " ")
        (codes " ")
        (codes " ")
        (codes "# test")
        (codes "\r"))
    ≡ some (codes "port", maybe_unquote (codes "\"7000\""))
setting-setting_line_example =
    setting-setting_line (codes "port") (codes "\"7000\"") (codes "  ") (codes " ") (codes " ")
      (codes " ") (codes "# test") (codes "\r") port_line

unquotes : maybe_unquote (codes "\"7000\"") ≡ codes "7000"
unfolding maybe_unquote
unquotes = refl
