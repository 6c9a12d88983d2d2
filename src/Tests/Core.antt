-- ===== src/Tests/Core.antt =====
-- Instances for pulsestream-core.
use text.Mathlib.Text.{◌==◌ as str_eq}
use pulse_stream.Common.{
  true, ◌≡◌, ◌↔◌, refl, Text, codes, trim, trim_start, trim_end, is_whitespace, starts_with,
  if◌then◌else◌, ok, err, Bytes, utf8, utf8_char, arith,
}
use pulse_stream.Json.{
  Scalar, null, bool, number, string, Value, scalar, object, with_entry, no_entry,
}
use pulse_stream.Idempotency.{
  push_bytes, to_be_bytes, frame, fingerprint_input, write_canonical, sort_by_key, insert_entry,
  text_leb, write_entry, join_commas,
}
use pulse_stream.Idempotency.Framing.{IsHashable}
use pulse_stream.Config.{
  DatabaseUrl, with_url, default_runtime, bounded_integer, millis, boolean, required, parse_url,
  strip_prefix, or_else, check_host, before_path, after_at, has_at, database_from_lookup,
  runtime_from_lookup, worker_from_lookup,
}
use pulse_stream.Config.Urls.{IsDatabaseUrl, parse_url_iff}
use pulse_stream.Config.Environment.{Environment, not_present, env_lookup, worker_from_env}
use pulse_stream.Tests.Samples.{order}

-- An environment with the URL of the database and nothing else.
abbrev url_text : Text
url_text = codes "postgres://h/d"

abbrev pub env_url : Environment
env_url var = if str_eq var "DATABASE_URL" then ok url_text else err not_present

abbrev pub url : DatabaseUrl
url = record { text = url_text }

url-accepted : parse_url url_text ≡ ok url
unfolding parse_url strip_prefix or_else check_host before_path after_at has_at trim trim_start
    trim_end is_whitespace starts_with
url-accepted = refl

pub env_url-accepted :
    worker_from_env env_url ≡ ok (record { database = with_url url; runtime = default_runtime })
unfolding worker_from_env env_lookup worker_from_lookup database_from_lookup runtime_from_lookup
    required parse_url strip_prefix or_else check_host before_path after_at has_at trim trim_start
    trim_end is_whitespace starts_with bounded_integer millis boolean with_url default_runtime
env_url-accepted = refl

-- The same object, with its entries in two orders.
abbrev writer : Scalar → Bytes
writer null = codes "null"
writer (bool b) = codes "true"
writer (number t) = t
writer (string t) = t

abbrev pub ab : Value
ab =
    object
      (with_entry (codes "a") (scalar (bool true)) (with_entry (codes "b") (scalar null) no_entry))

abbrev pub ba : Value
ba =
    object
      (with_entry (codes "b") (scalar null) (with_entry (codes "a") (scalar (bool true)) no_entry))

ab-IsHashable : IsHashable writer order.source order.event_type ab
unfolding utf8 utf8_char write_canonical sort_by_key insert_entry text_leb write_entry join_commas
ab-IsHashable = record {
  source_fits = omega arith;
  type_fits = omega arith;
  payload_fits = omega arith;
}

ba-IsHashable : IsHashable writer order.source order.event_type ba
unfolding utf8 utf8_char write_canonical sort_by_key insert_entry text_leb write_entry join_commas
ba-IsHashable = record {
  source_fits = omega arith;
  type_fits = omega arith;
  payload_fits = omega arith;
}

same-input :
    fingerprint_input writer order.source order.event_type ab
    ≡ fingerprint_input writer order.source order.event_type ba
unfolding fingerprint_input frame to_be_bytes push_bytes utf8 utf8_char write_canonical sort_by_key
    insert_entry text_leb write_entry join_commas
same-input = refl

parse_url_iff_example :
    (parse_url url_text ≡ ok url) ↔ ((url.text ≡ trim url_text) × IsDatabaseUrl (trim url_text))
parse_url_iff_example = parse_url_iff url_text url
