-- ===== src/Tests/Response.antt =====
-- The theorems about the messages at buffers of a few bytes and at a small event.
use onion_relay.Prelude.{
  ℕ, ◌+◌, ◌-◌, ◌^◌, ◌<◌, ◌≡◌, ◌⊎◌, refl, true, some, List, [], ◌∷◌, ◌++◌, length, replicate, arith,
}
use onion_relay.Response.{
  escape_char, int64_text, nostr_response_eose, nostr_response_notice, nostr_response_ok,
  nostr_response_closed, respond, write_all, safe_copy, copy_loop, put, finish,
  safe_copy_json_escaped, escape_loop, escaped_len, escape_char_len, put_all,
}
use onion_relay.Response.Event.{FullEvent, nostr_response_event}
use onion_relay.Response.Cursor.{IsResponse}
use onion_relay.Response.Escape.{escape}
use onion_relay.Response.Format.{
  eose_text, ok_text, notice_text, closed_text, event_text, json_text, json_char, decimal_digits,
}
use onion_relay.Response.Message.{short_messages_lem, nostr_response_event_lem}
use onion_relay.Response.Json.{json_string, json_string-escape}
use onion_relay.Response.Decimal.{IsDecimal, write_int64_digits}

-- `a"b` and a line feed
abbrev text : List ℕ
text = b'a' ∷ 34 ∷ b'b' ∷ 10 ∷ []

abbrev event : FullEvent
event = record {
  entity = record {
    id = b'1' ∷ [];
    pubkey = b'2' ∷ [];
    kind = 1;
    created_at = 1700000000;
    tags = record { key = b'e' ∷ []; values = (b'1' ∷ []) ∷ []; item_count = 1 } ∷ [];
    tag_count = 1;
  };
  content = text;
  sig = b'3' ∷ [];
}

-- `["EOSE","1"]` and its zero take 13 bytes
eose_fits :
    nostr_response_eose (b'1' ∷ []) (replicate 13 7) 13
    ≡ some (true, eose_text (b'1' ∷ []) ++ (0 ∷ []))
unfolding nostr_response_eose respond write_all safe_copy copy_loop put finish json_text json_char
    safe_copy_json_escaped escape_loop escaped_len escape_char_len escape_char put_all escape
eose_fits = refl

short_messages_example :
    IsResponse 20 (eose_text text) (nostr_response_eose text (replicate 20 7) 20)
    × IsResponse 20 (notice_text text) (nostr_response_notice text (replicate 20 7) 20)
    × IsResponse 20
        (ok_text text true (some text))
        (nostr_response_ok text true (some text) (replicate 20 7) 20)
    × IsResponse 20
        (closed_text text (some text))
        (nostr_response_closed text (some text) (replicate 20 7) 20)
unfolding json_text json_char
short_messages_example =
    short_messages_lem (replicate 20 7) 20 refl (omega arith) text true text (some text)
      (omega arith) (omega arith) (omega arith) (omega arith)

event_example :
    IsResponse 200 (event_text text event) (nostr_response_event text event (replicate 200 7) 200)
event_example =
    nostr_response_event_lem (replicate 200 7) 200 refl (omega arith) text event (omega arith)
      (omega arith) (λ e. omega (arith, e)) short
  where
    short : length (event_text text event) < 2 ^ 64
    short = unfold json_text json_char decimal_digits in omega arith

negative_example :
    (digits : List ℕ) × (((2 ^ 64 - 5 < 2 ^ 63)
        × (int64_text (2 ^ 64 - 5) ≡ some digits)
        × IsDecimal (2 ^ 64 - 5) digits)
      ⊎ (2 ^ 63 < 2 ^ 64 - 5)
        × (int64_text (2 ^ 64 - 5) ≡ some (b'-' ∷ digits))
        × IsDecimal (2 ^ 64 - (2 ^ 64 - 5)) digits)
negative_example = write_int64_digits (2 ^ 64 - 5) (omega arith) (λ e. omega (arith, e))

json_string_example :
    json_string (length text + 1) (escape text ++ (34 ∷ b']' ∷ [])) ≡ some (text, b']' ∷ [])
json_string_example = json_string-escape text (b']' ∷ [])
