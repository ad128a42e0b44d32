-- ===== src/Sam/Tests.antt =====
-- A message of the protocol, and runs of the encoder and the decoder on it.
use exio.Prelude.{◌≡◌, refl, Bytes, codes, ◌++◌, [], ◌∷◌}
use exio.Error.{ok, ◌>>=◌}
use exio.Sam.Container.{nil, field, child, TxMessage}
use exio.SamBuffer.Defs.{new_buffer, contents, append, encode_header, write_header, msg_size}
use exio.SamBuffer.Decimal.{decimal, count_digits}
use exio.Sam.Encode.{encode_msg, encode_body}
use exio.Sam.Encode.Wire.{wire_body, wire, escaped}
use exio.Sam.Chars.{is_special_char}
use exio.Sam.Decode.Message.{IsClean}
use exio.Prelude.{arith}
use exio.Sam.Container.{find_field, find_child, Items, Unique, merge, find_child}
use exio.Prelude.{◌+◌, ◌≤◌, length, take, some, if◌then◌else◌, true}
use exio.Error.Ensures.{Ensures}
use exio.SamBuffer.Defs.{DynamicSamBuffer}
use exio.SamBuffer.Header.{frame}
use exio.Sam.Chars.{max_msg_len}
use exio.Sam.Encode.{
  check_enc_size, calc_encoded_size, encode_contents_calc, encode_items_calc, write_str_calc,
  write_chars_calc,
}
use exio.Sam.Encode.Size.{calc_encoded_size_lem, check_enc_size_sound}
use exio.Sam.Encode.Message.{encode_msg_lem}
use exio.Sam.Decode.{decode_msg}
use exio.Sam.Decode.Message.{decode_msg-cut}
use exio.Sam.Decode.Total.{Decoded, decode_msg-Ensures}
use exio.Sam.RoundTrip.{decode_msg-encode_msg}
use exio.Sam.Container.Merge.{FieldsAfter, find_field-merge, merged_child, find_child-merge}
use exio.Sam.Path.{Qname, find_field_at, put_field_at, parse, to_string}
use exio.Sam.Path.Laws.{same_place, find_field_at-put_field_at}
use exio.Sam.Path.Parse.{Parts, parse-to_string}

-- {SAM0100:…:request:[head=[command=a\,b,],body=[args_COUNT=0,],]}
abbrev pub request : TxMessage
request = record {
  root = record {
    name = codes "request";
    items =
        child (codes "head") (field (codes "command") (codes "a,b") nil)
          (child (codes "body") (field (codes "args_COUNT") (codes "0") nil) nil);
  };
}

abbrev pub request_bytes : Bytes
request_bytes =
    codes "{SAM0100:66:request:[head=[command=a\\,b,],body=[args_COUNT=0,],]}" ++ 10 ∷ []

abbrev pub blank : TxMessage
blank = record { root = record { name = []; items = nil } }

encode_request : (encode_msg request (new_buffer 512) >>= λ r. ok (contents r.0)) ≡ ok request_bytes
unfolding encode_msg encode_body new_buffer contents append encode_header write_header decimal
    count_digits msg_size
encode_request = refl

request-IsClean : IsClean request
unfolding wire_body wire escaped is_special_char find_field find_child
request-IsClean = record {
  type = ground arith;
  names = ground arith;
  unique = (refl, (refl, tt), (refl, (refl, tt), tt));
  short = omega arith;
}

decode_msg-encode_msg_example :
    (sb : DynamicSamBuffer) × (encode_msg request (new_buffer 512) ≡ ok (sb, length (contents sb)))
    × (decode_msg blank (contents sb ++ 123 ∷ []) ≡ ok (request, length (contents sb)))
decode_msg-encode_msg_example =
    decode_msg-encode_msg blank request 512 (123 ∷ []) request-IsClean (omega arith)

length-request : length (frame (wire_body request)) ≡ 66
unfolding frame wire_body wire escaped is_special_char decimal
length-request = refl

decode_msg-cut_example : decode_msg blank (take 30 (frame (wire_body request))) ≡ ok (blank, 0)
decode_msg-cut_example =
    decode_msg-cut blank request 30 request-IsClean (omega (arith, length-request))

decode_msg-Ensures_example : Ensures (Decoded blank request_bytes) (decode_msg blank request_bytes)
decode_msg-Ensures_example = decode_msg-Ensures blank request_bytes

length-request_body : length (wire_body request) ≡ 55
unfolding wire_body wire escaped is_special_char
length-request_body = refl

encode_msg_lem_example :
    (sb : DynamicSamBuffer) × (encode_msg request (new_buffer 512) ≡ ok (sb, length (contents sb)))
    × (contents sb ≡ frame (wire_body request))
encode_msg_lem_example =
    encode_msg_lem request 512 (omega (arith, length-request_body)) (omega arith)

calc_encoded_size_lem_example :
    calc_encoded_size request + length (decimal (length (frame (wire_body request))))
    ≡ length (frame (wire_body request)) + 5
calc_encoded_size_lem_example = calc_encoded_size_lem request

check_request : check_enc_size request 50 ≡ true
unfolding check_enc_size calc_encoded_size encode_contents_calc encode_items_calc write_str_calc
    write_chars_calc is_special_char
check_request = refl

check_enc_size_sound_example : length (frame (wire_body request)) + 50 ≤ max_msg_len
check_enc_size_sound_example =
    check_enc_size_sound request 50 (omega (arith, length-request)) check_request

-- A message that overrides the command and adds a user.
abbrev extra : Items
extra =
    child (codes "head")
      (field (codes "command") (codes "c") (field (codes "user") (codes "u") nil)) nil

abbrev fields : Items
fields = field (codes "command") (codes "c") (field (codes "user") (codes "u") nil)

extra-Unique : Unique extra
unfolding find_child find_field
extra-Unique = (refl, (refl, (refl, tt)), tt)

fields-Unique : Unique fields
unfolding find_field
fields-Unique = (refl, (refl, tt))

request-Unique : Unique request.items
request-Unique = request-IsClean.unique

find_field-merge_example : FieldsAfter (codes "user") (field (codes "user") (codes "v") nil) fields
find_field-merge_example =
    find_field-merge (codes "user") (field (codes "user") (codes "v") nil) fields fields-Unique

find_child-merge_example :
    find_child (codes "head") (merge request.items extra)
    ≡ merged_child (find_child (codes "head") request.items) (find_child (codes "head") extra)
find_child-merge_example = find_child-merge (codes "head") request.items extra extra-Unique

abbrev head_user : Qname
head_user = codes "head" ∷ codes "user" ∷ []

find_field_at-put_field_at_example :
    find_field_at head_user (put_field_at head_user (codes "w") extra)
    ≡ (if same_place head_user head_user then some (codes "w") else find_field_at head_user extra)
find_field_at-put_field_at_example =
    find_field_at-put_field_at head_user head_user (codes "w") extra

head_user-Parts : Parts head_user
head_user-Parts = ground arith

parse-to_string_example : parse (some (to_string head_user)) ≡ head_user
parse-to_string_example = parse-to_string head_user head_user-Parts
