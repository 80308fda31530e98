-- ===== src/Slaim/Wire.antt =====
-- The wire format of messaging/slaim/messaging.cpp: a message is `[<n> (<type> <text>)\n]`, where n
-- counts from the type up to the closing bracket. A `BufferItem` that nobody else points to is the
-- list of its bytes; its ownership is modelled in Slaim/Buffer.
pub mod RoundTrip
pub mod Malformed
pub mod Lists
use numcore_messaging_librar.Common.{
  ℕ, zero, suc, ◌+◌, ◌-◌, ◌%◌, ◌^◌, Bool, true, false, ◌&&◌, List, [], ◌∷◌, ◌++◌, Option, none,
  some, Bytes, codes, ltb, leb, ◌==◌, if◌then◌else◌, length, memchr, take, drop, get_or, ℤ,
}
use numcore_messaging_librar.Decimal.{decimal, atoi, to_unsigned}
use numcore_messaging_librar.Outcome.{
  Outcome, done, throws, aborts, undefined, out_of_fuel, length_error,
}
use numcore_messaging_librar.Slaim.Message.{Message, empty_message, set_text_from}

-- `nContentsLength`, a `size_t`
unfoldable pub contents_length : Message → ℕ
contents_length msg = (length msg.type + length msg.text + 4) % 2 ^ 64

unfoldable pub serialize_message : Message → Bytes
serialize_message msg =
    b'['
    ∷ (decimal (contents_length msg)
        ++ (b' ' ∷ b'(' ∷ (msg.type ++ (b' ' ∷ (msg.text ++ (b')' ∷ b'\n' ∷ b']' ∷ []))))))

-- What a call of `ExtractSingleMessageFromBufferItem` leaves behind: its result, the message that
-- it was handed, and the rest of the data stream.
pub record Extracted : Type 0 where
  pub message_extracted : Bool
  pub msg : Message
  pub data_stream : Bytes

-- A length below 5 is refused, and the stream is cut behind the first `]`.
unfoldable pub skip_bracket : Option ℕ → Bytes → Bytes
skip_bracket none d = []
skip_bracket (some end_pos) d = drop (end_pos + 1) d

-- The three bytes before position `data_end` are `)`, `\n` and `]`.
unfoldable pub is_closed : Bytes → ℕ → Bool
is_closed d data_end =
    get_or d (data_end - 1) 0 == b']'
    && (get_or d (data_end - 2) 0 == b'\n' && get_or d (data_end - 3) 0 == b')')

-- The type ends at the blank behind `type_start`. The length of the text is a `size_t` difference:
-- where it would be negative it wraps round, and `resize` throws.
unfoldable pub extract_contents : Bytes → Message → ℕ → ℕ → Option ℕ → Outcome Extracted
unfolding set_text_from is_closed
extract_contents d msg type_start data_end none =
    done (record { message_extracted = false; msg = msg; data_stream = drop data_end d })
extract_contents d msg type_start data_end (some type_length) =
    let text_start = type_start + type_length + 1 in
    let typed = record msg { type = take type_length (drop type_start d) } in
    if ltb (data_end - 3) text_start
    then throws length_error
    else done (record {
      message_extracted = is_closed d data_end;
      msg = set_text_from typed (drop text_start d) (data_end - 3 - text_start);
      data_stream = drop data_end d;
    })

-- `length_end` is the position of the first blank, `n` the announced length.
unfoldable pub extract_announced : Bytes → Message → ℕ → ℕ → Outcome Extracted
unfolding extract_contents skip_bracket
extract_announced d msg length_end n =
    let type_start = length_end + 2 in
    let data_end = type_start + n in
    if ltb n 5
    then done (record {
      message_extracted = false;
      msg = msg;
      data_stream = skip_bracket (memchr d b']') d;
    })
    else if leb data_end (length d)
    then extract_contents d msg type_start data_end (memchr (drop type_start d) b' ')
    else done (record { message_extracted = false; msg = msg; data_stream = d })

unfoldable pub extract_measured : Bytes → Message → ℕ → Option ℤ → Outcome Extracted
unfolding extract_announced to_unsigned
extract_measured d msg length_end none = undefined
extract_measured d msg length_end (some n) = extract_announced d msg length_end (to_unsigned n)

-- `length_end` is the position of the first blank, if there is one.
unfoldable pub extract_located : Bytes → Message → Option ℕ → Outcome Extracted
unfolding extract_measured
extract_located d msg none = done (record { message_extracted = false; msg = msg; data_stream = d })
extract_located d msg (some length_end) = extract_measured d msg length_end (atoi (drop 1 d))

unfoldable pub extract_single_message_from_buffer_item : Bytes → Message → Outcome Extracted
unfolding extract_located
extract_single_message_from_buffer_item d msg = extract_located d msg (memchr d b' ')

unfoldable pub concat_serialized : List Message → Bytes
concat_serialized [] = []
concat_serialized (msg ∷ lst) = serialize_message msg ++ concat_serialized lst

unfoldable pub convert_message_list_to_single_message : List Message → Message
unfolding concat_serialized
convert_message_list_to_single_message lst = record {
  type = codes "MessageList";
  text = concat_serialized lst;
}

-- `while (Extract(...)) lst.push_back(msgExtracted)`; one message object serves every round.
unfoldable pub extract_all : ℕ → Bytes → Message → List Message → Outcome (List Message)
extract_all zero d msg lst = out_of_fuel
extract_all (suc fuel) d msg lst = elim (extract_single_message_from_buffer_item d msg) [
  | done e ↦ elim e.message_extracted [
    | true ↦ extract_all fuel e.data_stream e.msg (lst ++ (e.msg ∷ []))
    | false ↦ done lst
  ]
  | throws x ↦ throws x
  | aborts ↦ aborts
  | undefined ↦ undefined
  | out_of_fuel ↦ out_of_fuel
]

-- Every extracted message shortens the stream, so its length bounds the rounds.
unfoldable pub convert_single_message_to_message_list :
    Message → List Message → Outcome (List Message)
unfolding extract_all
convert_single_message_to_message_list msg lst =
    extract_all (length msg.text + 1) msg.text empty_message lst
