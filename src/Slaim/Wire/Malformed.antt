-- ===== src/Slaim/Wire/Malformed.antt =====
-- What the extraction does with streams that `SerializeMessage` of a sendable message did not
-- write.
use mathlib.Core.List.{cons-ne-nil}
use numcore_messaging_librar.Common.{
  ℕ, suc, ◌+◌, ◌*◌, ◌-◌, ◌^◌, ◌≤◌, ◌<◌, ◌≡◌, refl, true, false, [], ◌∷◌, ◌++◌, append_assoc,
  append-nil, ◌∙◌, none, arith, Bytes, length, length-append, memchr, memchr-append, Lacks,
  drop-append, All, le→ltb, lt→ltb, le→leb,
}
use numcore_messaging_librar.Decimal.{decimal, atoi, scan_digits, is_digit}
use numcore_messaging_librar.Decimal.RoundTrip.{IsDigit, atoi_of_digits}
use numcore_messaging_librar.Outcome.{done, throws, undefined, length_error}
use numcore_messaging_librar.Slaim.Message.{Message, empty_message}
use numcore_messaging_librar.Slaim.Wire.{
  contents_length, serialize_message, extract_announced, extract_measured,
  extract_single_message_from_buffer_item,
}
use numcore_messaging_librar.Slaim.Wire.RoundTrip.{
  IsSendable, opening, length-opening, length_end_at, measured, extract-serialize_message,
}

module _ (n : ℕ) (s rest : Bytes) (msg : Message) where
  abbrev unblanked : Bytes
  unblanked = opening n ++ (s ++ (b' ' ∷ rest))

  extract_announced-throws :
      Lacks b' ' s
      → 5 ≤ n
      → n ≤ length s + 3
      → n ≤ length s + 1 + length rest
      → extract_announced unblanked msg (suc (length (decimal n))) n ≡ throws length_error
  unfolding extract_announced
  extract_announced-throws lacks h short inside =
      let start = suc (length (decimal n)) + 2 in
      rw (
        le→ltb n 5 h,
        le→leb (start + n) (length unblanked) (
            omega (
              arith,
              length-opening n,
              length-append {0} (opening n) (s ++ (b' ' ∷ rest)),
              length-append {0} s (b' ' ∷ rest),
            )),
        drop-append start (opening n) (s ++ (b' ' ∷ rest)) (omega (arith, length-opening n)),
        memchr-append s rest b' ' lacks,
        lt→ltb (start + n - 3) (start + length s + 1) (omega arith),
      )

  -- If the announced length, at least 5, is all there, but ends at most two bytes behind the first
  -- blank of the contents, the length of the text wraps round and the extraction throws.
  pub extract_throws :
      Lacks b' ' s
      → 5 ≤ n
      → n < 2 ^ 31
      → n ≤ length s + 3
      → n ≤ length s + 1 + length rest
      → extract_single_message_from_buffer_item (opening n ++ (s ++ (b' ' ∷ rest))) msg
        ≡ throws length_error
  unfolding extract_single_message_from_buffer_item
  extract_throws lacks h fits short inside =
      rw
        (
          length_end_at n (s ++ (b' ' ∷ rest)),
          extract_measured,
          measured n (s ++ (b' ' ∷ rest)) fits,
        )
        (extract_announced-throws lacks h short inside)

scan_digits_off_end : (s : Bytes) (n : ℕ) → All IsDigit s → scan_digits s n ≡ none
unfolding scan_digits is_digit
scan_digits_off_end [] n h = refl
scan_digits_off_end (c ∷ s) n h = ground (arith, scan_digits_off_end s (n * 10 + (c - b'0')) h.1)

atoi_off_end : (s : Bytes) → All IsDigit s → atoi s ≡ none
unfolding atoi
atoi_off_end [] h = refl
atoi_off_end (c ∷ s) h =
    let off_end = rw append-nil at (atoi_of_digits (c ∷ s) [] (cons-ne-nil c s) h) in
    off_end ∙ rw (scan_digits_off_end (c ∷ s) 0 h)

-- A blank in front of nothing but digits makes `atoi` read past the end of the buffer.
pub extract_reads_past_end :
    (s : Bytes) (msg : Message)
    → All IsDigit s
    → extract_single_message_from_buffer_item (b' ' ∷ s) msg ≡ undefined
unfolding extract_single_message_from_buffer_item memchr
extract_reads_past_end s msg h = rw (atoi_off_end s h)

-- The message with neither type nor text is written with the length 4, and is refused when read.
pub extract_refuses_empty :
    (rest : Bytes) (msg : Message)
    → extract_single_message_from_buffer_item (serialize_message empty_message ++ rest) msg
      ≡ done (record { message_extracted = false; msg = msg; data_stream = rest })
unfolding extract_single_message_from_buffer_item serialize_message contents_length decimal memchr
    atoi
extract_refuses_empty rest msg = refl

-- Two messages that differ in where the type ends are written alike.
serialize_message-blank :
    (p q text : Bytes)
    → serialize_message (record { type = p ++ (b' ' ∷ q); text = text })
      ≡ serialize_message (record { type = p; text = q ++ (b' ' ∷ text) })
unfolding serialize_message contents_length
serialize_message-blank p q text = rw same_length (simp append_assoc)
  where
    same_length : length (p ++ (b' ' ∷ q)) + length text ≡ length p + length (q ++ (b' ' ∷ text))
    same_length = omega (arith, length-append {0} p (b' ' ∷ q), length-append {0} q (b' ' ∷ text))

-- If the part of a type in front of its blank, with the rest of it moved to the text, is sendable,
-- the message comes back so: the type cut at the blank, and the rest of it in the text.
pub extract_cuts_type :
    (p q text rest : Bytes) (msg : Message)
    → IsSendable (record { type = p; text = q ++ (b' ' ∷ text) })
    → extract_single_message_from_buffer_item
        (serialize_message (record { type = p ++ (b' ' ∷ q); text = text }) ++ rest)
        msg
      ≡ done (record {
        message_extracted = true;
        msg = record { type = p; text = q ++ (b' ' ∷ text) };
        data_stream = rest;
      })
extract_cuts_type p q text rest msg h =
    rw serialize_message-blank (extract-serialize_message _ rest msg h)
