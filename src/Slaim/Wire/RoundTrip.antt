-- ===== src/Slaim/Wire/RoundTrip.antt =====
-- Reading back what was serialized.
use numcore_messaging_librar.Common.{
  ℕ, suc, ◌+◌, ◌-◌, ◌^◌, ◌≤◌, ◌<◌, ◌≡◌, refl, ap, ◌∙◌, true, [], ◌∷◌, ◌++◌, append_assoc, some,
  arith, Bytes, length, length-append, memchr, memchr-append, Lacks, take, drop, take-append,
  drop-append, get_or, get_or-append, le→ltb, le→leb, pos,
}
use numcore_messaging_librar.Decimal.{decimal, atoi, is_digit}
use numcore_messaging_librar.Decimal.RoundTrip.{decimal-IsDigit, IsDigit-Lacks, atoi-decimal}
use numcore_messaging_librar.Outcome.{done}
use numcore_messaging_librar.Slaim.Message.{Message}
use numcore_messaging_librar.Slaim.Wire.{
  contents_length, serialize_message, is_closed, extract_contents, extract_announced,
  extract_measured, extract_single_message_from_buffer_item,
}

-- A message that the format can carry: no blank in the type, not both parts empty, and a length
-- that `atoi` can read.
pub record IsSendable (msg : Message) : Type 0 where
  pub no_blank : Lacks b' ' msg.type
  pub not_empty : 1 ≤ length msg.type + length msg.text
  pub fits : length msg.type + length msg.text + 4 < 2 ^ 31

abbrev closing : Bytes → Bytes
closing rest = b')' ∷ b'\n' ∷ b']' ∷ rest

-- A stream that holds a message behind `pre`.
module _ (pre : Bytes) (msg : Message) (rest : Bytes) where
  abbrev behind : Bytes
  behind = pre ++ (msg.type ++ (b' ' ∷ (msg.text ++ closing rest)))

  abbrev text_at : ℕ
  text_at = length pre + length msg.type + 1

  behind-text : behind ≡ (pre ++ (msg.type ++ (b' ' ∷ []))) ++ (msg.text ++ closing rest)
  behind-text = simp append_assoc

  behind-closing : behind ≡ (pre ++ (msg.type ++ (b' ' ∷ msg.text))) ++ closing rest
  behind-closing = simp append_assoc

  behind-rest :
      behind ≡ (pre ++ (msg.type ++ (b' ' ∷ (msg.text ++ (b')' ∷ b'\n' ∷ b']' ∷ []))))) ++ rest
  behind-rest = simp append_assoc

  drop-text : drop text_at behind ≡ msg.text ++ closing rest
  drop-text = rw behind-text (
      drop-append text_at (pre ++ (msg.type ++ (b' ' ∷ []))) (msg.text ++ closing rest) (
        omega (
          arith,
          length-append {0} pre (msg.type ++ (b' ' ∷ [])),
          length-append {0} msg.type (b' ' ∷ []),
        )))

  closing_at : (i : ℕ) → get_or behind (text_at + length msg.text + i) 0 ≡ get_or (closing rest) i 0
  closing_at i = rw behind-closing (
      get_or-append _ (pre ++ (msg.type ++ (b' ' ∷ msg.text))) (closing rest) i 0 (
        omega (
          arith,
          length-append {0} pre (msg.type ++ (b' ' ∷ msg.text)),
          length-append {0} msg.type (b' ' ∷ msg.text),
        )))

  abbrev end_at : ℕ
  end_at = length pre + (length msg.type + length msg.text + 4)

  drop-end : drop end_at behind ≡ rest
  drop-end = rw behind-rest (
      drop-append end_at (pre ++ (msg.type ++ (b' ' ∷ (msg.text ++ (b')' ∷ b'\n' ∷ b']' ∷ [])))))
        rest
        (omega (
          arith,
          length-append {0} pre (msg.type ++ (b' ' ∷ (msg.text ++ (b')' ∷ b'\n' ∷ b']' ∷ [])))),
          length-append {0} msg.type (b' ' ∷ (msg.text ++ (b')' ∷ b'\n' ∷ b']' ∷ []))),
          length-append {0} msg.text (b')' ∷ b'\n' ∷ b']' ∷ []),
        )))

  byte_at :
      (i n : ℕ) → n ≡ text_at + length msg.text + i → get_or behind n 0 ≡ get_or (closing rest) i 0
  byte_at i n e = ap (λ k. get_or behind k 0) e ∙ closing_at i

  is_closed-end : is_closed behind end_at ≡ true
  unfolding is_closed
  is_closed-end = rw (
    byte_at 2 (end_at - 1) (omega arith),
    byte_at 1 (end_at - 2) (omega arith),
    byte_at 0 (end_at - 3) (omega arith),
  )

  drop-pre : drop (length pre) behind ≡ msg.type ++ (b' ' ∷ (msg.text ++ closing rest))
  drop-pre = drop-append (length pre) pre _ refl

  take-type : take (length msg.type) (drop (length pre) behind) ≡ msg.type
  take-type = rw drop-pre (take-append (length msg.type) msg.type _ refl)

  take-text : take (end_at - 3 - text_at) (drop text_at behind) ≡ msg.text
  take-text = rw drop-text (take-append (end_at - 3 - text_at) msg.text _ (omega arith))

  extract_contents-behind :
      (msg0 : Message)
      → extract_contents behind msg0 (length pre) end_at (some (length msg.type))
        ≡ done (record { message_extracted = true; msg = msg; data_stream = rest })
  unfolding extract_contents
  extract_contents-behind msg0 =
      rw (le→ltb (end_at - 3) text_at (omega arith), is_closed-end, take-type, take-text, drop-end)

  -- The announced length leads to the end of the message.
  extract_announced-behind :
      (msg0 : Message) (length_end : ℕ)
      → length pre ≡ length_end + 2
      → Lacks b' ' msg.type
      → 1 ≤ length msg.type + length msg.text
      → extract_announced behind msg0 length_end (length msg.type + length msg.text + 4)
        ≡ done (record { message_extracted = true; msg = msg; data_stream = rest })
  unfolding extract_announced
  extract_announced-behind msg0 length_end e lacks h =
      rw
        (
          le→ltb (length msg.type + length msg.text + 4) 5 (omega arith),
          ← e,
          le→leb end_at (length behind) (
              omega (
                arith,
                length-append {0} pre (msg.type ++ (b' ' ∷ (msg.text ++ closing rest))),
                length-append {0} msg.type (b' ' ∷ (msg.text ++ closing rest)),
                length-append {0} msg.text (closing rest),
              )),
          drop-pre,
          memchr-append msg.type (msg.text ++ closing rest) b' ' lacks,
        )
        (extract_contents-behind msg0)

-- The stream up to the type: `[<n> (`.
abbrev pub opening : ℕ → Bytes
opening n = b'[' ∷ (decimal n ++ (b' ' ∷ b'(' ∷ []))

module _ (n : ℕ) (rest : Bytes) where
  pub length_end_at : memchr (opening n ++ rest) b' ' ≡ some (suc (length (decimal n)))
  length_end_at = rw (append_assoc (decimal n) (b' ' ∷ b'(' ∷ []) rest) (
      memchr-append (b'[' ∷ decimal n) (b'(' ∷ rest) b' '
        (omega arith, IsDigit-Lacks b' ' (decimal n) (omega arith) (decimal-IsDigit n)))

  pub measured : n < 2 ^ 31 → atoi (drop 1 (opening n ++ rest)) ≡ some (pos n)
  unfolding is_digit
  measured h =
      rw (append_assoc (decimal n) (b' ' ∷ b'(' ∷ []) rest)
        (atoi-decimal n b' ' (b'(' ∷ rest) h refl)

pub length-opening : (n : ℕ) → length (opening n) ≡ suc (length (decimal n)) + 2
length-opening n = omega (arith, length-append {0} (decimal n) (b' ' ∷ b'(' ∷ []))

module _ (msg : Message) (rest : Bytes) where
  serialize_message-append :
      serialize_message msg ++ rest ≡ behind (opening (contents_length msg)) msg rest
  unfolding serialize_message
  serialize_message-append = simp append_assoc

  contents_length-fits :
      IsSendable msg → contents_length msg ≡ length msg.type + length msg.text + 4
  unfolding contents_length
  contents_length-fits h = omega arith

  extract-behind :
      (msg0 : Message)
      → IsSendable msg
      → extract_single_message_from_buffer_item
          (behind (opening (length msg.type + length msg.text + 4)) msg rest)
          msg0
        ≡ done (record { message_extracted = true; msg = msg; data_stream = rest })
  unfolding extract_single_message_from_buffer_item
  extract-behind msg0 h =
      let n = length msg.type + length msg.text + 4 in
      let contents = msg.type ++ (b' ' ∷ (msg.text ++ closing rest)) in
      rw (length_end_at n contents, extract_measured, measured n contents h.fits)
        (extract_announced-behind (opening n) msg rest msg0 (suc (length (decimal n)))
          (length-opening n) h.no_blank h.not_empty)

  -- Whatever message object is passed, and whatever follows in the stream, a sendable message is
  -- extracted from the front of it whole, and the stream is left at what followed.
  pub extract-serialize_message :
      (msg0 : Message)
      → IsSendable msg
      → extract_single_message_from_buffer_item (serialize_message msg ++ rest) msg0
        ≡ done (record { message_extracted = true; msg = msg; data_stream = rest })
  extract-serialize_message msg0 h =
      rw (serialize_message-append, contents_length-fits h) (extract-behind msg0 h)
