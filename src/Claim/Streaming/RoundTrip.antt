-- ===== src/Claim/Streaming/RoundTrip.antt =====
-- Reading from a stream what was written to it.
use numcore_messaging_librar.Common.{
  ℕ, zero, ◌-◌, ◌^◌, ◌<◌, ◌≡◌, refl, Bool, true, false, [], ◌++◌, append_assoc, append-nil, arith,
  Bytes, length, length-append, take, take-append, drop-append, length-take, drop_all, replicate,
  length-replicate, pos, lt→ltb, le→leb,
}
use numcore_messaging_librar.Slaim.Message.{Message}
use numcore_messaging_librar.Claim.Streaming.{
  InputStream, int_bytes, write_message_to_stream, read, int_of, unsigned_of, read_length, resize,
  read_text, read_type, read_message_from_stream,
}

abbrev pub stream : Bytes → InputStream
stream bytes = record { bytes = bytes; good = true }

-- A buffer of the right size is overwritten.
read-append :
    (k : ℕ) (s rest old : Bytes)
    → k ≡ length s
    → length old ≡ k
    → read (stream (s ++ rest)) k old ≡ (s, stream rest)
unfolding read
read-append k s rest old e e' = rw (
  take-append k s rest e,
  drop-append k s rest e,
  drop_all (length s) old (omega arith),
  append-nil,
  le→leb k (length (s ++ rest)) (omega (arith, length-append {0} s rest)),
)

int_of-int_bytes : (n : ℕ) → n < 2 ^ 31 → int_of (int_bytes n) ≡ pos n
unfolding int_of int_bytes
int_of-int_bytes n h = rw (value, lt→ltb n (2 ^ 31) h)
  where
    value : unsigned_of (int_bytes n) ≡ n
    value = omega arith

read_length-int_bytes :
    (n : ℕ) (rest : Bytes)
    → n < 2 ^ 31
    → read_length (stream (int_bytes n ++ rest)) ≡ (pos n, stream rest)
unfolding read_length
read_length-int_bytes n rest h = rw (
  read-append 4 (int_bytes n) rest (replicate 4 255) (unfold int_bytes in refl) refl,
  int_of-int_bytes n h,
)

length-resize : (n : ℕ) (buf : Bytes) → length (resize n buf) ≡ n
unfolding resize
length-resize n buf = omega (
  arith,
  length-append {0} (take n buf) (replicate (n - length buf) 0),
  length-take n buf,
  length-replicate (n - length buf) (zero),
)

module _ (can_allocate : ℕ → Bool) (msg : Message) (rest : Bytes) where
  read_text-append :
      (m : Message) (buf : Bytes)
      → 0 < length msg.text
      → can_allocate (length msg.text) ≡ true
      → read_text can_allocate m buf (pos (length msg.text), stream (msg.text ++ rest))
        ≡ (true, record m { text = msg.text }, stream rest)
  unfolding read_text
  read_text-append m buf h a =
      let n = length msg.text in
      rw (lt→ltb 0 n h, a, read-append n msg.text rest (resize n buf) refl (length-resize n buf))

  read_type-append :
      (m : Message)
      → 0 < length msg.type
      → can_allocate (length msg.type) ≡ true
      → read_type can_allocate m (pos (length msg.type), stream (msg.type ++ rest))
        ≡ read_text can_allocate (record m { type = msg.type }) msg.type (read_length (stream rest))
  unfolding read_type
  read_type-append m h a =
      let n = length msg.type in
      rw (lt→ltb 0 n h, a, read-append n msg.type rest (replicate n 0) refl (length-replicate n 0))

  written :
      write_message_to_stream msg ++ rest
      ≡ int_bytes (length msg.type)
        ++ (msg.type ++ (int_bytes (length msg.text) ++ (msg.text ++ rest)))
  unfolding write_message_to_stream
  written = simp append_assoc

-- Whether the stream format can carry a length, and the reader's allocator grants it.
pub record IsReadable (can_allocate : ℕ → Bool) (n : ℕ) : Type 0 where
  pub positive : 0 < n
  pub fits : n < 2 ^ 31
  pub granted : can_allocate n ≡ true

module _ (can_allocate : ℕ → Bool) (msg m : Message) (rest : Bytes) where
  -- A message with a type and a text, both of readable length, is read back whole, and the stream is
  -- left good, at what followed.
  pub read-write_message_to_stream :
      IsReadable can_allocate (length msg.type)
      → IsReadable can_allocate (length msg.text)
      → read_message_from_stream can_allocate (stream (write_message_to_stream msg ++ rest)) m
        ≡ (true, msg, stream rest)
  unfolding read_message_from_stream
  read-write_message_to_stream ht hx = rw (
    written can_allocate msg rest,
    read_length-int_bytes (length msg.type) _ ht.fits,
    read_type-append can_allocate msg _ m ht.positive ht.granted,
    read_length-int_bytes (length msg.text) _ hx.fits,
    read_text-append can_allocate msg rest _ msg.type hx.positive hx.granted,
  )

  -- A message with a type of readable length and no text is refused when it is read: the type is taken,
  -- the text of the passed object stays, and the stream goes on behind the message.
  pub read_refuses_empty_text :
      IsReadable can_allocate (length msg.type)
      → msg.text ≡ []
      → read_message_from_stream can_allocate (stream (write_message_to_stream msg ++ rest)) m
        ≡ (false, record m { type = msg.type }, stream rest)
  unfolding read_message_from_stream read_text
  read_refuses_empty_text ht e = rw (
    written can_allocate msg rest,
    read_length-int_bytes (length msg.type) _ ht.fits,
    read_type-append can_allocate msg _ m ht.positive ht.granted,
    e,
    read_length-int_bytes 0 rest (omega arith),
  )

  -- A message with no type is refused before its text is read: the next read of the stream starts in
  -- the middle of the message.
  pub read_refuses_empty_type :
      msg.type ≡ []
      → read_message_from_stream can_allocate (stream (write_message_to_stream msg ++ rest)) m
        ≡ (false, m, stream (int_bytes (length msg.text) ++ (msg.text ++ rest)))
  unfolding read_message_from_stream read_type
  read_refuses_empty_type e =
      rw (written can_allocate msg rest, e, read_length-int_bytes 0 _ (omega arith))
