-- ===== src/Claim/Streaming.antt =====
-- messaging/claim/MessageStreaming.cpp on a little-endian machine with a 32-bit `int`. An input
-- stream is the bytes not yet read, and whether it is `good`.
pub mod RoundTrip
use numcore_messaging_librar.Common.{
  ℕ, suc, ◌+◌, ◌-◌, ◌*◌, ◌/◌, ◌%◌, ◌^◌, Bool, true, false, List, [], ◌∷◌, ◌++◌, Bytes, ltb, leb,
  if◌then◌else◌, length, take, drop, replicate, ℤ, pos, negsuc,
}
use numcore_messaging_librar.Slaim.Message.{Message}

pub record InputStream : Type 0 where
  pub bytes : Bytes
  pub good : Bool

-- The low four bytes of a `size_t`.
unfoldable pub int_bytes : ℕ → Bytes
int_bytes n = (n % 256) ∷ (n / 256 % 256) ∷ (n / 65536 % 256) ∷ (n / 16777216 % 256) ∷ []

unfoldable pub write_message_to_stream : Message → Bytes
unfolding int_bytes
write_message_to_stream msg =
    int_bytes (length msg.type) ++ (msg.type ++ (int_bytes (length msg.text) ++ msg.text))

-- `input.read(p, n)` over a buffer that holds `old`: what the buffer holds then.
unfoldable pub read : InputStream → ℕ → Bytes → Bytes × InputStream
read input n old =
    if input.good
    then (
      take n input.bytes ++ drop (length (take n input.bytes)) old,
      record { bytes = drop n input.bytes; good = leb n (length input.bytes) },
    )
    else (old, input)

abbrev pub unsigned_of : Bytes → ℕ
unsigned_of [] = 0
unsigned_of (b ∷ bs) = b + 256 * unsigned_of bs

unfoldable pub int_of : Bytes → ℤ
int_of bs = let u = unsigned_of bs in if ltb u (2 ^ 31) then pos u else negsuc (2 ^ 32 - u - 1)

-- `int len = -1; input.read((char*) &len, sizeof(int));`
unfoldable pub read_length : InputStream → ℤ × InputStream
unfolding int_of
read_length input = let (bs, input') = read input 4 (replicate 4 255) in (int_of bs, input')

-- `buf.resize(n)`
unfoldable pub resize : ℕ → Bytes → Bytes
resize n buf = take n buf ++ replicate (n - length buf) 0

-- The allocator may refuse a size by an exception, which is caught.
module _ (can_allocate : ℕ → Bool) where
  -- From the length of the text on; `buf` holds the type.
  unfoldable pub read_text : Message → Bytes → ℤ × InputStream → Bool × Message × InputStream
  unfolding resize
  read_text msg buf (negsuc n, input) = (false, msg, input)
  read_text msg buf (pos n, input) =
      if ltb 0 n
      then (if can_allocate n
          then (let (bs, input') = read input n (resize n buf) in
              (input'.good, record msg { text = bs }, input'))
          else (false, msg, input))
      else (false, msg, input)

  unfoldable pub read_type : Message → ℤ × InputStream → Bool × Message × InputStream
  unfolding read_text
  read_type msg (negsuc n, input) = (false, msg, input)
  read_type msg (pos n, input) =
      if ltb 0 n
      then (if can_allocate n
          then (let (bs, input') = read input n (replicate n 0) in
              if input'.good
              then read_text (record msg { type = bs }) bs (read_length input')
              else (false, msg, input'))
          else (false, msg, input))
      else (false, msg, input)

  unfoldable pub read_message_from_stream : InputStream → Message → Bool × Message × InputStream
  unfolding read_type
  read_message_from_stream input msg = read_type msg (read_length input)
