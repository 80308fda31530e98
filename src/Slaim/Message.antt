-- ===== src/Slaim/Message.antt =====
-- messaging/slaim/message.h and the `Message` methods of messaging/slaim/messaging.cpp.
use numcore_messaging_librar.Common.{
  ℕ, ◌+◌, ◌%◌, ◌^◌, [], none, some, Option, Bytes, length, memchr, take,
}
use numcore_messaging_librar.Outcome.{Outcome, done, throws, runtime_error}

pub record Message : Type 0 where
  pub type : Bytes
  pub text : Bytes

-- A default-constructed message.
abbrev pub empty_message : Message
empty_message = record { type = []; text = [] }

unfoldable pub get_type : Message → Bytes
get_type msg = msg.type

unfoldable pub get_text : Message → Bytes
get_text msg = msg.text

abbrev refuse_tab : Option ℕ → Message → Bytes → Outcome Message
refuse_tab (some i) msg type = throws runtime_error
refuse_tab none msg type = done (record msg { type = type })

unfoldable pub set_type : Message → Bytes → Outcome Message
set_type msg type = refuse_tab (memchr type b'\t') msg type

unfoldable pub set_text : Message → Bytes → Message
set_text msg text = record msg { text = text }

-- `SetText(p, len)`: `p` is the memory from the pointer on.
unfoldable pub set_text_from : Message → Bytes → ℕ → Message
set_text_from msg p len = record msg { text = take len p }

-- `size_t` addition.
unfoldable pub get_size : Message → ℕ
get_size msg = (length msg.type + length msg.text) % 2 ^ 64
