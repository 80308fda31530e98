-- ===== src/Claim/AttributeMessage.antt =====
-- messaging/claim/AttributeMessage.h and messaging/claim/AttributeMessage.cpp: a message whose text
-- is a list of messages, one for the body and one for each attribute.
pub mod RoundTrip
use numcore_messaging_librar.Common.{
  Bool, true, false, List, [], ◌∷◌, ◌++◌, Bytes, codes, bytes_eq, if◌then◌else◌,
}
use numcore_messaging_librar.Outcome.{Outcome, done, throws, undefined, out_of_fuel, ◌>>=◌}
use numcore_messaging_librar.OrderedMap.{OrderedMap, assign}
use numcore_messaging_librar.Slaim.Message.{Message}
use numcore_messaging_librar.Slaim.Wire.{
  convert_message_list_to_single_message, convert_single_message_to_message_list,
}

pub record AttributeMessage : Type 0 where
  pub body : Bytes
  pub type : Bytes
  pub attributes : OrderedMap Bytes

abbrev pub empty_attribute_message : AttributeMessage
empty_attribute_message = record { body = []; type = []; attributes = [] }

abbrev pub body_type : Bytes
body_type = codes "m_body"

-- One round of the loop of `operator=`.
unfoldable pub take_part : AttributeMessage → Message → AttributeMessage
take_part am msg =
    if bytes_eq msg.type body_type
    then record am { body = msg.text }
    else record am { attributes = assign msg.type msg.text am.attributes }

unfoldable pub take_parts : AttributeMessage → List Message → AttributeMessage
unfolding take_part
take_parts am [] = am
take_parts am (msg ∷ lst) = take_parts (take_part am msg) lst

-- The attributes are cleared only if a part was read.
unfoldable pub clear_attributes : AttributeMessage → List Message → AttributeMessage
clear_attributes am [] = am
clear_attributes am (msg ∷ lst) = record am { attributes = [] }

-- `am = src`
unfoldable pub assign_raw_message : AttributeMessage → Message → Outcome AttributeMessage
unfolding clear_attributes take_parts
assign_raw_message am src = do
  lst ← convert_single_message_to_message_list src []
  done (take_parts (record (clear_attributes am lst) { type = src.type }) lst)

unfoldable pub attribute_parts : OrderedMap Bytes → List Message
attribute_parts [] = []
attribute_parts ((key, value) ∷ m) = record { type = key; text = value } ∷ attribute_parts m

unfoldable pub to_raw_message : AttributeMessage → Message
unfolding attribute_parts
to_raw_message am =
    let lst : List Message =
      record { type = body_type; text = am.body } ∷ attribute_parts am.attributes in
    record (convert_message_list_to_single_message lst) { type = am.type }

unfoldable pub get_raw_message : AttributeMessage → Message
unfolding to_raw_message
get_raw_message am = to_raw_message am
