-- ===== src/Claim/AttributeMessage/RoundTrip.antt =====
-- An attribute message survives its conversion to a raw message and back.
use numcore_messaging_librar.Common.{
  ◌+◌, ◌^◌, ◌<◌, ◌≡◌, ◌≢◌, ◌∙◌, ap, bytes_eq, List, [], ◌∷◌, ◌++◌, append_assoc, append-nil, arith,
  Bytes, All, bytes_eq, bytes_eq_of_ne, All-append, length,
}
use numcore_messaging_librar.Outcome.{done}
use numcore_messaging_librar.OrderedMap.{OrderedMap, compare_keys, greater}
use numcore_messaging_librar.OrderedMap.Laws.{IsSorted, Below, assign-Below}
use numcore_messaging_librar.Slaim.Message.{Message}
use numcore_messaging_librar.Slaim.Wire.RoundTrip.{IsSendable}
use numcore_messaging_librar.Slaim.Wire.Lists.{convert-convert_message_list_to_single_message}
use numcore_messaging_librar.Slaim.Wire.{
  convert_message_list_to_single_message, convert_single_message_to_message_list,
}
use numcore_messaging_librar.Claim.AttributeMessage.{
  AttributeMessage, body_type, take_part, take_parts, assign_raw_message, attribute_parts,
  get_raw_message,
}

-- An attribute that the format can carry.
pub record IsCarried (e : Bytes × Bytes) : Type 0 where
  pub sendable : IsSendable (record { type = e.0; text = e.1 })
  pub not_body : e.0 ≢ body_type

-- The attributes are those of a `std::map`, and each can be carried; the body fits.
pub record IsCarriable (am : AttributeMessage) : Type 0 where
  pub sorted : IsSorted am.attributes
  pub carried : All IsCarried am.attributes
  pub body_fits : length am.body + 10 < 2 ^ 31

attribute_parts-IsSendable :
    (m : OrderedMap Bytes) → All IsCarried m → All IsSendable (attribute_parts m)
unfolding attribute_parts
attribute_parts-IsSendable [] h = tt
attribute_parts-IsSendable ((k, v) ∷ m) h = (h.0.sendable, attribute_parts-IsSendable m h.1)

-- Each key of `m` is above all of `seen`.
abbrev Follows : OrderedMap Bytes → OrderedMap Bytes → Type 0
Follows seen m = All (λ (e : Bytes × Bytes). Below e.0 seen) m

Follows-concat :
    (seen m : OrderedMap Bytes) (k v : Bytes)
    → Follows seen m
    → All (λ (e : Bytes × Bytes). compare_keys e.0 k ≡ greater) m
    → Follows (seen ++ ((k, v) ∷ [])) m
Follows-concat seen [] k v f g = tt
Follows-concat seen ((j, w) ∷ m) k v f g =
    (All-append _ seen ((k, v) ∷ []) f.0 (g.0, tt), Follows-concat seen m k v f.1 g.1)

take_part-attribute :
    (am : AttributeMessage) (k v : Bytes)
    → k ≢ body_type
    → Below k am.attributes
    → take_part am (record { type = k; text = v })
      ≡ record am { attributes = am.attributes ++ ((k, v) ∷ []) }
unfolding take_part
take_part-attribute am k v ne b =
    rw (bytes_eq_of_ne k body_type ne, assign-Below k v am.attributes b)

take_parts-attribute_parts :
    (m : OrderedMap Bytes) (am : AttributeMessage)
    → IsSorted m
    → All IsCarried m
    → Follows am.attributes m
    → take_parts am (attribute_parts m) ≡ record am { attributes = am.attributes ++ m }
unfolding take_parts attribute_parts
take_parts-attribute_parts [] am s c f = rw append-nil
take_parts-attribute_parts ((k, v) ∷ m) am s c f =
    rw (take_part-attribute am k v c.0.not_body f.0, take_parts)
      (take_parts-attribute_parts m (record am { attributes = am.attributes ++ ((k, v) ∷ []) }) s.1
          c.1 (Follows-concat am.attributes m k v f.1 s.0)
        ∙ rw append_assoc)

Follows-nil : (m : OrderedMap Bytes) → Follows [] m
Follows-nil [] = tt
Follows-nil (e ∷ m) = (tt, Follows-nil m)

abbrev parts : AttributeMessage → List Message
parts am = record { type = body_type; text = am.body } ∷ attribute_parts am.attributes

body-IsSendable :
    (body : Bytes)
    → length body + 10 < 2 ^ 31
    → IsSendable (record { type = body_type; text = body })
body-IsSendable body h = omega arith

-- The type of the packed message does not matter to the unpacking.
unpack-get_raw_message :
    (am : AttributeMessage)
    → IsCarriable am
    → convert_single_message_to_message_list (get_raw_message am) [] ≡ done (parts am)
unfolding get_raw_message convert_single_message_to_message_list
    convert_message_list_to_single_message
unpack-get_raw_message am h =
    convert-convert_message_list_to_single_message (parts am) []
      (body-IsSendable am.body h.body_fits, attribute_parts-IsSendable am.attributes h.carried)

take_parts-parts :
    (target am : AttributeMessage)
    → IsCarriable am
    → take_parts (record target { type = am.type; attributes = [] }) (parts am) ≡ am
unfolding take_parts bytes_eq
take_parts-parts target am h =
    take_parts-attribute_parts am.attributes
      (record { body = am.body; type = am.type; attributes = [] }) h.sorted h.carried
      (Follows-nil am.attributes)

-- Whatever the target object held, assigning it the raw form of a carriable attribute message makes
-- it equal to that message: type, body and every attribute, and no attribute more.
pub assign-get_raw_message :
    (target am : AttributeMessage)
    → IsCarriable am
    → assign_raw_message target (get_raw_message am) ≡ done am
unfolding assign_raw_message
assign-get_raw_message target am h = rw (unpack-get_raw_message am h) (
    ap done (
      unfold get_raw_message convert_message_list_to_single_message in
      take_parts-parts target am h))
