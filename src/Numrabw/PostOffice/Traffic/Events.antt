-- ===== src/Numrabw/PostOffice/Traffic/Events.antt =====
-- What happens to the messages, and the calls that show it.
use numcore_messaging_librar.Common.{◌≡◌, refl, ap, List, [], ◌∷◌, ◌++◌}
use numcore_messaging_librar.Slaim.Message.{Message}
use numcore_messaging_librar.Numrabw.PostOffice.{
  AmqpCall, connects, declares_exchange, declares_queue, binds, unbinds, consumes, publishes,
}

-- The publishing of a message has returned, or thrown; or that of a status message has returned.
pub data Event : Type 0 where
  sent lost reported : Message → Event

abbrev pub messages_of : List Event → List Message
messages_of [] = []
messages_of (sent m ∷ es) = m ∷ messages_of es
messages_of (lost m ∷ es) = m ∷ messages_of es
messages_of (reported m ∷ es) = messages_of es

abbrev pub calls_of : List Event → List AmqpCall
calls_of [] = []
calls_of (sent m ∷ es) = publishes m.text m.type ∷ calls_of es
calls_of (lost m ∷ es) = calls_of es
calls_of (reported m ∷ es) = publishes m.text m.type ∷ calls_of es

-- The publishing calls, the oldest first, of calls of which the newest is the first.
abbrev pub publishing : List AmqpCall → List AmqpCall
publishing [] = []
publishing (connects s ∷ cs) = publishing cs
publishing (declares_exchange s ∷ cs) = publishing cs
publishing (declares_queue ∷ cs) = publishing cs
publishing (binds s ∷ cs) = publishing cs
publishing (unbinds s ∷ cs) = publishing cs
publishing (consumes ∷ cs) = publishing cs
publishing (publishes text type ∷ cs) = publishing cs ++ (publishes text type ∷ [])

pub messages_of-append : (a b : List Event) → messages_of (a ++ b) ≡ messages_of a ++ messages_of b
messages_of-append [] b = refl
messages_of-append (sent m ∷ a) b = ap (◌∷◌ m) (messages_of-append a b)
messages_of-append (lost m ∷ a) b = ap (◌∷◌ m) (messages_of-append a b)
messages_of-append (reported m ∷ a) b = messages_of-append a b

pub calls_of-append : (a b : List Event) → calls_of (a ++ b) ≡ calls_of a ++ calls_of b
calls_of-append [] b = refl
calls_of-append (sent m ∷ a) b = ap (◌∷◌ (publishes m.text m.type)) (calls_of-append a b)
calls_of-append (lost m ∷ a) b = calls_of-append a b
calls_of-append (reported m ∷ a) b = ap (◌∷◌ (publishes m.text m.type)) (calls_of-append a b)
