-- ===== src/Numrabw/PostOffice.antt =====
-- messaging/numrabw/numrabw_postoffice.cpp. The AMQP client is a library that the repository does
-- not hold: here each call of it is recorded, or throws what a script says. Receiver and Sender are
-- the two threads, Handling what a received message meets, Front the calls of the client.
pub mod Receiver
pub mod Health
pub mod Handling
pub mod Status
pub mod Sender
pub mod Front
pub mod ReceiverThread
pub mod SenderThread
pub mod Construction
pub mod Traffic
mod Tests
use numcore_messaging_librar.Common.{List, [], ◌∷◌, Option, none, some, Bytes, codes}

-- The calls of the AMQP library. `binds` and `unbinds` are on the queue of the receiver's session.
pub data AmqpCall : Type 0 where
  connects : Bytes → AmqpCall
  declares_exchange : Bytes → AmqpCall
  declares_queue : AmqpCall
  binds : Bytes → AmqpCall
  unbinds : Bytes → AmqpCall
  consumes : AmqpCall
  publishes : Bytes → Bytes → AmqpCall

abbrev pub exchange_name : Bytes
exchange_name = codes "Numcore_messaging_library"

-- What becomes of the coming calls: `some w` throws an exception with the text w. Behind the end of
-- the list no call throws. The calls that did not throw are recorded, the newest first.
pub record Link : Type 0 where
  pub fate : List (Option Bytes)
  pub calls : List AmqpCall

-- How a sequence of calls ends, with the state that it leaves.
pub data Reply {ℓ} (S : Type ℓ) : Type ℓ where
  returned : S → Reply S
  raised : Bytes → S → Reply S
  waiting : S → Reply S

infixl 5 ◌>>=◌
abbrev pub ◌>>=◌ {ℓ} : {S : Type ℓ} → Reply S → (S → Reply S) → Reply S
returned s >>= f = f s
raised w s >>= f = raised w s
waiting s >>= f = waiting s

abbrev pub answer : AmqpCall → List AmqpCall → List (Option Bytes) → Reply Link
answer c cs [] = returned (record { fate = []; calls = c ∷ cs })
answer c cs (none ∷ fate) = returned (record { fate = fate; calls = c ∷ cs })
answer c cs (some w ∷ fate) = raised w (record { fate = fate; calls = cs })

unfoldable pub amqp_call : AmqpCall → Link → Reply Link
amqp_call c l = answer c l.calls l.fate

-- What holds of a state that is returned, and of one that an exception leaves; the calls end.
abbrev pub Ends {ℓ} : {S : Type ℓ} → (S → Type 0) → (S → Type 0) → Reply S → Type 0
Ends P R (returned s) = P s
Ends P R (raised w s) = R s
Ends P R (waiting s) = ⊥

pub Ends->>= {ℓ} :
    {S : Type ℓ} (P R P' R' : S → Type 0) (m : Reply S) (f : S → Reply S)
    → Ends P R m
    → ((s : S) → P s → Ends P' R' (f s))
    → ((s : S) → R s → R' s)
    → Ends P' R' (m >>= f)
Ends->>= P R P' R' (returned s) f h k r = k s h
Ends->>= P R P' R' (raised w s) f h k r = r s h
Ends->>= P R P' R' (waiting s) f h k r = elim h [ ]
