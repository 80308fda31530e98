-- ===== src/Numrabw/PostOffice/Traffic/Outcomes.antt =====
-- What the calls of a step have done when they have ended.
use numcore_messaging_librar.Common.{
  ℕ, ◌≡◌, ◌⊎◌, inl, inr, refl, sym, ap, ◌∙◌, Bool, true, false, List, [], ◌∷◌, ◌++◌, Option, none,
  some, Bytes, arith, Bool-cases,
}
use numcore_messaging_librar.Outcome.{Outcome, done, throws, aborts, undefined, out_of_fuel, ◌>>=◌}
use numcore_messaging_librar.Slaim.Message.{Message, get_size}
use numcore_messaging_librar.Slaim.ErrorLog.{set_error}
use numcore_messaging_librar.Numrabw.LimitedSizeBuffer.{
  LimitedSizeBuffer, Popped, push_back, take_front, asserts_hold, bytes_without,
}
use numcore_messaging_librar.Numrabw.PostOffice.{
  AmqpCall, publishes, Link, Reply, returned, raised, answer, amqp_call,
}
use numcore_messaging_librar.Numrabw.PostOffice.Front.{Office, full_text, send}
use numcore_messaging_librar.Numrabw.PostOffice.Sender.{Sending, and_then, publish}
use numcore_messaging_librar.Numrabw.PostOffice.Traffic.{noted}

push_back-items :
    (b : LimitedSizeBuffer Message) (msg : Message)
    → (((push_back get_size b msg).0 ≡ true)
        × ((push_back get_size b msg).1.items ≡ b.items ++ (msg ∷ [])))
      ⊎ (((push_back get_size b msg).0 ≡ false) × ((push_back get_size b msg).1.items ≡ b.items))
unfolding push_back
push_back-items b msg = ground arith

value_or {ℓ} : {A : Type ℓ} → A → Outcome A → A
value_or a (done b) = b
value_or a (throws x) = a
value_or a aborts = a
value_or a undefined = a
value_or a out_of_fuel = a

pub done_inj {ℓ} : {A : Type ℓ} {a b : A} → done a ≡ done b → a ≡ b
unfolding value_or
done_inj {A} {a} e = ap (value_or a) e

-- A call that has ended has a value to go on with.
pub bind_done {ℓ κ} :
    {A : Type ℓ} {B : Type κ} (o : Outcome A) (f : A → Outcome B) (b : B)
    → (o >>= f) ≡ done b
    → (a : A) × (o ≡ done a) × (f a ≡ done b)
bind_done (done a) f b e = (a, refl, e)
bind_done (throws x) f b e = cc e
bind_done aborts f b e = cc e
bind_done undefined f b e = cc e
bind_done out_of_fuel f b e = cc e

-- What the client's call does to the buffer.
pub send-items :
    (megabytes : ℕ → Bytes) {Q : Type 0} (o o' : Office Q) (msg : Message) (accepted : Bool)
    → send megabytes msg o ≡ done (accepted, o')
    → o'.send_buffer.items ≡ noted accepted msg o.send_buffer.items
unfolding send
send-items megabytes {Q} o o' msg accepted e = elim (push_back-items o.send_buffer msg) [
  | inl (passed, items) ↦
      let same = done_inj (rw passed at e) in
      ap (λ (r : Bool × Office Q). r.1.send_buffer.items) (sym same)
      ∙ items
      ∙ ap (λ (r : Bool × Office Q). noted r.0 msg o.send_buffer.items) same
  | inr (failed, items) ↦
      let (r, logged, same) =
        bind_done
          (set_error o.error_log (full_text megabytes msg (push_back get_size o.send_buffer msg).1))
          _ _ (rw failed at e) in
      ap (λ (r : Bool × Office Q). r.1.send_buffer.items) (sym (done_inj same))
      ∙ items
      ∙ ap (λ (r : Bool × Office Q). noted r.0 msg o.send_buffer.items) (done_inj same)
]

-- What is taken from the buffer.
pub take_front-cases :
    (b : LimitedSizeBuffer Message) (items : List Message) (popped : Popped Message)
    → take_front get_size b items ≡ done popped
    → ((items ≡ []) × (popped ≡ (none, b)))
      ⊎ ((m : Message) × (rest : List Message) × (b' : LimitedSizeBuffer Message) × (items
            ≡ m ∷ rest)
          × (popped ≡ (some m, b'))
          × (b'.items ≡ rest))
unfolding take_front
take_front-cases b [] popped e = inl (refl, sym (done_inj e))
take_front-cases b (m ∷ rest) popped e =
    elim (Bool-cases
      (asserts_hold get_size (bytes_without get_size b m) b.current_byte_count rest)) [
        | inl hold ↦ inr (m, rest, _, refl, sym (done_inj (rw hold at e)), refl)
        | inr fail ↦ absurd (cc (rw fail at e))
      ]

-- A call of the server is recorded, or throws.
pub amqp_call-cases :
    (c : AmqpCall) (l : Link)
    → ((l' : Link) × (amqp_call c l ≡ returned l') × (l'.calls ≡ c ∷ l.calls))
      ⊎ ((w : Bytes) × (l' : Link) × (amqp_call c l ≡ raised w l') × (l'.calls ≡ l.calls))
unfolding amqp_call
amqp_call-cases c l = go l.fate
  where
    go :
        (fate : List (Option Bytes))
        → ((l' : Link) × (answer c l.calls fate ≡ returned l') × (l'.calls ≡ c ∷ l.calls))
          ⊎ ((w : Bytes) × (l' : Link) × (answer c l.calls fate ≡ raised w l')
              × (l'.calls ≡ l.calls))
    go [] = inl (_, refl, refl)
    go (none ∷ fate) = inl (_, refl, refl)
    go (some w ∷ fate) = inr (w, _, refl, refl)

-- Publishing a message, with what follows when it does not throw.
pub publish-cases :
    (s : Sending) (msg : Message) (next : Sending → Sending) (reply : Reply Sending)
    → and_then (publish msg s) (λ s'. done (returned (next s'))) ≡ done reply
    → ((l : Link) × (reply ≡ returned (next (record s { link = l })))
        × (l.calls ≡ publishes msg.text msg.type ∷ s.link.calls))
      ⊎ ((w : Bytes) × (l : Link) × (reply ≡ raised w (record s { link = l }))
          × (l.calls ≡ s.link.calls))
unfolding publish
publish-cases s msg next reply is = elim (amqp_call-cases (publishes msg.text msg.type) s.link) [
  | inl (l, called, calls) ↦ inl (l, sym (done_inj (rw called at is)), calls)
  | inr (w, l, thrown, calls) ↦ inr (w, l, sym (done_inj (rw thrown at is)), calls)
]
