-- ===== src/Numrabw/PostOffice/Front/Sends.antt =====
-- A message that the client sends, up to its publishing.
use numcore_messaging_librar.Common.{
  ℕ, ◌+◌, ◌^◌, ◌<◌, ◌≡◌, ◌⊎◌, inl, inr, refl, sym, ap, ◌∙◌, Bool, true, false, List, [], ◌∷◌, ◌++◌,
  append-nil, Option, Bytes, All, All-append,
}
use numcore_messaging_librar.Outcome.{done}
use numcore_messaging_librar.Slaim.Message.{Message, get_size}
use numcore_messaging_librar.Slaim.ErrorLog.{ErrorLog, set_error}
use numcore_messaging_librar.Slaim.ErrorLog.Laws.{IsValid, set_error-done}
use numcore_messaging_librar.Numrabw.LimitedSizeBuffer.{LimitedSizeBuffer}
use numcore_messaging_librar.Numrabw.LimitedSizeBuffer.Invariant.{
  total, IsCounted, ArePositive, HasRoom, pushed, push_back_lem, push_back-IsCounted,
}
use numcore_messaging_librar.Numrabw.PostOffice.{returned}
use numcore_messaging_librar.Numrabw.PostOffice.Sender.{Sending, SendRound, send_rounds}
use numcore_messaging_librar.Numrabw.PostOffice.Sender.Delivery.{
  IsQuiet, Schedule, messages, rounds, no_throws, published, IsSound, HasSent,
  send_rounds-published,
}
use numcore_messaging_librar.Numrabw.PostOffice.Front.{Office, full_text, send}

module _ (megabytes : ℕ → Bytes) {Q : Type 0} (msg : Message) (o : Office Q) where
  -- What `Send` did, when it returns true, and when it returns false.
  abbrev pub Accepts : Type 0
  Accepts =
      HasRoom get_size o.send_buffer msg
      × (send megabytes msg o
          ≡ done (true, record o { send_buffer = pushed get_size o.send_buffer msg }))

  abbrev pub Refuses : Type 0
  Refuses =
      (¬ HasRoom get_size o.send_buffer msg)
      × ((fresh : Bool) × (log : ErrorLog) × (set_error o.error_log
              (full_text megabytes msg o.send_buffer)
            ≡ done (fresh, log))
          × (send megabytes msg o ≡ done (false, record o { error_log = log })))

  -- Of an office whose send buffer counts its bytes, with a total that stays below 2^64, and
  -- whose error log is valid, `Send` accepts a message exactly when there is room for it, and
  -- puts it behind the others. When there is none, it returns false, leaves the buffer as it is,
  -- and gives the error log the text that says so.
  pub send_lem :
      IsCounted get_size o.send_buffer
      → total get_size o.send_buffer.items + get_size msg < 2 ^ 64
      → IsValid o.error_log
      → Accepts ⊎ Refuses
  unfolding send
  send_lem v small valid = elim (push_back_lem get_size o.send_buffer msg v small) [
    | inl (room, e) ↦ inl (room, rw e refl)
    | inr (full, e) ↦
        let ((fresh, log), reported) =
          set_error-done o.error_log (full_text megabytes msg o.send_buffer) valid in
        inr (full, (fresh, log, reported, rw (e, reported) refl))
  ]

  pushed-IsSound :
      (s : Sending)
      → IsCounted get_size o.send_buffer
      → ArePositive get_size o.send_buffer.items
      → total get_size o.send_buffer.items + get_size msg < 2 ^ 64
      → 0 < get_size msg
      → HasRoom get_size o.send_buffer msg
      → s.station.send_buffer ≡ pushed get_size o.send_buffer msg
      → IsSound s (o.send_buffer.items ++ (msg ∷ []))
  pushed-IsSound s v p small some_byte room e = record {
    same = ap (λ b. b.items) e;
    counted = rw e (elim (push_back_lem get_size o.send_buffer msg v small) [
      | inl (free, accepted) ↦
          rw accepted at (push_back-IsCounted get_size o.send_buffer msg v small)
      | inr (full, refused) ↦ absurd (full room)
    ]);
    positive = All-append _ o.send_buffer.items (msg ∷ []) p (some_byte, tt);
  }

  -- From the client to the exchange: a message for which there is room is accepted, and a sender
  -- that finds the buffer so, in rounds without a throw, another call or a status, publishes it
  -- after all those that were there, each once. The buffer counts its bytes, each message has
  -- some, their total stays below 2^64, and the error log is valid.
  pub send-send_rounds :
      (timestamp : Bytes) (rate : ℕ → Bytes) (plan : Schedule) (fate : List (Option Bytes))
      (s : Sending)
      → IsCounted get_size o.send_buffer
      → ArePositive get_size o.send_buffer.items
      → total get_size o.send_buffer.items + get_size msg < 2 ^ 64
      → 0 < get_size msg
      → IsValid o.error_log
      → HasRoom get_size o.send_buffer msg
      → messages plan ≡ o.send_buffer.items ++ (msg ∷ [])
      → All (λ (p : Message × SendRound). IsQuiet s.next_status p.1) plan
      → s.link.fate ≡ no_throws plan fate
      → (o' : Office Q) × (s' : Sending) × (send megabytes msg o ≡ done (true, o'))
        × (send_rounds timestamp rate
              (rounds plan)
              (record s { station = record (s.station) { send_buffer = o'.send_buffer } })
            ≡ done (returned s'))
        × HasSent (published (o.send_buffer.items ++ (msg ∷ [])) s.link.calls) [] s'
  send-send_rounds timestamp rate plan fate s v p small some_byte valid room e q f =
      let b : LimitedSizeBuffer Message = pushed get_size o.send_buffer msg in
      let s1 : Sending = record s { station = record (s.station) { send_buffer = b } } in
      let sound = pushed-IsSound s1 v p small some_byte room refl in
      let all_of_it : messages plan ++ [] ≡ o.send_buffer.items ++ (msg ∷ []) =
        append-nil (messages plan) ∙ e in
      let (s', ran, h) =
        send_rounds-published timestamp rate plan [] fate s1 q
          (record {
            same = sound.same ∙ sym all_of_it;
            counted = sound.counted;
            positive = rw all_of_it sound.positive;
          })
          f in
      elim (send_lem v small valid) [
        | inl (free, accepted) ↦ (
          record o { send_buffer = b },
          s',
          accepted,
          ran,
          record {
            calls_made = h.calls_made ∙ ap (λ l. published l s.link.calls) e;
            items_left = h.items_left;
          },
        )
        | inr (full, refused) ↦ absurd (full room)
      ]
