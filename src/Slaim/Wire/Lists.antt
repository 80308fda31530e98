-- ===== src/Slaim/Wire/Lists.antt =====
-- Message lists packed into one message and taken out again.
use numcore_messaging_librar.Common.{
  ℕ, zero, suc, ◌+◌, ◌≤◌, ◌<◌, ◌≡◌, ◌≢◌, refl, ◌∙◌, true, List, [], ◌∷◌, ◌++◌, append_assoc,
  append-nil, Option, none, some, inl, inr, arith, Bytes, All, length, length-append, length-drop,
  memchr, drop, Bool-cases, ℤ,
}
use numcore_messaging_librar.Decimal.{atoi, to_unsigned}
use numcore_messaging_librar.Outcome.{Outcome, done, throws, aborts, undefined, out_of_fuel}
use numcore_messaging_librar.Slaim.Message.{Message, empty_message}
use numcore_messaging_librar.Slaim.Wire.{
  serialize_message, Extracted, extract_contents, extract_announced, extract_measured,
  extract_located, extract_single_message_from_buffer_item, concat_serialized,
  convert_message_list_to_single_message, extract_all, convert_single_message_to_message_list,
}
use numcore_messaging_librar.Slaim.Wire.RoundTrip.{IsSendable, extract-serialize_message}

-- A successful extraction shortens the stream; the call itself always ends.
abbrev pub Shortens : Bytes → Outcome Extracted → Type 0
Shortens d (done e) = e.message_extracted ≡ true → length e.data_stream < length d
Shortens d (throws x) = Unit
Shortens d aborts = Unit
Shortens d undefined = Unit
Shortens d out_of_fuel = ⊥

module _ (d : Bytes) (msg : Message) where
  extract_contents-Shortens :
      (type_start data_end : ℕ) (blank : Option ℕ)
      → 1 ≤ data_end
      → data_end ≤ length d
      → Shortens d (extract_contents d msg type_start data_end blank)
  unfolding extract_contents
  extract_contents-Shortens type_start data_end none h k = λ e. cc
  extract_contents-Shortens type_start data_end (some i) h k =
      ground (arith, length-drop data_end d)

  extract_announced-Shortens :
      (length_end n : ℕ) → Shortens d (extract_announced d msg length_end n)
  unfolding extract_announced
  extract_announced-Shortens length_end n =
      let start = length_end + 2 in
      ground (arith, extract_contents-Shortens start (start + n) (memchr (drop start d) b' '))

  extract_measured-Shortens :
      (length_end : ℕ) (n : Option ℤ) → Shortens d (extract_measured d msg length_end n)
  unfolding extract_measured
  extract_measured-Shortens length_end none = tt
  extract_measured-Shortens length_end (some n) =
      extract_announced-Shortens length_end (to_unsigned n)

  pub extract-Shortens : Shortens d (extract_single_message_from_buffer_item d msg)
  unfolding extract_single_message_from_buffer_item
  extract-Shortens = located (memchr d b' ')
    where
      located : (i : Option ℕ) → Shortens d (extract_located d msg i)
      located none = λ e. cc
      located (some i) = extract_measured-Shortens i (atoi (drop 1 d))

-- One round more than there are bytes is enough.
pub extract_all-ne-out_of_fuel :
    (fuel : ℕ) (d : Bytes) (msg : Message) (lst : List Message)
    → length d < fuel
    → extract_all fuel d msg lst ≢ out_of_fuel
unfolding extract_all
extract_all-ne-out_of_fuel zero d msg lst h = elim h [ ]
extract_all-ne-out_of_fuel (suc fuel) d msg lst h =
    go (extract_single_message_from_buffer_item d msg) refl (extract-Shortens d msg)
      (extract_all-ne-out_of_fuel fuel)
  where
    go :
        (r : Outcome Extracted)
        → extract_single_message_from_buffer_item d msg ≡ r
        → Shortens d r
        → ((d' : Bytes) (msg' : Message) (lst' : List Message)
            → length d' < fuel
            → extract_all fuel d' msg' lst' ≢ out_of_fuel)
        → extract_all (suc fuel) d msg lst ≢ out_of_fuel
    go (throws x) e s ih = rw (e, extract_all) (λ p. cc)
    go aborts e s ih = rw (e, extract_all) (λ p. cc)
    go undefined e s ih = rw (e, extract_all) (λ p. cc)
    go out_of_fuel e s ih = absurd s
    go (done r) e s ih = elim (Bool-cases r.message_extracted) [
      | inl more ↦
          rw (e, extract_all)
            (rw more (ih r.data_stream r.msg (lst ++ (r.msg ∷ [])) (omega (arith, s more))))
      | inr last ↦ rw (e, extract_all) (rw last (λ p. cc))
    ]

-- Unpacking ends for every message: the loop never runs out of rounds.
pub convert_single_message_to_message_list-ne-out_of_fuel :
    (msg : Message) (lst : List Message)
    → convert_single_message_to_message_list msg lst ≢ out_of_fuel
unfolding convert_single_message_to_message_list
convert_single_message_to_message_list-ne-out_of_fuel msg lst =
    extract_all-ne-out_of_fuel (length msg.text + 1) msg.text empty_message lst (omega arith)

-- One round of the loop on a serialized message.
extract_all-serialize_message :
    (fuel : ℕ) (m : Message) (rest : Bytes) (msg : Message) (lst : List Message)
    → IsSendable m
    → extract_all (suc fuel) (serialize_message m ++ rest) msg lst
      ≡ extract_all fuel rest m (lst ++ (m ∷ []))
unfolding extract_all
extract_all-serialize_message fuel m rest msg lst h =
    rw (extract-serialize_message m rest msg h, extract_all)

extract_all-concat_serialized :
    (ms : List Message) (fuel : ℕ) (msg : Message) (lst : List Message)
    → All IsSendable ms
    → length ms < fuel
    → extract_all fuel (concat_serialized ms) msg lst ≡ done (lst ++ ms)
unfolding concat_serialized extract_all
extract_all-concat_serialized ms zero msg lst h k = elim k [ ]
extract_all-concat_serialized [] (suc fuel) msg lst h k =
    rw append-nil (unfold extract_single_message_from_buffer_item memchr in refl)
extract_all-concat_serialized (m ∷ ms) (suc fuel) msg lst h k =
    extract_all-serialize_message fuel m (concat_serialized ms) msg lst h.0
    ∙ extract_all-concat_serialized ms fuel m (lst ++ (m ∷ [])) h.1 (omega arith)
    ∙ rw append_assoc

-- Every serialized message takes at least one byte.
length-concat_serialized : (ms : List Message) → length ms ≤ length (concat_serialized ms)
unfolding concat_serialized serialize_message
length-concat_serialized [] = omega arith
length-concat_serialized (m ∷ ms) = omega (
  arith,
  length-concat_serialized ms,
  length-append {0} (serialize_message m) (concat_serialized ms),
)

-- A list of sendable messages comes back whole and in order, behind what the list held before.
pub convert-convert_message_list_to_single_message :
    (ms lst : List Message)
    → All IsSendable ms
    → convert_single_message_to_message_list (convert_message_list_to_single_message ms) lst
      ≡ done (lst ++ ms)
unfolding convert_single_message_to_message_list convert_message_list_to_single_message
convert-convert_message_list_to_single_message ms lst h =
    extract_all-concat_serialized ms _ empty_message lst h
      (omega (arith, length-concat_serialized ms))
