-- ===== src/Slaim/Tests.antt =====
-- Runs of the slaim model, and its theorems at concrete inputs.
use numcore_messaging_librar.Common.{
  ℕ, if◌then◌else◌, ◌≡◌, ◌≢◌, ◌⊎◌, refl, true, false, [], ◌∷◌, ◌++◌, some, none, arith, Bytes,
  codes, memchr, bytes_eq, ◌==◌, if◌then◌else◌,
}
use numcore_messaging_librar.Decimal.{decimal, atoi}
use numcore_messaging_librar.Outcome.{
  Outcome, done, throws, undefined, out_of_fuel, length_error, ◌>>=◌,
}
use numcore_messaging_librar.Slaim.Message.{Message, empty_message}
use numcore_messaging_librar.Slaim.Wire.{
  contents_length, serialize_message, Extracted, extract_single_message_from_buffer_item,
  convert_message_list_to_single_message, convert_single_message_to_message_list,
}
use numcore_messaging_librar.Slaim.Wire.RoundTrip.{IsSendable, opening, extract-serialize_message}
use numcore_messaging_librar.Slaim.Wire.Malformed.{extract_throws}
use numcore_messaging_librar.Slaim.Wire.Lists.{
  convert-convert_message_list_to_single_message,
  convert_single_message_to_message_list-ne-out_of_fuel,
}
use numcore_messaging_librar.Slaim.ErrorLog.{ErrorLog, sets, gets, clears, set_error, run}
use numcore_messaging_librar.Slaim.ErrorLog.Laws.{IsValid, Sets, set_error-Sets, run-IsValid}
use numcore_messaging_librar.Slaim.Segments.{
  Merged, extract_merged, append_segment, extract_single_message,
}
use numcore_messaging_librar.Slaim.Segments.Ownerless.{extract_single_message-cases}
use numcore_messaging_librar.Slaim.Buffer.{
  load, Cell, unallocated, live, Heap, BufferItem, Buffer, Popped, pop, destroy,
}
use numcore_messaging_librar.Slaim.Buffer.Ownership.{
  IsDangling, pop-IsDangling, IsOwned, Freed, destroy-Freed,
}

abbrev reading : Message
reading = record { type = codes "temp"; text = codes "21 C" }

abbrev quiet : Message
quiet = record { type = codes "log"; text = [] }

serialize-reading : serialize_message reading ≡ codes "[12 (temp 21 C)\n]"
unfolding serialize_message contents_length decimal
serialize-reading = refl

reading-IsSendable : IsSendable reading
reading-IsSendable = omega arith

quiet-IsSendable : IsSendable quiet
quiet-IsSendable = omega arith

abbrev extracted : Message → Bytes → Outcome Extracted
extracted msg rest = done (record { message_extracted = true; msg = msg; data_stream = rest })

extract-serialize_message_example :
    extract_single_message_from_buffer_item
      (serialize_message reading ++ codes "[7 (")
      empty_message
    ≡ extracted reading (codes "[7 (")
extract-serialize_message_example =
    extract-serialize_message reading (codes "[7 (") empty_message reading-IsSendable

convert-convert_message_list_to_single_message_example :
    convert_single_message_to_message_list
      (convert_message_list_to_single_message (reading ∷ quiet ∷ []))
      []
    ≡ done (reading ∷ quiet ∷ [])
convert-convert_message_list_to_single_message_example =
    convert-convert_message_list_to_single_message (reading ∷ quiet ∷ []) []
      (reading-IsSendable, (quiet-IsSendable, tt))

abbrev garbled : Message
garbled = record { type = []; text = codes "[12 (temp 21 C)\n][3 (x)\n]junk" }

unpack-garbled : convert_single_message_to_message_list garbled [] ≡ done (reading ∷ [])
unfolding convert_single_message_to_message_list extract_single_message_from_buffer_item memchr atoi
unpack-garbled = refl

convert_single_message_to_message_list-ne-out_of_fuel_example :
    convert_single_message_to_message_list garbled [] ≢ out_of_fuel
convert_single_message_to_message_list-ne-out_of_fuel_example =
    convert_single_message_to_message_list-ne-out_of_fuel garbled []

extract_throws_example :
    extract_single_message_from_buffer_item
      (opening 6 ++ (codes "temperature" ++ (b' ' ∷ codes "21)")))
      empty_message
    ≡ throws length_error
extract_throws_example =
    extract_throws 6 (codes "temperature") (codes "21)") empty_message (omega arith) (omega arith)
      (omega arith) (omega arith) (omega arith)

abbrev full_log : ErrorLog
full_log = record { max_items = 2; errors = codes "e1" ∷ codes "e2" ∷ []; last_error = [] }

full_log-IsValid : IsValid full_log
full_log-IsValid = record { some_room = omega arith; bounded = omega arith; no_last = refl }

abbrev fresh_log : ErrorLog
fresh_log = record { max_items = 10; errors = []; last_error = [] }

fresh_log-IsValid : IsValid fresh_log
fresh_log-IsValid = record { some_room = omega arith; bounded = omega arith; no_last = refl }

set_error-overflow :
    set_error full_log (codes "e3")
    ≡ done (false, record full_log { errors = codes "e1" ∷ codes "..." ∷ [] })
unfolding set_error bytes_eq
set_error-overflow = refl

set_error-Sets_example : Sets full_log (codes "e3") (set_error full_log (codes "e3"))
set_error-Sets_example = set_error-Sets full_log (codes "e3") full_log-IsValid

run-IsValid_example :
    (log : ErrorLog) × (run full_log (sets (codes "e3") ∷ gets ∷ clears ∷ []) ≡ done log)
    × IsValid log
run-IsValid_example = run-IsValid (sets (codes "e3") ∷ gets ∷ clears ∷ []) full_log full_log-IsValid

abbrev two_cells : ℕ → Cell
two_cells p = if p == 0 then live (codes "ab") else if p == 1 then live (codes "c") else unallocated

abbrev heap : Heap
heap = record { next = 2; cell = two_cells }

abbrev first : BufferItem
first = record { pointer = some 0; m_length = 2 }

abbrev second : BufferItem
second = record { pointer = some 1; m_length = 1 }

abbrev two_items : Buffer
two_items = record {
  max_items = 100;
  max_bytes = 1000;
  current_bytes = 3;
  items = first ∷ second ∷ [];
}

abbrev no_item : BufferItem
no_item = record { pointer = none; m_length = 0 }

pop-IsDangling_example :
    (r : Popped) × (pop heap two_items no_item ≡ done r)
    × (r.popped ≡ true)
    × (r.datum ≡ first)
    × IsDangling r.heap r.datum
pop-IsDangling_example =
    pop-IsDangling heap two_items no_item first (second ∷ []) 0 (codes "ab") refl refl refl

two_items-IsOwned : IsOwned heap two_items.items
two_items-IsOwned = (
  record {
    address = 0;
    bytes = codes "ab";
    points = refl;
    is_live = refl;
    alone = ((λ e. ground arith), tt);
  },
  (record { address = 1; bytes = codes "c"; points = refl; is_live = refl; alone = tt }, tt),
)

destroy-Freed_example :
    (h : Heap) × (destroy heap two_items ≡ done h) × Freed heap h two_items.items
destroy-Freed_example = destroy-Freed heap two_items two_items-IsOwned

extract_single_message-cases_example :
    ((two_items.items ≡ [])
      × (extract_single_message heap (some two_items) quiet
          ≡ done (record {
            message_received = false;
            heap = heap;
            buffer = some two_items;
            msg = quiet;
          })))
    ⊎ ((two_items.items ≢ []) × (extract_single_message heap (some two_items) quiet ≡ undefined))
extract_single_message-cases_example =
    extract_single_message-cases heap two_items quiet two_items-IsOwned

abbrev one_empty : Buffer
one_empty = record two_items { items = no_item ∷ []; current_bytes = 0 }

-- An item without a block comes back to the buffer.
no_block :
    extract_single_message heap (some one_empty) quiet
    ≡ done (record { message_received = false; heap = heap; buffer = some one_empty; msg = quiet })
unfolding extract_single_message extract_single_message_from_buffer_item memchr
no_block = refl

abbrev in_two : Heap
in_two = record heap {
  cell = λ p.
      if p == 0
      then live (codes "[8 (a b)")
      else if p == 1
      then live (codes "\n]")
      else unallocated;
}

abbrev parts : Merged
parts = record {
  heap = in_two;
  buffer = record two_items { items = [] };
  prev_data = record first { m_length = 8 };
  datum = record second { m_length = 2 };
}

-- A block at the end of another, which is deleted.
appended :
    (append_segment in_two parts.prev_data parts.datum >>= λ r. load r.0 0)
    ≡ done (codes "[8 (a b)" ++ codes "\n]")
unfolding append_segment load
appended = refl

-- What is done with a block that holds a whole message.
merged :
    (extract_merged empty_message (record parts {
      heap = record heap { cell = λ p. live (codes "[6 (a b)\n]") };
      prev_data = record first { m_length = 10 };
      datum = no_item;
    })
      >>= λ r. done r.msg)
    ≡ done (record { type = codes "a"; text = codes "b" })
unfolding extract_merged extract_single_message_from_buffer_item memchr atoi
merged = refl
