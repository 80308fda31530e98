-- ===== src/Slaim/Segments.antt =====
-- `ExtractSingleMessage` of messaging/slaim/messaging.cpp, which takes a message off a buffer whose
-- items may each hold a part of it, over the heap of Slaim/Buffer. Of the block that the items are
-- merged in, the heap shows the bytes that have been written.
pub mod Ownerless
use numcore_messaging_librar.Common.{
  ℕ, zero, suc, ◌+◌, ◌%◌, ◌^◌, Bool, true, false, not, ◌&&◌, ◌||◌, [], ◌∷◌, ◌++◌, Option, none,
  some, Bytes, ltb, ◌==◌, if◌then◌else◌, length, take, drop, memchr, ℤ,
}
use numcore_messaging_librar.Decimal.{atoi, to_unsigned}
use numcore_messaging_librar.Outcome.{Outcome, done, aborts, out_of_fuel, ◌>>=◌}
use numcore_messaging_librar.Slaim.Message.{Message}
use numcore_messaging_librar.Slaim.Wire.{Extracted, extract_single_message_from_buffer_item}
use numcore_messaging_librar.Slaim.Buffer.{
  Heap, live, update, load, BufferItem, null_item, new_item, delete, hijack_from, Buffer,
  get_total_bytes, Popped, pop, force_push_front,
}

-- The bytes that an item points to.
unfoldable pub item_bytes : Heap → Option ℕ → ℕ → Outcome Bytes
unfolding load
item_bytes h none n = done []
item_bytes h (some p) n = load h p >>= λ bytes. done (take n bytes)

abbrev is_found : Option ℕ → Bool
is_found none = false
is_found (some i) = true

abbrev is_short : Option ℤ → Bool
is_short none = false
is_short (some n) = ltb (to_unsigned n) 5

-- A stream of which nothing is left keeps an empty block where it was cut behind a `]`.
unfoldable pub keeps_block : Bytes → Bytes → Bool
unfolding to_unsigned atoi
keeps_block d rest =
    not (length rest == 0) || is_short (atoi (drop 1 d)) && is_found (memchr d b']')

-- What is left of the stream is copied to a block of its own.
unfoldable pub cut_stream : Heap → BufferItem → Bytes → Bytes → Outcome (Heap × BufferItem)
unfolding keeps_block new_item hijack_from delete
cut_stream h item d rest =
    if length rest == length d
    then done (h, item)
    else if keeps_block d rest
    then (let (h', temp) = new_item h rest in hijack_from h' item temp >>= λ r. done (r.0, r.1))
    else delete h item

-- `ExtractSingleMessageFromBufferItem` on an item: its result, the message, the heap and the item.
unfoldable pub extract_from_item :
    Heap → BufferItem → Message → Outcome (Bool × Message × Heap × BufferItem)
unfolding item_bytes cut_stream extract_single_message_from_buffer_item
extract_from_item h item msg = item_bytes h item.pointer item.m_length >>= λ d.
    extract_single_message_from_buffer_item d msg >>= λ e.
    cut_stream h item d e.data_stream >>= λ r. done (e.message_extracted, e.msg, r.0, r.1)

-- A call's result, the heap, the buffer and the message.
pub record Received : Type 0 where
  pub message_received : Bool
  pub heap : Heap
  pub buffer : Option Buffer
  pub msg : Message

-- At the return, the destructors of `prevData` and `datum`.
unfoldable pub return_from : BufferItem → BufferItem → Received → Outcome Received
unfolding delete
return_from prev_data datum r =
    delete r.heap prev_data >>= λ a. delete a.0 datum >>= λ b. done (record r { heap = b.0 })

unfoldable pub push_rest : Buffer → BufferItem → Buffer × BufferItem
unfolding force_push_front
push_rest b item = if ltb 0 item.m_length then force_push_front b item else (b, item)

-- A block afterwards.
unfoldable pub store : Heap → Option ℕ → Bytes → Heap
store h none bytes = h
store h (some p) bytes = record h { cell = update h.cell p (live bytes) }

-- `memcpy` to the end of what `prevData` holds, then `datum.Delete()`.
unfoldable pub append_segment :
    Heap → BufferItem → BufferItem → Outcome (Heap × BufferItem × BufferItem)
unfolding item_bytes store delete
append_segment h prev_data datum = item_bytes h prev_data.pointer prev_data.m_length >>= λ before.
    item_bytes h datum.pointer datum.m_length >>= λ segment.
    delete (store h prev_data.pointer (before ++ segment)) datum >>= λ r.
    done (r.0, record prev_data { m_length = (prev_data.m_length + datum.m_length) % 2 ^ 64 }, r.1)

-- What the loop leaves: the heap, the buffer, `prevData` and `datum`.
pub record Merged : Type 0 where
  pub heap : Heap
  pub buffer : Buffer
  pub prev_data : BufferItem
  pub datum : BufferItem

-- `while (buffer->Pop(datum))`; each round takes an item off the buffer.
unfoldable pub merge_segments : ℕ → ℕ → Merged → Outcome Merged
unfolding pop append_segment
merge_segments zero size m = out_of_fuel
merge_segments (suc fuel) size m = pop m.heap m.buffer m.datum >>= λ r. elim r.popped [
  | false ↦ done m
  | true ↦ elim (ltb size ((m.prev_data.m_length + r.datum.m_length) % 2 ^ 64)) [
    | true ↦ aborts
    | false ↦ append_segment r.heap m.prev_data r.datum >>= λ s.
        merge_segments fuel size
          (record { heap = s.0; buffer = r.buffer; prev_data = s.1; datum = s.2 })
  ]
]

-- A block of `bufSize` bytes that begins with those of `datum`, which is deleted.
unfoldable pub start_merging : Heap → Buffer → BufferItem → Outcome Merged
unfolding item_bytes new_item delete
start_merging h b datum = item_bytes h datum.pointer datum.m_length >>= λ bytes.
    let (h', prev_data) = new_item h bytes in
    if ltb 0 datum.m_length
    then (delete h' datum >>= λ r.
        done (record { heap = r.0; buffer = b; prev_data = prev_data; datum = r.1 }))
    else done (record { heap = h'; buffer = b; prev_data = prev_data; datum = datum })

unfoldable pub extract_merged : Message → Merged → Outcome Received
unfolding extract_from_item push_rest return_from
extract_merged msg m = extract_from_item m.heap m.prev_data msg >>= λ x.
    let (b, prev_data) = push_rest m.buffer x.3 in
    return_from prev_data m.datum
      (record { message_received = x.0; heap = x.2; buffer = some b; msg = x.1 })

-- The first item did not hold a message.
unfoldable pub extract_from_segments : Heap → Buffer → BufferItem → Message → Outcome Received
unfolding get_total_bytes start_merging merge_segments extract_merged force_push_front return_from
extract_from_segments h b datum msg =
    let size : ℕ = (get_total_bytes b + datum.m_length) % 2 ^ 64 in
    if get_total_bytes b == 0
    then (let (b', datum') = force_push_front b datum in
        return_from null_item datum'
          (record { message_received = false; heap = h; buffer = some b'; msg = msg }))
    else if ltb 0 size
    then (start_merging h b datum >>= λ m.
        merge_segments (length b.items + 1) size m >>= λ m'. extract_merged msg m')
    else return_from null_item datum
        (record { message_received = false; heap = h; buffer = some b; msg = msg })

unfoldable pub extract_popped : Message → Popped → Outcome Received
unfolding extract_from_item push_rest extract_from_segments return_from
extract_popped msg r =
    if r.popped
    then (extract_from_item r.heap r.datum msg >>= λ x.
        let (b, datum) = push_rest r.buffer x.3 in
        if x.0
        then return_from null_item datum
            (record { message_received = true; heap = x.2; buffer = some b; msg = x.1 })
        else extract_from_segments x.2 r.buffer x.3 x.1)
    else return_from null_item r.datum
        (record { message_received = false; heap = r.heap; buffer = some r.buffer; msg = msg })

unfoldable pub extract_single_message : Heap → Option Buffer → Message → Outcome Received
unfolding pop extract_popped
extract_single_message h none msg =
    done (record { message_received = false; heap = h; buffer = none; msg = msg })
extract_single_message h (some b) msg = pop h b null_item >>= extract_popped msg
