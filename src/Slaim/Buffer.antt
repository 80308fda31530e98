-- ===== src/Slaim/Buffer.antt =====
-- messaging/slaim/buffer.h, messaging/slaim/bufferitem.h and the `Buffer` methods of
-- messaging/slaim/messaging.cpp. A `BufferItem` is a raw pointer and a length: copying it copies the
-- pointer, and its destructor frees the block, so blocks live in an explicit heap.
pub mod Ownership
pub mod Accounting
use numcore_messaging_librar.Common.{
  ℕ, suc, ◌+◌, ◌-◌, ◌%◌, ◌^◌, Bool, true, false, ◌&&◌, List, [], ◌∷◌, ◌++◌, Option, none, some,
  Bytes, ltb, ◌==◌, if◌then◌else◌, length,
}
use numcore_messaging_librar.Outcome.{Outcome, done, undefined, ◌>>=◌}

pub data Cell : Type 0 where
  unallocated freed : Cell
  live : Bytes → Cell

pub record Heap : Type 0 where
  pub next : ℕ
  pub cell : ℕ → Cell

abbrev pub update : (ℕ → Cell) → ℕ → Cell → ℕ → Cell
update f p c q = if p == q then c else f q

abbrev pub contents : Cell → Outcome Bytes
contents (live bytes) = done bytes
contents _ = undefined

-- A read through a pointer.
unfoldable pub load : Heap → ℕ → Outcome Bytes
load h p = contents (h.cell p)

-- `delete []`; a block that is not live must not be freed.
unfoldable pub free : Heap → ℕ → Outcome Heap
free h p = contents (h.cell p) >>= λ _. done (record h { cell = update h.cell p freed })

pub record BufferItem : Type 0 where
  pub pointer : Option ℕ
  pub m_length : ℕ

abbrev pub null_item : BufferItem
null_item = record { pointer = none; m_length = 0 }

-- `BufferItem(data, length)`
unfoldable pub new_item : Heap → Bytes → Heap × BufferItem
new_item h bytes = (
  record { next = h.next + 1; cell = update h.cell h.next (live bytes) },
  record { pointer = some h.next; m_length = length bytes },
)

unfoldable pub forget : BufferItem → BufferItem
forget item = null_item

unfoldable pub free_pointer : Heap → Option ℕ → BufferItem → Outcome (Heap × BufferItem)
unfolding free
free_pointer h none item = done (h, item)
free_pointer h (some p) item = free h p >>= λ h'. done (h', null_item)

-- `Delete()`, which is all that the destructor does.
unfoldable pub delete : Heap → BufferItem → Outcome (Heap × BufferItem)
unfolding free_pointer
delete h item = free_pointer h item.pointer item

-- `target.HijackFrom(item)`: the two items afterwards.
unfoldable pub hijack_from :
    Heap → BufferItem → BufferItem → Outcome (Heap × BufferItem × BufferItem)
unfolding delete forget
hijack_from h target item = delete h target >>= λ r. done (r.0, item, forget item)

pub record Buffer : Type 0 where
  pub max_items : ℕ
  pub max_bytes : ℕ
  pub current_bytes : ℕ
  pub items : List BufferItem

unfoldable pub is_empty : Buffer → Bool
is_empty b = length b.items == 0

unfoldable pub get_total_bytes : Buffer → ℕ
get_total_bytes b = b.current_bytes

-- The length is handed over as an `unsigned int`.
unfoldable pub can_push : Buffer → ℕ → Bool
can_push b length' =
    ltb (length b.items) b.max_items
    && ltb ((b.current_bytes + length' % 2 ^ 32) % 2 ^ 64) b.max_bytes

-- The result, the buffer, and the caller's item, which no longer points to the block.
unfoldable pub push : Buffer → BufferItem → Bool × Buffer × BufferItem
unfolding forget
push b datum =
    if ltb (length b.items) b.max_items
    then (if ltb ((b.current_bytes + datum.m_length) % 2 ^ 64) b.max_bytes
        then (
          true,
          record b {
            items = b.items ++ (datum ∷ []);
            current_bytes = (b.current_bytes + datum.m_length) % 2 ^ 64;
          },
          forget datum,
        )
        else (false, b, datum))
    else (false, b, datum)

pub record Popped : Type 0 where
  pub popped : Bool
  pub heap : Heap
  pub buffer : Buffer
  pub datum : BufferItem

-- `datum = m_data.front()` copies the pointer; `m_data.pop_front()` runs the destructor of the list's
-- own item, which frees the block.
unfoldable pub pop_items : Heap → Buffer → BufferItem → List BufferItem → Outcome Popped
unfolding delete
pop_items h b datum [] = done (record { popped = false; heap = h; buffer = b; datum = datum })
pop_items h b datum (front ∷ rest) = delete h front >>= λ r. done (record {
  popped = true;
  heap = r.0;
  buffer = record b {
    items = rest;
    current_bytes = (b.current_bytes + 2 ^ 64 - front.m_length) % 2 ^ 64;
  };
  datum = front;
})

unfoldable pub pop : Heap → Buffer → BufferItem → Outcome Popped
unfolding pop_items
pop h b datum = pop_items h b datum b.items

unfoldable pub force_push_front : Buffer → BufferItem → Buffer × BufferItem
unfolding forget
force_push_front b datum = (
  record b { items = datum ∷ b.items; current_bytes = (b.current_bytes + datum.m_length) % 2 ^ 64 },
  forget datum,
)

-- `~Buffer`: each item is deleted in place, and `m_data.pop_front()` runs the destructor on what that
-- has left, which deletes again.
unfoldable pub destroy_items : Heap → List BufferItem → Outcome Heap
unfolding delete
destroy_items h [] = done h
destroy_items h (item ∷ items) =
    delete h item >>= λ r. delete r.0 r.1 >>= λ s. destroy_items s.0 items

unfoldable pub destroy : Heap → Buffer → Outcome Heap
unfolding destroy_items
destroy h b = destroy_items h b.items
