-- ===== src/Slaim/Segments/Ownerless.antt =====
-- `ExtractSingleMessage` on buffers that own their blocks.
use numcore_messaging_librar.Common.{List, ◌≡◌, ◌≢◌, ◌⊎◌, inl, inr, refl, false, [], ◌∷◌, some}
use numcore_messaging_librar.Outcome.{done, undefined}
use numcore_messaging_librar.Slaim.Message.{Message}
use numcore_messaging_librar.Slaim.Buffer.{
  Heap, BufferItem, null_item, delete, Buffer, pop, pop_items,
}
use numcore_messaging_librar.Slaim.Buffer.Ownership.{IsOwned, Owns, IsDangling, pop-IsDangling}
use numcore_messaging_librar.Slaim.Segments.{
  extract_from_item, extract_popped, return_from, extract_single_message,
}

extract_from_item-undefined :
    (h : Heap) (item : BufferItem) (msg : Message)
    → IsDangling h item
    → extract_from_item h item msg ≡ undefined
unfolding extract_from_item
extract_from_item-undefined h item msg d = rw (d.points, d.unreadable) refl

module _ (h : Heap) (b : Buffer) (msg : Message) where
  empty-done :
      b.items ≡ []
      → extract_single_message h (some b) msg
        ≡ done (record { message_received = false; heap = h; buffer = some b; msg = msg })
  unfolding extract_single_message extract_popped pop pop_items return_from delete
  empty-done e = rw e refl

  cons-undefined :
      (front : BufferItem) (rest : List BufferItem)
      → b.items ≡ front ∷ rest
      → Owns h front rest
      → extract_single_message h (some b) msg ≡ undefined
  unfolding extract_single_message extract_popped
  cons-undefined front rest e w =
      let (r, is, popped, same, dangling) =
        pop-IsDangling h b null_item front rest w.address w.bytes e w.points w.is_live in
      rw (is, popped, extract_from_item-undefined r.heap r.datum msg dangling) refl

  abbrev Ends : Type 0
  Ends =
      ((b.items ≡ [])
        × (extract_single_message h (some b) msg
            ≡ done (record { message_received = false; heap = h; buffer = some b; msg = msg })))
      ⊎ ((b.items ≢ []) × (extract_single_message h (some b) msg ≡ undefined))

  ends-of : (items : List BufferItem) → b.items ≡ items → IsOwned h items → Ends
  ends-of [] e o = inl (e, empty-done e)
  ends-of (front ∷ rest) e o =
      inr ((λ none_left. cc (e, none_left)), cons-undefined front rest e o.0)

-- On a buffer that owns its blocks, each of which is live, the call never gives out a message: where
-- the buffer is empty it returns false and leaves everything as it was, and else it reads the block
-- that Pop has just freed.
pub extract_single_message-cases :
    (h : Heap) (b : Buffer) (msg : Message)
    → IsOwned h b.items
    → ((b.items ≡ [])
        × (extract_single_message h (some b) msg
            ≡ done (record { message_received = false; heap = h; buffer = some b; msg = msg })))
      ⊎ ((b.items ≢ []) × (extract_single_message h (some b) msg ≡ undefined))
extract_single_message-cases h b msg o = ends-of h b msg b.items refl o
