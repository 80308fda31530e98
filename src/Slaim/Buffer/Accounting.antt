-- ===== src/Slaim/Buffer/Accounting.antt =====
-- The byte count and the limits of the buffer.
use numcore_messaging_librar.Common.{
  ℕ, ◌+◌, ◌%◌, ◌^◌, ◌≡◌, ◌<◌, true, false, List, [], ◌∷◌, ◌++◌, arith, if◌then◌else◌,
}
use numcore_messaging_librar.Slaim.Buffer.{
  BufferItem, Buffer, null_item, can_push, push, forget, force_push_front,
}

abbrev pub total : List BufferItem → ℕ
total [] = 0
total (item ∷ items) = item.m_length + total items

pub total-append : (xs ys : List BufferItem) → total (xs ++ ys) ≡ total xs + total ys
total-append [] ys = omega arith
total-append (x ∷ xs) ys = omega (arith, total-append xs ys)

-- The count is that of the items, up to the wrap-round of `size_t`.
abbrev pub IsCounted : Buffer → Type 0
IsCounted b = b.current_bytes ≡ total b.items % 2 ^ 64

-- `Push` of an item of less than 2^32 bytes does what `CanPush` of its length announces: the item
-- becomes the last, its bytes are counted, and the caller's item no longer points to its block;
-- otherwise nothing changes.
pub push-can_push :
    (b : Buffer) (datum : BufferItem)
    → datum.m_length < 2 ^ 32
    → push b datum ≡ (
        if can_push b datum.m_length
        then (
          true,
          record b {
            items = b.items ++ (datum ∷ []);
            current_bytes = (b.current_bytes + datum.m_length) % 2 ^ 64;
          },
          null_item,
        )
        else (false, b, datum))
unfolding push can_push forget
push-can_push b datum h = ground arith

pub push-IsCounted : (b : Buffer) (datum : BufferItem) → IsCounted b → IsCounted (push b datum).1
unfolding push
push-IsCounted b datum h = ground (arith, total-append b.items (datum ∷ []))

pub force_push_front-IsCounted :
    (b : Buffer) (datum : BufferItem) → IsCounted b → IsCounted (force_push_front b datum).0
unfolding force_push_front
force_push_front-IsCounted b datum h = omega arith
