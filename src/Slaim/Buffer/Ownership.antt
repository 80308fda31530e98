-- ===== src/Slaim/Buffer/Ownership.antt =====
-- Who frees the blocks.
use numcore_messaging_librar.Common.{
  ℕ, ◌+◌, ◌≡◌, ◌≢◌, refl, ap, ◌∙◌, true, List, [], ◌∷◌, some, arith, Bytes, All, ◌==◌, ==_iff,
  Bool-cases, inl, inr, ◌^◌, ◌%◌, ◌-◌,
}
use numcore_messaging_librar.Outcome.{done, undefined}
use numcore_messaging_librar.Slaim.Buffer.{
  Cell, freed, live, Heap, update, load, free, BufferItem, null_item, delete, Buffer, Popped,
  pop_items, pop, destroy_items, destroy,
}

-- What is wrong with an item: reading its block, and deleting it, are undefined.
pub record IsDangling (h : Heap) (item : BufferItem) : Type 0 where
  pub address : ℕ
  pub points : item.pointer ≡ some address
  pub unreadable : load h address ≡ undefined
  pub undeletable : delete h item ≡ undefined

==_self : (p : ℕ) → (p == p) ≡ true
==_self p = (==_iff p p).1 refl

abbrev after_free : Heap → ℕ → Heap
after_free h p = record h { cell = update h.cell p freed }

update_self : (f : ℕ → Cell) (p : ℕ) (c : Cell) → update f p c p ≡ c
update_self f p c = ground arith

delete-live :
    (h : Heap) (item : BufferItem) {p : ℕ} {bytes : Bytes}
    → item.pointer ≡ some p
    → h.cell p ≡ live bytes
    → delete h item ≡ done (after_free h p, null_item)
unfolding delete free
delete-live h item e l = rw (e, l)

freed-IsDangling :
    (h : Heap) (item : BufferItem) (p : ℕ)
    → item.pointer ≡ some p
    → IsDangling (after_free h p) item
unfolding delete free load
freed-IsDangling h item p e = record {
  address = p;
  points = e;
  unreadable = rw (update_self h.cell p freed);
  undeletable = rw (e, update_self h.cell p freed);
}

abbrev popped_front : Heap → Buffer → BufferItem → List BufferItem → ℕ → Popped
popped_front h b front rest p = record {
  popped = true;
  heap = after_free h p;
  buffer = record b {
    items = rest;
    current_bytes = (b.current_bytes + 2 ^ 64 - front.m_length) % 2 ^ 64;
  };
  datum = front;
}

-- `Pop` on a buffer whose front item holds a live block succeeds, and hands out a pointer to the
-- block that it has just freed: reading it is undefined, and so is the destructor of the item.
pub pop-IsDangling :
    (h : Heap) (b : Buffer) (datum front : BufferItem) (rest : List BufferItem) (p : ℕ)
    (bytes : Bytes)
    → b.items ≡ front ∷ rest
    → front.pointer ≡ some p
    → h.cell p ≡ live bytes
    → (r : Popped) × (pop h b datum ≡ done r)
      × (r.popped ≡ true)
      × (r.datum ≡ front)
      × IsDangling r.heap r.datum
unfolding pop pop_items
pop-IsDangling h b datum front rest p bytes e e' l = (
  popped_front h b front rest p,
  ap (pop_items h b datum) e ∙ rw (delete-live h front e' l),
  refl,
  refl,
  freed-IsDangling h front p e',
)

-- A list of items each of which is the only owner of a live block.
abbrev pub Avoids : ℕ → List BufferItem → Type 0
Avoids p = All (λ item. item.pointer ≢ some p)

pub record Owns (h : Heap) (item : BufferItem) (others : List BufferItem) : Type 0 where
  pub address : ℕ
  pub bytes : Bytes
  pub points : item.pointer ≡ some address
  pub is_live : h.cell address ≡ live bytes
  pub alone : Avoids address others

abbrev pub IsOwned : Heap → List BufferItem → Type 0
IsOwned h [] = Unit {0}
IsOwned h (item ∷ items) = Owns h item items × IsOwned h items

-- Freeing one block leaves the owners of the others.
after_free-IsOwned :
    (h : Heap) (items : List BufferItem) (p : ℕ)
    → Avoids p items
    → IsOwned h items
    → IsOwned (after_free h p) items
after_free-IsOwned h [] p a o = tt
after_free-IsOwned h (item ∷ items) p a (w, o) = (
  record {
    address = w.address;
    bytes = w.bytes;
    points = w.points;
    is_live = ground arith;
    alone = w.alone;
  },
  after_free-IsOwned h items p a.1 o,
)

-- The blocks that an address list does not name are untouched, and the named ones are freed.
pub record Freed (h h' : Heap) (items : List BufferItem) : Type 0 where
  pub owned : (p : ℕ) → (¬ Avoids p items) → h'.cell p ≡ freed
  pub others : (p : ℕ) → Avoids p items → h'.cell p ≡ h.cell p

Freed-cons :
    {h h' : Heap} (item : BufferItem) (items : List BufferItem) (p : ℕ)
    → item.pointer ≡ some p
    → Avoids p items
    → Freed (after_free h p) h' items
    → Freed h h' (item ∷ items)
Freed-cons {h} {h'} item items p e a f = record {
  owned = λ q na. elim (Bool-cases (p == q)) [
    | inl same ↦ rw (← (==_iff p q).0 same) (f.others p a ∙ update_self h.cell p freed)
    | inr other ↦ f.owned q (λ av. na ((λ e'. cc (e, e', ==_self p, other)), av))
  ];
  others = λ q av. f.others q av.1 ∙ untouched q av.0;
}
  where
    untouched : (q : ℕ) → item.pointer ≢ some q → update h.cell p freed q ≡ h.cell q
    untouched q ne = ground arith

destroy_items-Freed :
    (items : List BufferItem) (h : Heap)
    → IsOwned h items
    → (h' : Heap) × (destroy_items h items ≡ done h') × Freed h h' items
unfolding destroy_items delete
destroy_items-Freed [] h o =
    (h, refl, record { owned = λ p na. absurd (na tt); others = λ p a. refl })
destroy_items-Freed (item ∷ items) h (w, o) =
    let (h', d, f) =
      destroy_items-Freed items (after_free h w.address)
        (after_free-IsOwned h items w.address w.alone o) in
    (
      h',
      rw (delete-live h item w.points w.is_live) d,
      Freed-cons item items w.address w.points w.alone f,
    )

-- `~Buffer`, which deletes each item and then runs its destructor, succeeds on a buffer each of whose
-- items is the only owner of a live block: those blocks are free afterwards, and the others as they
-- were. No block is freed twice, which would be undefined.
pub destroy-Freed :
    (h : Heap) (b : Buffer)
    → IsOwned h b.items
    → (h' : Heap) × (destroy h b ≡ done h') × Freed h h' b.items
unfolding destroy
destroy-Freed h b o = destroy_items-Freed b.items h o
