-- ===== src/Numrabw/Tests.antt =====
-- Runs of the numrabw model, and its theorems at concrete inputs. The items are their own sizes.
use numcore_messaging_librar.Common.{
  ℕ, ◌≡◌, ◌≢◌, ◌⊎◌, inl, refl, true, false, List, [], ◌∷◌, some, arith,
}
use numcore_messaging_librar.Outcome.{done, out_of_fuel}
use numcore_messaging_librar.Numrabw.LimitedSizeBuffer.{
  LimitedSizeBuffer, Call, pushes, pops, push_back, bytes_without, try_pop_front, pop_front,
}
use numcore_messaging_librar.Numrabw.LimitedSizeBuffer.Invariant.{
  IsCounted, HasRoom, pushed, push_back_lem,
}
use numcore_messaging_librar.Numrabw.LimitedSizeBuffer.History.{
  Happens, stop, push, pop, Happens_fifo, Succeeds, run_calls_total,
}
use numcore_messaging_librar.Numrabw.LimitedSizeBuffer.Notice.{
  waiting, pop_front_ends, pop_front_gets_pushed,
}

abbrev size : ℕ → ℕ
size n = n

abbrev half_full : LimitedSizeBuffer ℕ
half_full = record {
  max_item_count = 3;
  max_byte_count = 100;
  current_byte_count = 12;
  items = 5 ∷ 7 ∷ [];
  notified = true;
}

half_full-IsCounted : IsCounted size half_full
half_full-IsCounted = omega arith

push_back_lem_example :
    (HasRoom size half_full 9 × (push_back size half_full 9 ≡ (true, pushed size half_full 9)))
    ⊎ ((¬ HasRoom size half_full 9) × (push_back size half_full 9 ≡ (false, half_full)))
push_back_lem_example = push_back_lem size half_full 9 half_full-IsCounted (omega arith)

-- Two messages of no byte behind one of five.
abbrev weightless : LimitedSizeBuffer ℕ
weightless = record half_full { current_byte_count = 5; items = 5 ∷ 0 ∷ 0 ∷ [] }

abbrev calls : List (Call ℕ)
calls = pushes 9 ∷ pops ∷ pushes 95 ∷ pops ∷ []

happens : Happens size half_full (pushes 9 ∷ pops ∷ []) (record {
  accepted = 9 ∷ [];
  popped = 5 ∷ [];
  buffer = record half_full { items = 7 ∷ 9 ∷ []; current_byte_count = 16 };
})
unfolding push_back try_pop_front bytes_without
happens = push (pop {got = some 5} refl (stop _))

Happens_fifo_example : ◌≡◌ {A = List ℕ} (5 ∷ 7 ∷ 9 ∷ []) (5 ∷ 7 ∷ 9 ∷ [])
Happens_fifo_example = Happens_fifo size happens

run_calls_total_example : Succeeds size half_full calls
run_calls_total_example = run_calls_total size calls half_full (record {
  counted = half_full-IsCounted;
  within = record { item_limit = omega arith; byte_limit = inl (omega arith) };
  positive = omega arith;
  offers = omega arith;
  room = omega arith;
})

pop_front_ends_example :
    pop_front size (waiting 3 100) 500 (record {
      wakes =
          record { meanwhile = pushes 200 ∷ pops ∷ []; elapsed = 100; elapsed_after_sleep = 102 }
          ∷ record { meanwhile = []; elapsed = 600; elapsed_after_sleep = 600 }
          ∷ [];
      before_lock = [];
    })
    ≢ out_of_fuel
pop_front_ends_example =
    pop_front_ends size (waiting 3 100) 500
      (record { meanwhile = pushes 200 ∷ pops ∷ []; elapsed = 100; elapsed_after_sleep = 102 } ∷ [])
      (record { meanwhile = []; elapsed = 600; elapsed_after_sleep = 600 }) [] (omega arith)

pop_front_gets_pushed_example :
    pop_front size (waiting 3 100) 500 (record {
      wakes = record { meanwhile = pushes 200 ∷ []; elapsed = 100; elapsed_after_sleep = 102 } ∷ [];
      before_lock = [];
    })
    ≡ done (some 200, waiting 3 100)
pop_front_gets_pushed_example =
    pop_front_gets_pushed size 3 100 500 200 100 102 [] (omega arith) (omega arith) (omega arith)
      (omega arith)

abbrev drained : LimitedSizeBuffer ℕ
drained = record (waiting 3 100) { notified = true }
