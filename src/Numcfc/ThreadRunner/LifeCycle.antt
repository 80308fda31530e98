-- ===== src/Numcfc/ThreadRunner/LifeCycle.antt =====
-- The life of a runner, from its first start to its destructor, and what a second start comes to.
use numcore_messaging_librar.Common.{
  ◌≡◌, refl, ap, Bool, true, false, ◌&&◌, List, [], ◌∷◌, ◌++◌, arith,
}
use numcore_messaging_librar.Outcome.{done, aborts}
use numcore_messaging_librar.Numcfc.ThreadRunner.{
  Thread, no_thread, finished, joinable, Impl, new_impl, notify, ask_thread_to_stop, start_thread,
  end_of, run_thread, join_first, join, is_supposed_to_stop, Event, starts, stops, notifies, ends,
  joins, happen, happen_all,
}

-- Neither a start nor a join.
abbrev pub is_calm : Event → Bool
is_calm starts = false
is_calm stops = true
is_calm notifies = true
is_calm ends = true
is_calm joins = false

abbrev pub all_calm : List Event → Bool
all_calm [] = true
all_calm (e ∷ es) = is_calm e && all_calm es

-- The thread's end, and the destructor.
abbrev pub closing : List Event
closing = ends ∷ stops ∷ joins ∷ []

abbrev pub closed : Impl
closed = record {
  thread = no_thread;
  supposed_to_stop = true;
  notified = true;
  joined_already = true;
}

end_of-end_of : (t : Thread) → joinable t ≡ true → joinable (end_of t) ≡ true
end_of-end_of t h = ground (arith, h)

end_finished : (t : Thread) → joinable t ≡ true → end_of t ≡ finished
end_finished t h = ground (arith, h)

-- Closing a runner whose thread was started, after whatever happened in between.
close_first :
    (es : List Event) (i : Impl)
    → all_calm es ≡ true
    → joinable i.thread ≡ true
    → i.joined_already ≡ false
    → happen_all i (es ++ closing) ≡ done closed
unfolding happen_all happen run_thread ask_thread_to_stop notify join join_first
close_first [] i c h j = rw (end_finished i.thread h, j)
close_first (stops ∷ es) i c h j = close_first es (ask_thread_to_stop i) c h j
close_first (notifies ∷ es) i c h j = close_first es (notify i) c h j
close_first (ends ∷ es) i c h j = close_first es (run_thread i) c (end_of-end_of i.thread h) j
close_first (starts ∷ es) i c h j = ground (arith, c)
close_first (joins ∷ es) i c h j = ground (arith, c)

close_again :
    (es : List Event) (i : Impl)
    → all_calm es ≡ true
    → joinable i.thread ≡ true
    → i.joined_already ≡ true
    → happen_all i (es ++ closing) ≡ aborts
unfolding happen_all happen run_thread ask_thread_to_stop notify join
close_again [] i c h j = rw (end_finished i.thread h, j)
close_again (stops ∷ es) i c h j = close_again es (ask_thread_to_stop i) c h j
close_again (notifies ∷ es) i c h j = close_again es (notify i) c h j
close_again (ends ∷ es) i c h j = close_again es (run_thread i) c (end_of-end_of i.thread h) j
close_again (starts ∷ es) i c h j = ground (arith, c)
close_again (joins ∷ es) i c h j = ground (arith, c)

end_of-no_thread : (t : Thread) → t ≡ no_thread → end_of t ≡ no_thread
end_of-no_thread t h = ap end_of h

close_unstarted :
    (es : List Event) (i : Impl)
    → all_calm es ≡ true
    → i.thread ≡ no_thread
    → i.joined_already ≡ false
    → happen_all i (es ++ closing) ≡ aborts
unfolding happen_all happen run_thread ask_thread_to_stop notify join join_first
close_unstarted [] i c h j = rw (end_of-no_thread i.thread h, j)
close_unstarted (stops ∷ es) i c h j = close_unstarted es (ask_thread_to_stop i) c h j
close_unstarted (notifies ∷ es) i c h j = close_unstarted es (notify i) c h j
close_unstarted (ends ∷ es) i c h j =
    close_unstarted es (run_thread i) c (end_of-no_thread i.thread h) j
close_unstarted (starts ∷ es) i c h j = ground (arith, c)
close_unstarted (joins ∷ es) i c h j = ground (arith, c)

-- A new runner that is started, sees any stops, notices and the end of its thread in any order, and
-- is destroyed once its thread has ended: no assert fails, and the thread is joined.
pub start-destroy :
    (es : List Event)
    → all_calm es ≡ true
    → happen_all new_impl (starts ∷ (es ++ closing)) ≡ done closed
unfolding happen_all happen start_thread new_impl
start-destroy es c = close_first es _ c refl refl

-- A runner that was joined and is started again can be neither joined nor destroyed: the flag of the
-- first join is still set, and an assert fails.
pub restart-aborts :
    (es : List Event) → all_calm es ≡ true → happen_all closed (starts ∷ (es ++ closing)) ≡ aborts
unfolding happen_all happen start_thread
restart-aborts es c = close_again es _ c refl refl

-- The destructor of a runner that was never started fails an assert, whatever it was told before.
pub unstarted-aborts :
    (es : List Event) → all_calm es ≡ true → happen_all new_impl (es ++ closing) ≡ aborts
unfolding new_impl
unstarted-aborts es c = close_unstarted es new_impl c refl refl

-- A stop that was asked for stays in force through any further stops, notices and the end of the
-- thread, all of which go through.
pub stop_stays :
    (es : List Event) (i : Impl)
    → all_calm es ≡ true
    → is_supposed_to_stop i ≡ true
    → (i' : Impl) × (happen_all i es ≡ done i') × (is_supposed_to_stop i' ≡ true)
unfolding happen_all happen run_thread ask_thread_to_stop notify is_supposed_to_stop
stop_stays [] i c h = (i, refl, h)
stop_stays (stops ∷ es) i c h = stop_stays es (ask_thread_to_stop i) c refl
stop_stays (notifies ∷ es) i c h = stop_stays es (notify i) c h
stop_stays (ends ∷ es) i c h = stop_stays es (run_thread i) c h
stop_stays (starts ∷ es) i c h = ground (arith, c)
stop_stays (joins ∷ es) i c h = ground (arith, c)
