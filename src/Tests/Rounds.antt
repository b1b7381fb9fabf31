-- ===== src/Tests/Rounds.antt =====
-- The rounds of the poller of macOS at three events, and at two events of one channel.
use alphadb.Prelude.{
  ℕ, suc, ◌≡◌, refl, true, false, Option, none, some, [], ◌∷◌, arith, ◌==◌, if◌then◌else◌, ◌+◌,
  count,
}
use mathlib.Core.Option
use mathlib.Core.Option.{some-injective}
use alphadb.Network.Kqueue.{
  KqueuePoller, Handlers, loop, handle, remove_all, remove_channel, clear_from, is_chan,
}
use alphadb.Network.Kqueue.Freed.{Distinct}
use alphadb.Network.Kqueue.Round.{left_by, serve, loop-serve, survivor, free_all}

-- The connection of channel 7 closes itself and that of channel 5.
abbrev closing : Handlers ℕ
closing = record {
  reads = λ chan w. true;
  writes = λ chan w. false;
  on_read = λ chan w. (if chan == 7 then 7 ∷ 5 ∷ [] else [], suc w);
  on_write = λ chan w. ([], w);
}

abbrev polled : (ℕ → Option ℕ) → KqueuePoller
polled events = record {
  channels = 5 ∷ 6 ∷ 7 ∷ [];
  udata = events;
  eof = λ i. false;
  last_active = 0;
  freed = [];
}

abbrev three_events : ℕ → Option ℕ
three_events j = some (5 + j)

three_events-Distinct : Distinct 3 three_events
three_events-Distinct j k c h g e l =
    let first : 5 + j ≡ c = some-injective (5 + j) c e in
    let second : 5 + k ≡ c = some-injective (5 + k) c l in omega arith

loop-serve_example :
    Option.map left_by (loop closing 3 (polled three_events) 0)
    ≡ some (serve closing three_events (λ i. false) 3 [] 0)
loop-serve_example = loop-serve closing 3 (polled three_events) 0 refl three_events-Distinct

-- Channel 5 is freed, and not handled.
served : serve closing three_events (λ i. false) 3 [] 0 ≡ (5 ∷ 7 ∷ [], 2)
unfolding serve survivor count free_all handle
served = refl

-- The two filters of channel 7: the second event is taken after the channel is freed.
freed_is_used : loop closing 2 (polled (λ i. some 7)) 0 ≡ none
unfolding loop count remove_all handle remove_channel clear_from is_chan
freed_is_used = refl
