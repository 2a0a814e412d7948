-- ===== src/Witnesses/Running.antt =====
-- The theorems on the supervisor at concrete inputs.
use crossvenue.Base.{List, [], ◌∷◌, Option, none, true, ◌≡◌, ◌⊎◌, refl}
use crossvenue.Base.Int.{pos, ◌-ℤ◌, ◌+ℤ◌, ◌*ℤ◌, neg}
use crossvenue.Base.Dict.{insert, lookup}
use crossvenue.Base.Outcome.{Outcome, returns, panics}
use crossvenue.Domain.{MarketEvent, snapshot as snapshot_event}
use crossvenue.Config.{default}
use crossvenue.Execution.{fill, transition, can_transition}
use crossvenue.Execution.Filling.{fill_against_book, fill_level, fill_levels}
use crossvenue.Execution.Simulating.{new_simulator, combine_legs, execute_arbitrage, submit}
use crossvenue.Execution.Orders.{Holds}
use crossvenue.Journal.{new, record_full, trim}
use crossvenue.Manager.{get, snapshot, overlay_stale, since}
use crossvenue.Portfolio.{
  Ledger, venue_exposure, total_exposure, add_buy, add_realized, add_sell, apply_buy, apply_sell,
  balance, balance_locked, position,
}
use crossvenue.Replay.{Recorder}
use crossvenue.Engine.State.{Times, Supervisor, leg_text, base_quote, note}
use crossvenue.Engine.Trade.{
  maybe_execute, after_settling, before_settling, check_inventory, closed_twice, execute, finish,
  halt, note_fills, note_residual, run_orders, settle, submitted, settle_buy, settle_sell,
}
use crossvenue.Engine.Loop.{run_deterministic}
use crossvenue.Engine.Halted.{Untouched, run_deterministic-halted}
use crossvenue.Engine.Guards.{Cleared, maybe_execute-guarded}
use crossvenue.Engine.Executing.{Traded}
use crossvenue.Decimal.{
  mul, add, wrap64, div, from_int, sub, abs, abs64, div64, mul64, mul_bps, mul_div, mul_int, negate,
}
use crossvenue.Book.{
  new as new_book, average, load_snapshot, load_side, depth, emit, resort, snapshot as view,
}
use crossvenue.Book.Sort.{sort_levels, insert_level}
use crossvenue.Engine.Decide.{decide, mid_lookup}
use crossvenue.Risk.{check_opportunity, note_execution_result, note_order_closed, note_order_opened}
use crossvenue.Seq.{new_for_venue}
use crossvenue.Book.Walking.{walk}
use crossvenue.Witnesses.{full_snapshot}
use crossvenue.Witnesses.Trading.{two_books, engine, found, limits, calm}
use crossvenue.Witnesses.Texts.{plain}

abbrev pub stocked : Ledger
stocked = record {
  balances =
      (
        "a|USDT",
        record { venue = "a"; asset = "USDT"; available = pos 100000000000; reserved = pos 0 },
      )
      ∷ (
        "b|BTC",
        record { venue = "b"; asset = "BTC"; available = pos 500000000; reserved = pos 0 },
      )
      ∷ [];
  positions = [];
  realized = pos 0;
}

-- A supervisor on the two books, with inventory for a trade between them.
abbrev pub running : Supervisor
running = record {
  cfg = default;
  pipe = record {
    queue_size = 4096;
    max_book_age = pos 750000000;
    mgr = two_books;
    lanes = [];
    stale_books = 0;
  };
  opp = engine;
  opp_ctr = 1;
  limits = limits;
  risk = calm;
  exec = new_simulator;
  fee_bps = λ v. pos 10;
  ledger = stocked;
  journal = new [];
  opps = found ∷ [];
  opp_index = (1, found) ∷ [];
  rejections = [];
  executed_count = 0;
  max_recent = 256;
  venues = "a" ∷ "b" ∷ [];
  adapters = [];
  resyncs = [];
  deterministic = true;
}

abbrev pub times : Times
times = record { now = pos 3; read = pos 3; wall = pos 4 }

new-Holds : Holds new_simulator
unfolding lookup
new-Holds client n e = cc

unfoldable outcome_of : Outcome Supervisor → Supervisor
outcome_of (returns s) = s
outcome_of (panics _) = running

unfoldable after : Supervisor
unfolding maybe_execute
after = outcome_of (maybe_execute times found running)

traded : maybe_execute times found running ≡ returns after
unfolding maybe_execute after outcome_of lookup insert ◌-ℤ◌ ◌+ℤ◌ ◌*ℤ◌ neg mul snapshot load_snapshot
    sort_levels load_side add wrap64 div from_int venue_exposure total_exposure leg_text default sub
    insert_level depth emit resort view abs abs64 div64 mul64 mul_bps mul_div mul_int negate decide
    mid_lookup base_quote note after_settling before_settling check_inventory closed_twice execute
    finish halt note_fills note_residual run_orders settle submitted combine_legs execute_arbitrage
    fill fill_against_book fill_level fill_levels submit transition record_full trim overlay_stale
    since add_buy add_realized add_sell apply_buy apply_sell balance balance_locked position
    check_opportunity note_execution_result note_order_closed note_order_opened settle_buy
    settle_sell can_transition
traded = refl

after_count : after.executed_count ≡ 1
unfolding maybe_execute after outcome_of lookup insert ◌-ℤ◌ ◌+ℤ◌ ◌*ℤ◌ neg mul snapshot load_snapshot
    sort_levels load_side add wrap64 div from_int venue_exposure total_exposure leg_text default sub
    insert_level depth emit resort view abs abs64 div64 mul64 mul_bps mul_div mul_int negate decide
    mid_lookup base_quote note after_settling before_settling check_inventory closed_twice execute
    finish halt note_fills note_residual run_orders settle submitted combine_legs execute_arbitrage
    fill fill_against_book fill_level fill_levels submit transition record_full trim overlay_stale
    since add_buy add_realized add_sell apply_buy apply_sell balance balance_locked position
    check_opportunity note_execution_result note_order_closed note_order_opened settle_buy
    settle_sell can_transition
after_count = refl

-- The opportunity is traded.
maybe_execute-guarded_example :
    Holds after.exec
    × (Untouched running after ⊎ (Cleared times found running × Traded running after))
maybe_execute-guarded_example = maybe_execute-guarded times found running after new-Holds traded

abbrev halted : Supervisor
halted = record running {
  risk = record calm { kill = true; kill_reason = "drill" };
  cfg = record default { symbols = "BTC" ∷ [] };
}

abbrev event_pass : List (Times × MarketEvent)
event_pass = (times, snapshot_event (full_snapshot "okx" (pos 10))) ∷ []

unfoldable run_outcome : Outcome (Option (Recorder plain) × Supervisor) → Supervisor
run_outcome (returns r) = r.1
run_outcome (panics _) = halted

unfoldable after_run : Supervisor
unfolding run_deterministic
after_run = run_outcome (run_deterministic plain event_pass none halted)

ran : run_deterministic plain event_pass none halted ≡ returns (none, after_run)
unfolding run_deterministic after_run run_outcome new_for_venue get new_book walk average lookup
    insert ◌-ℤ◌ ◌+ℤ◌ ◌*ℤ◌ neg mul snapshot load_snapshot sort_levels load_side add wrap64 div
    from_int venue_exposure total_exposure leg_text default sub insert_level depth emit resort view
    abs abs64 div64 mul64 mul_bps mul_div mul_int negate decide mid_lookup base_quote note
    after_settling before_settling check_inventory closed_twice execute finish halt note_fills
    note_residual run_orders settle submitted combine_legs execute_arbitrage fill fill_against_book
    fill_level fill_levels submit transition record_full trim overlay_stale since add_buy
    add_realized add_sell apply_buy apply_sell balance balance_locked position check_opportunity
    note_execution_result note_order_closed note_order_opened settle_buy settle_sell can_transition
ran = refl

-- A halted supervisor applies a snapshot, detects an opportunity and does not trade it.
run_deterministic-halted_example : Untouched halted after_run
run_deterministic-halted_example =
    run_deterministic-halted plain event_pass none none halted after_run refl ran
