-- ===== src/Witnesses/Serving.antt =====
-- The theorems on the serving process and its HTTP interface at concrete inputs.
use crossvenue.Base.{string_eq, true, List, [], ◌∷◌, none, ◌≡◌, ◌⊎◌, refl}
use crossvenue.Base.Int.{pos, ◌-ℤ◌, ◌+ℤ◌, ◌*ℤ◌, neg}
use crossvenue.Base.Dict.{insert, lookup}
use crossvenue.Base.Outcome.{Outcome, returns, panics}
use crossvenue.Domain.{snapshot as snapshot_event}
use crossvenue.Config.{default}
use crossvenue.Execution.{fill, transition, can_transition}
use crossvenue.Execution.Filling.{fill_against_book, fill_level, fill_levels}
use crossvenue.Execution.Simulating.{combine_legs, execute_arbitrage, submit}
use crossvenue.Journal.{record_full, trim}
use crossvenue.Manager.{get, snapshot, overlay_stale, since}
use crossvenue.Portfolio.{
  venue_exposure, total_exposure, add_buy, add_realized, add_sell, apply_buy, apply_sell, balance,
  balance_locked, position,
}
use crossvenue.Engine.State.{Times, Supervisor, leg_text, base_quote, note}
use crossvenue.Engine.Trade.{
  after_settling, before_settling, check_inventory, closed_twice, execute, finish, halt, note_fills,
  note_residual, run_orders, settle, submitted, settle_buy, settle_sell,
}
use crossvenue.Decimal.{
  mul, add, wrap64, div, from_int, sub, abs, abs64, div64, mul64, mul_bps, mul_div, mul_int, negate,
}
use crossvenue.Book.{
  new as new_book, average, load_snapshot, load_side, depth, emit, resort, snapshot as view,
}
use crossvenue.Book.Sort.{sort_levels, insert_level}
use crossvenue.Engine.Decide.{decide, mid_lookup}
use crossvenue.Risk.{check_opportunity, note_execution_result, note_order_closed, note_order_opened}
use crossvenue.Seq.{new_for_venue}
use crossvenue.Book.Walking.{walk}
use crossvenue.Witnesses.{full_snapshot}
use crossvenue.Witnesses.Trading.{two_books}
use crossvenue.Witnesses.Texts.{plain}
use Prim.Native.String.{◌++◌}
use crossvenue.Base.Dict.{IsMap}
use crossvenue.Risk.{activate_kill_switch}
use crossvenue.Pipeline.{new_pipeline, submit as submit_to}
use crossvenue.Manager.{new_manager}
use crossvenue.Pipeline.Soundness.{IsSoundPipeline}
use crossvenue.Pipeline.Interleaving.{steps, new_pipeline-IsSound}
use crossvenue.Api.{Request, kill_at, ready_at, ready_handler, book_handler, found_book}
use crossvenue.Api.Ready.{HasCurrent, ready_handler-IsCurrent}
use crossvenue.Api.Paths.{book_handler-path}
use crossvenue.Service.{Process, waiting, Act, ingests, works, sweeps, evaluates, serves, acts}
use crossvenue.Service.Halted.{AfterKill, checked, acts-IsHalted}
use crossvenue.Execution.Orders.{Holds}
use crossvenue.Service.Lanes.{steps_among, acts-steps}
use crossvenue.Witnesses.Running.{running, times}

-- A supervisor that evaluates BTC between its two venues.
abbrev trading_both : Supervisor
trading_both = record running { cfg = record default { symbols = "BTC" ∷ [] } }

abbrev kill_post : Request
kill_post = record { endpoint = kill_at; method = "POST"; path = "/api/v1/kill-switch" }

abbrev ready_get : Request
ready_get = record { endpoint = ready_at; method = "GET"; path = "/ready" }

abbrev process : Supervisor → Process plain
process s = record { recorder = none; supervisor = s; pass = waiting }

-- A pass begins, finds an opportunity and has it allowed.
abbrev before_kill : List (Times × Act)
before_kill = (times, evaluates) ∷ (times, evaluates) ∷ (times, evaluates) ∷ []

-- The trade is made behind the POST, among an ingested snapshot, a lane's work and a request.
abbrev after_kill : List (Times × Act)
after_kill =
    (times, ingests (snapshot_event (full_snapshot "okx" (pos 10))))
    ∷ (times, evaluates)
    ∷ (times, works "okx|BTC")
    ∷ (times, evaluates)
    ∷ (times, serves [] ready_get)
    ∷ []

unfoldable left_by : Outcome (Process plain) → Process plain
left_by (returns p) = p
left_by (panics _) = process trading_both

unfoldable allowed_one : Process plain
unfolding acts left_by
allowed_one = left_by (acts plain before_kill (process trading_both))

unfoldable behind_kill : Process plain
unfolding acts left_by allowed_one
behind_kill = left_by (acts plain ((times, serves [] kill_post) ∷ after_kill) allowed_one)

killed : acts plain ((times, serves [] kill_post) ∷ after_kill) allowed_one ≡ returns behind_kill
unfolding acts allowed_one behind_kill left_by submit_to activate_kill_switch new_for_venue get
    new_book walk average lookup insert ◌-ℤ◌ ◌+ℤ◌ ◌*ℤ◌ neg mul snapshot load_snapshot sort_levels
    load_side add wrap64 div from_int venue_exposure total_exposure leg_text default sub
    insert_level depth emit resort view abs abs64 div64 mul64 mul_bps mul_div mul_int negate decide
    mid_lookup base_quote note after_settling before_settling check_inventory closed_twice execute
    finish halt note_fills note_residual run_orders settle submitted combine_legs execute_arbitrage
    fill fill_against_book fill_level fill_levels submit transition record_full trim overlay_stale
    since add_buy add_realized add_sell apply_buy apply_sell balance balance_locked position
    check_opportunity note_execution_result note_order_closed note_order_opened settle_buy
    settle_sell can_transition
killed = refl

traded_behind : (behind_kill.supervisor.executed_count ≡ 1) × (checked allowed_one.pass ≡ none → ⊥)
unfolding acts allowed_one behind_kill left_by submit_to activate_kill_switch new_for_venue get
    new_book walk average lookup insert ◌-ℤ◌ ◌+ℤ◌ ◌*ℤ◌ neg mul snapshot load_snapshot sort_levels
    load_side add wrap64 div from_int venue_exposure total_exposure leg_text default sub
    insert_level depth emit resort view abs abs64 div64 mul64 mul_bps mul_div mul_int negate decide
    mid_lookup base_quote note after_settling before_settling check_inventory closed_twice execute
    finish halt note_fills note_residual run_orders settle submitted combine_legs execute_arbitrage
    fill fill_against_book fill_level fill_levels submit transition record_full trim overlay_stale
    since add_buy add_realized add_sell apply_buy apply_sell balance balance_locked position
    check_opportunity note_execution_result note_order_closed note_order_opened settle_buy
    settle_sell can_transition
traded_behind = (refl, λ e. cc)

allowed-Holds : Holds allowed_one.supervisor.exec
unfolding acts allowed_one left_by submit_to activate_kill_switch new_for_venue get new_book walk
    average lookup insert ◌-ℤ◌ ◌+ℤ◌ ◌*ℤ◌ neg mul snapshot load_snapshot sort_levels load_side add
    wrap64 div from_int venue_exposure total_exposure leg_text default sub insert_level depth emit
    resort view abs abs64 div64 mul64 mul_bps mul_div mul_int negate decide mid_lookup base_quote
    note after_settling before_settling check_inventory closed_twice execute finish halt note_fills
    note_residual run_orders settle submitted combine_legs execute_arbitrage fill fill_against_book
    fill_level fill_levels submit transition record_full trim overlay_stale since add_buy
    add_realized add_sell apply_buy apply_sell balance balance_locked position check_opportunity
    note_execution_result note_order_closed note_order_opened settle_buy settle_sell can_transition
allowed-Holds client n e = cc

acts-IsHalted_example :
    (behind_kill.supervisor.risk.kill ≡ true)
    × AfterKill (checked allowed_one.pass) allowed_one.supervisor behind_kill.supervisor
acts-IsHalted_example =
    acts-IsHalted plain times [] kill_post after_kill allowed_one behind_kill refl refl
      (refl, (refl, (refl, (refl, (refl, tt))))) allowed-Holds killed

abbrev empty_process : Process plain
empty_process = process (record trading_both { pipe = new_pipeline (pos 4) (pos 0) new_manager })

abbrev some_acts : List (Times × Act)
some_acts =
    (times, ingests (snapshot_event (full_snapshot "okx" (pos 10))))
    ∷ (times, evaluates)
    ∷ (times, works "okx|BTC")
    ∷ (times, serves [] kill_post)
    ∷ (times, evaluates)
    ∷ (times, sweeps)
    ∷ []

unfoldable behind_acts : Process plain
unfolding acts left_by
behind_acts = left_by (acts plain some_acts empty_process)

acted : acts plain some_acts empty_process ≡ returns behind_acts
unfolding acts behind_acts left_by submit_to activate_kill_switch new_for_venue get new_book walk
    average lookup insert ◌-ℤ◌ ◌+ℤ◌ ◌*ℤ◌ neg mul snapshot load_snapshot sort_levels load_side add
    wrap64 div from_int venue_exposure total_exposure leg_text default sub insert_level depth emit
    resort view abs abs64 div64 mul64 mul_bps mul_div mul_int negate decide mid_lookup base_quote
    note after_settling before_settling check_inventory closed_twice execute finish halt note_fills
    note_residual run_orders settle submitted combine_legs execute_arbitrage fill fill_against_book
    fill_level fill_levels submit transition record_full trim overlay_stale since add_buy
    add_realized add_sell apply_buy apply_sell balance balance_locked position check_opportunity
    note_execution_result note_order_closed note_order_opened settle_buy settle_sell can_transition
acted = refl

acts-steps_example :
    (behind_acts.supervisor.pipe ≡ steps (steps_among some_acts) empty_process.supervisor.pipe)
    × IsSoundPipeline behind_acts.supervisor.pipe
acts-steps_example =
    acts-steps plain some_acts empty_process behind_acts (new_pipeline-IsSound (pos 4) (pos 0))
      acted

two_books-IsMap : IsMap two_books.books
unfolding lookup
two_books-IsMap = (refl, (refl, tt))

ready_handler-IsCurrent_example :
    (((ready_handler times running).status ≡ 200)
      × HasCurrent two_books.max_age (pos 3) two_books.books)
    ⊎ (((ready_handler times running).status ≡ 503)
        × (HasCurrent two_books.max_age (pos 3) two_books.books → ⊥))
ready_handler-IsCurrent_example = ready_handler-IsCurrent times running two_books-IsMap

book_handler-path_example :
    book_handler times ("/api/v1/books/" ++ ("a" ++ ("/" ++ "BTC"))) running
    ≡ found_book times (snapshot (pos 3) "a" "BTC" 50 two_books)
book_handler-path_example = book_handler-path times "a" "BTC" running refl refl
