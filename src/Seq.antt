-- ===== src/Seq.antt =====
-- internal/book/seq.go: the venues' sequence trackers. A tracker's methods change it in place;
-- here they return it. The interface `Tracker` is one record with a tag for its dynamic type.
pub mod Order
pub mod Gaps
use crossvenue.Base.{
  Bool, true, false, Option, none, some, String, if◌then◌else◌, ◌==◌, string_eq, ◌||◌, not,
}
use crossvenue.Base.Int.{ℤ, pos, ◌+ℤ◌, ltb_ℤ, leb_ℤ, eqb_ℤ}
use crossvenue.Decimal.{wrap64}
use crossvenue.Domain.{BookDelta, Venue, venue_binance, venue_okx, venue_bybit, venue_synthetic}

pub data Verdict : Type 0 where
  apply duplicate stale gap need_snapshot : Verdict

-- The three implementations of `Tracker`.
pub data Kind : Type 0 where
  binance okx bybit : Kind

pub record Tracker : Type 0 where
  pub kind : Kind
  pub ready : Bool
  pub last_seq : ℤ

abbrev new_tracker : Kind → Tracker
new_tracker k = record { kind = k; ready = false; last_seq = pos 0 }

-- `OnSnapshot` of the three trackers.
abbrev pub on_snapshot_binance : ℤ → Tracker → Tracker
on_snapshot_binance seq t =
    let t' = record t { ready = true } in
    if ltb_ℤ t.last_seq seq then record t' { last_seq = seq } else t'

abbrev pub on_snapshot_okx : ℤ → Tracker → Tracker
on_snapshot_okx seq t = record t { ready = true; last_seq = seq }

abbrev pub on_snapshot_bybit : ℤ → Tracker → Tracker
on_snapshot_bybit seq t = record t { ready = true; last_seq = seq }

abbrev dispatch_snapshot : Kind → ℤ → Tracker → Tracker
dispatch_snapshot binance seq t = on_snapshot_binance seq t
dispatch_snapshot okx seq t = on_snapshot_okx seq t
dispatch_snapshot bybit seq t = on_snapshot_bybit seq t

unfoldable pub on_snapshot : ℤ → Tracker → Tracker
on_snapshot seq t = dispatch_snapshot t.kind seq t

-- `t.lastSeq+1`, an int64.
abbrev pub next_seq : ℤ → ℤ
next_seq n = wrap64 (n +ℤ pos 1)

unfoldable pub check_binance : BookDelta → Tracker → Tracker × Verdict
check_binance d t =
    if not t.ready
    then (record t { ready = true; last_seq = d.sequence }, apply)
    else if leb_ℤ d.sequence t.last_seq
    then (t, duplicate)
    else if ltb_ℤ (next_seq t.last_seq) d.prev_sequence
    then (t, gap)
    else (record t { last_seq = d.sequence }, apply)

unfoldable pub check_okx : BookDelta → Tracker → Tracker × Verdict
check_okx d t =
    if not t.ready
    then (t, need_snapshot)
    else if leb_ℤ d.sequence t.last_seq
    then (t, duplicate)
    else if eqb_ℤ d.sequence (next_seq t.last_seq)
    then (record t { last_seq = d.sequence }, apply)
    else if eqb_ℤ d.prev_sequence t.last_seq
    then (record t { last_seq = d.sequence }, apply)
    else (t, gap)

unfoldable pub check_bybit : BookDelta → Tracker → Tracker × Verdict
check_bybit d t =
    if not t.ready
    then (t, need_snapshot)
    else if leb_ℤ d.sequence t.last_seq
    then (t, duplicate)
    else if eqb_ℤ d.sequence (next_seq t.last_seq)
    then (record t { last_seq = d.sequence }, apply)
    else if eqb_ℤ d.prev_sequence t.last_seq
    then (record t { last_seq = d.sequence }, apply)
    else (t, gap)

dispatch_check : Kind → BookDelta → Tracker → Tracker × Verdict
unfolding check_binance check_okx check_bybit
dispatch_check binance d t = check_binance d t
dispatch_check okx d t = check_okx d t
dispatch_check bybit d t = check_bybit d t

unfoldable pub check : BookDelta → Tracker → Tracker × Verdict
unfolding dispatch_check
check d t = dispatch_check t.kind d t

-- `NewForVenue`; `none` is its error.
unfoldable pub new_for_venue : Venue → Option Tracker
new_for_venue v =
    if v == venue_binance
    then some (new_tracker binance)
    else if v == venue_okx
    then some (new_tracker okx)
    else if v == venue_bybit
    then some (new_tracker bybit)
    else if v == venue_synthetic
    then some (new_tracker okx)
    else none
