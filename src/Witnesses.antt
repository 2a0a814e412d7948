-- ===== src/Witnesses.antt =====
-- Concrete inputs on which the theorems are applied: a few levels, deltas, books and orders.
pub mod Sequences
pub mod Books
pub mod Lanes
pub mod Trading
pub mod Settlement
pub mod Orders
pub mod Texts
pub mod Running
pub mod Feeds
pub mod Serving
pub mod Operating
pub mod Replaying
use crossvenue.Base.{String, List, [], ◌∷◌, true, false, none, some}
use crossvenue.Base.Int.{ℤ, pos}
use crossvenue.Domain.{Level, BookSnapshot, BookDelta, Venue}
use crossvenue.Seq.{Tracker, Kind, okx, binance}
use crossvenue.Book.{Book, load_snapshot}
use crossvenue.Manager.{fresh}

abbrev pub level : ℤ → ℤ → Level
level p q = record { price = p; qty = q }

-- Deltas of one update each, with a bid that is removed and an ask that is written.
abbrev pub delta_at : ℤ → ℤ → BookDelta
delta_at seq prev = record {
  venue = "okx";
  symbol = "BTC";
  bids = level (pos 9900000000) (pos 0) ∷ [];
  asks = level (pos 10200000000) (pos 300000000) ∷ [];
  sequence = seq;
  prev_sequence = prev;
  exchange_time = pos 5;
  receive_time = pos 6;
}

-- Bids 100 and 99, asks 101 and 102, each with quantity 2, by sequence number and venue.
abbrev pub full_snapshot : Venue → ℤ → BookSnapshot
full_snapshot v seq = record {
  venue = v;
  symbol = "BTC";
  bids = level (pos 9900000000) (pos 200000000) ∷ level (pos 10000000000) (pos 200000000) ∷ [];
  asks = level (pos 10200000000) (pos 200000000) ∷ level (pos 10100000000) (pos 200000000) ∷ [];
  sequence = seq;
  exchange_time = pos 1;
  receive_time = pos 2;
}

abbrev pub anchored : Kind → ℤ → Tracker
anchored k n = record { kind = k; ready = true; last_seq = n }

-- A book that the manager made, before and after the snapshot.
abbrev pub empty_book : Book
empty_book = fresh (pos 0) "okx" "BTC"

abbrev pub full_book : Book
full_book = load_snapshot (full_snapshot "okx" (pos 10)) empty_book
