-- ===== src/Witnesses/Lanes.antt =====
-- The theorems on the pipeline's lanes at concrete inputs.
use crossvenue.Base.{[], ◌∷◌, ◌≡◌, refl, true, false}
use crossvenue.Base.Int.{pos, int_eq, ◌+ℤ◌}
use crossvenue.Decimal.{wrap64}
use crossvenue.Domain.{snapshot, delta}
use crossvenue.Seq.{Tracker, check, okx}
use crossvenue.Book.{load_snapshot, emit, snapshot as view, depth, resort, new, invalidate}
use crossvenue.Pipeline.Lane.{apply_event, on_verdict}
use crossvenue.Pipeline.Ready.{IsSound}
use crossvenue.Pipeline.Resync.{
  IsLoss, apply_event-IsLoss, event, overload, mark_as, happen_all, unready_until_snapshot,
}
use crossvenue.Witnesses.Books.{empty-IsValid}
use crossvenue.Witnesses.{delta_at, anchored, empty_book, full_book}

fresh_tracker-IsSound : (t : Tracker) → IsSound t empty_book
unfolding new
fresh_tracker-IsSound t = record {
  valid = empty-IsValid;
  current = tt;
  anchored = λ e. cc;
  agree = λ e. cc;
}

apply_event-IsLoss_example :
    IsLoss
      (delta (delta_at (pos 15) (pos 14)))
      (anchored okx (pos 10))
      (apply_event (delta (delta_at (pos 15) (pos 14))) (anchored okx (pos 10)) full_book).2
unfolding apply_event on_verdict check invalidate load_snapshot emit view depth resort new wrap64
    ◌+ℤ◌
apply_event-IsLoss_example =
    apply_event-IsLoss (delta (delta_at (pos 15) (pos 14))) (anchored okx (pos 10)) full_book refl
      refl refl

unready_until_snapshot_example :
    (happen_all
      (event (delta (delta_at (pos 11) (pos 10))) ∷ mark_as true ∷ overload ∷ [])
      (anchored okx (pos 10), empty_book)).1.state.ready
    ≡ false
unfolding new
unready_until_snapshot_example =
    unready_until_snapshot
      (event (delta (delta_at (pos 11) (pos 10))) ∷ mark_as true ∷ overload ∷ [])
      (anchored okx (pos 10)) empty_book (refl, (refl, (refl, tt))) refl
