-- ===== src/Pipeline/Registered.antt =====
-- Which venues `Register` of internal/marketdata/pipeline.go takes.
use crossvenue.Base.{Option, none, some, String, ◌≡◌, refl, string_eq}
use crossvenue.Base.Dict.{lookup}
use crossvenue.Domain.{Venue, Time}
use crossvenue.Seq.{Tracker, new_for_venue}
use crossvenue.Pipeline.{Pipeline, BookLane, register, register_new, register_found}
use crossvenue.Manager.{key}

register_found-known :
    (t : Time) (v : Venue) (s : String) (p : Pipeline) (found : Option BookLane) (tracker : Tracker)
    → new_for_venue v ≡ some tracker
    → (p' : Pipeline) × (register_found t v s p found ≡ some p')
unfolding register_found register_new
register_found-known t v s p (some l) tracker h = (p, refl)
register_found-known t v s p none tracker h = rw h (_, refl)

-- A venue that has a tracker is registered.
pub register-known :
    (t : Time) (v : Venue) (s : String) (p : Pipeline) (tracker : Tracker)
    → new_for_venue v ≡ some tracker
    → (p' : Pipeline) × (register t v s p ≡ some p')
unfolding register
register-known t v s p tracker h = register_found-known t v s p (lookup (key v s) p.lanes) tracker h
