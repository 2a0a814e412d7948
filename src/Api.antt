-- ===== src/Api.antt =====
-- internal/api/api.go: the handlers of the HTTP interface. The request's endpoint is what the
-- routes of net/http chose for its path; a handler gives the state that it leaves and its answer.
pub mod Views
pub mod Ready
pub mod Paths
use Prim.Native.Char.{Char, code}
use Prim.Native.String.{[] as no_text, ◌∷◌ as in_front}
use crossvenue.Base.{
  ℕ, suc, Bool, true, false, not, ◌&&◌, Option, none, some, List, [], ◌∷◌, map, String,
  if◌then◌else◌, eqb, ◌==◌, string_eq,
}
use crossvenue.Base.Lists.{length}
use crossvenue.Base.Dict.{Dict}
use crossvenue.Decimal.Text.{Bytes, string}
use crossvenue.Domain.{Venue, Time}
use crossvenue.Book.{SnapshotView}
use crossvenue.Manager.{all, snapshot}
use crossvenue.Opportunity.{Opportunity}
use crossvenue.Risk.{Reason, activate_kill_switch, reset_kill_switch}
use crossvenue.Portfolio.{positions, balances}
use crossvenue.Execution.Simulating.{orders}
use crossvenue.Journal.{no_aggregate}
use crossvenue.Venue.{after_prefix}
use crossvenue.Venue.Connection.{Health}
use crossvenue.Engine.State.{Times, Supervisor, halted, no_payload, note, opportunity_text}
use crossvenue.Engine.Loop.{recent_opportunities, rejections}
use Views.{
  VenueView, BookView, OpportunityView, OrderView, PositionView, BalanceView, venue_view,
  to_book_view, sort_views, to_opportunity_view, order_view, position_view, balance_view,
}

-- What an answer's JSON holds.
pub data Body : Type 0 where
  failure : String → Body
  alive : Time → Body
  ready_books : ℕ → ℕ → Body
  venue_list : List VenueView → Body
  book_list : List BookView → Body
  one_book : BookView → Body
  opportunity_list : List OpportunityView → Body
  one_opportunity : OpportunityView → Body
  order_list : List OrderView → Body
  position_list : List PositionView → Body
  balance_list : List BalanceView → Bytes → Body
  risk_state : Bool → String → ℕ → ℕ → List Reason → Body
  kill_switch : Bool → Body

pub record Response : Type 0 where
  pub status : ℕ
  pub body : Body

pub data Endpoint : Type 0 where
  alive_at ready_at venues_at books_at book_at_path opportunities_at : Endpoint
  opportunity_at_path orders_at positions_at balances_at risk_at kill_at kill_reset_at : Endpoint

pub record Request : Type 0 where
  pub endpoint : Endpoint
  pub method : String
  pub path : String

-- `writeJSON` with the status OK, and `writeErr`.
abbrev pub answer : Body → Response
answer b = record { status = 200; body = b }

abbrev pub refuse : ℕ → String → Response
refuse code message = record { status = code; body = failure message }

-- The loop of `ready`.
abbrev pub is_synchronized : SnapshotView → Bool
is_synchronized b = b.state.ready && not b.state.stale

unfoldable pub count_ready : List SnapshotView → ℕ
count_ready [] = 0
count_ready (b ∷ bs) = let rest = count_ready bs in if is_synchronized b then suc rest else rest

unfoldable pub ready_handler : Times → Supervisor → Response
unfolding count_ready
ready_handler t s =
    let views = all t.read 1 s.pipe.mgr in
    let n = count_ready views in
    if eqb n 0 then refuse 503 "no synchronized books" else answer (ready_books n (length views))

-- `booksHandler`
unfoldable pub books_handler : Times → Supervisor → Response
unfolding to_book_view sort_views
books_handler t s =
    answer (book_list (sort_views (map (to_book_view t.wall) (all t.read 10 s.pipe.mgr))))

-- `strings.TrimPrefix`
abbrev pub or_whole : String → Option String → String
or_whole s none = s
or_whole s (some rest) = rest

unfoldable pub trim_prefix : String → String → String
trim_prefix prefix s = or_whole s (after_prefix prefix s)

-- `strings.Split` at the slashes.
abbrev pub prepend : Char → List String → List String
prepend c [] = in_front c "" ∷ []
prepend c (p ∷ ps) = in_front c p ∷ ps

unfoldable pub split_slash : String → List String
split_slash no_text = "" ∷ []
split_slash (in_front c s) =
    let rest = split_slash s in if eqb (code c) b'/' then "" ∷ rest else prepend c rest

-- The rest of `bookHandler`, once the path is split.
unfoldable pub found_book : Times → Option SnapshotView → Response
unfolding to_book_view
found_book t none = refuse 404 "unknown book"
found_book t (some v) = answer (one_book (to_book_view t.wall v))

unfoldable pub book_at : Times → List String → Supervisor → Response
unfolding found_book
book_at t (v ∷ symbol ∷ []) s = found_book t (snapshot t.read v symbol 50 s.pipe.mgr)
book_at t _ s = refuse 404 "expected /api/v1/books/{venue}/{symbol}"

unfoldable pub book_handler : Times → String → Supervisor → Response
unfolding trim_prefix split_slash book_at
book_handler t path s = book_at t (split_slash (trim_prefix "/api/v1/books/" path)) s

-- `oppHandler`: the index's keys are texts in the source.
find_opportunity : String → Dict ℕ Opportunity → Option Opportunity
unfolding opportunity_text
find_opportunity id [] = none
find_opportunity id ((n, o) ∷ rest) =
    if opportunity_text n == id then some o else find_opportunity id rest

found_opportunity : Option Opportunity → Response
unfolding to_opportunity_view
found_opportunity none = refuse 404 "unknown opportunity"
found_opportunity (some o) = answer (one_opportunity (to_opportunity_view o))

unfoldable pub opportunity_handler : String → Supervisor → Response
unfolding find_opportunity found_opportunity trim_prefix
opportunity_handler path s =
    found_opportunity (find_opportunity (trim_prefix "/api/v1/opportunities/" path) s.opp_index)

-- `oppsHandler`, `ordersHandler`, `positionsHandler`, `balancesHandler` and `riskHandler`
unfoldable pub opportunities_handler : Supervisor → Response
unfolding to_opportunity_view
opportunities_handler s =
    answer (opportunity_list (map to_opportunity_view (recent_opportunities s)))

unfoldable pub orders_handler : Supervisor → Response
unfolding orders order_view
orders_handler s = answer (order_list (map order_view (orders s.exec)))

unfoldable pub positions_handler : Supervisor → Response
unfolding positions
positions_handler s = answer (position_list (map position_view (positions s.ledger)))

unfoldable pub balances_handler : Supervisor → Response
unfolding balances
balances_handler s =
    answer (balance_list (map balance_view (balances s.ledger)) (string s.ledger.realized))

unfoldable pub risk_handler : Supervisor → Response
risk_handler s = answer (
    risk_state s.risk.kill s.risk.kill_reason s.risk.outstanding s.risk.consecutive_fails
      (rejections s))

-- `killHandler` and `killResetHandler`
unfoldable pub kill_handler : Times → String → Supervisor → Supervisor × Response
unfolding activate_kill_switch note
kill_handler t method s = if not (method == "POST") then (s, refuse 405 "POST only") else (
  note t "KillSwitchActivated" "" "" no_aggregate (halted "api")
      (record s { risk = activate_kill_switch "api" s.risk }),
  answer (kill_switch true),
)

unfoldable pub kill_reset_handler : Times → String → Supervisor → Supervisor × Response
unfolding reset_kill_switch note
kill_reset_handler t method s = if not (method == "POST") then (s, refuse 405 "POST only") else (
  note t "KillSwitchReset" "" "" no_aggregate no_payload
      (record s { risk = reset_kill_switch s.risk }),
  answer (kill_switch false),
)

-- The handler of each endpoint, with the adapters that the server was given.
unfoldable pub dispatch :
    List (Venue × Health) → Times → Request → Endpoint → Supervisor → Supervisor × Response
unfolding ready_handler books_handler book_handler opportunities_handler opportunity_handler
    orders_handler positions_handler balances_handler risk_handler kill_handler kill_reset_handler
dispatch vs t r alive_at s = (s, answer (alive t.wall))
dispatch vs t r ready_at s = (s, ready_handler t s)
dispatch vs t r venues_at s = (s, answer (venue_list (map venue_view vs)))
dispatch vs t r books_at s = (s, books_handler t s)
dispatch vs t r book_at_path s = (s, book_handler t r.path s)
dispatch vs t r opportunities_at s = (s, opportunities_handler s)
dispatch vs t r opportunity_at_path s = (s, opportunity_handler r.path s)
dispatch vs t r orders_at s = (s, orders_handler s)
dispatch vs t r positions_at s = (s, positions_handler s)
dispatch vs t r balances_at s = (s, balances_handler s)
dispatch vs t r risk_at s = (s, risk_handler s)
dispatch vs t r kill_at s = kill_handler t r.method s
dispatch vs t r kill_reset_at s = kill_reset_handler t r.method s

unfoldable pub serve : List (Venue × Health) → Times → Request → Supervisor → Supervisor × Response
unfolding dispatch
serve adapters t r s = dispatch adapters t r r.endpoint s
