-- ===== src/Refresh.antt =====
-- Live queries as a whole: the handlers and the reads of internal/cache/live_query.go, the loops
-- `debounce` of internal/live_query/runtime.go, and the response handlers that `InterceptOperation`
-- of internal/live_query/extension.go returns, one per query. Both channels of a query are
-- unbuffered, so that a send and its receipt are one step.
pub mod Sound
pub mod Trackers
pub mod Owed
pub mod Covered
pub mod Followed
pub mod Reads
pub mod Listed
pub mod Drain
use xgql.Prelude.{
  ℕ, ◌≡◌, Bool, true, false, not, ◌&&◌, ◌||◌, Option, none, some, List, [], ◌∷◌, if◌then◌else◌,
  nat_beq, exists_in,
}
use xgql.Live.Debounce.{Action, Phase, Loop, start, Event, act, tick, notify, stop}
use xgql.Live.Debounce
use xgql.Cache.LiveQueries.{LiveQueries, Object, on_add, on_update, on_delete, Read, Calls, read}
use xgql.Cache.LiveQueries

-- The response handler of a query: it resolves, its handler not nil, or waits on `Ready`.
pub data Reader : Type 0 where
  resolving waiting : Reader

-- A live query: its loop, its reader, and whether its context has ended.
pub record Query : Type 0 where
  pub loop : Loop
  pub reader : Reader
  pub done : Bool

-- withLiveQuery, and the first `next(ctx)`
unfoldable pub start_query : Query
start_query = record { loop = start; reader = Reader.resolving; done = false }

-- The queries by id. `pending` are those that the handler which holds `c.lock` has still to trigger.
pub record System : Type 0 where
  pub cache : LiveQueries
  pub queries : ℕ → Query
  pub pending : List ℕ

unfoldable pub start_system : System
start_system = record { cache = LiveQueries.new; queries = (λ i. start_query); pending = [] }

unfoldable pub set : ℕ → Query → (ℕ → Query) → ℕ → Query
set i q queries j = if nat_beq i j then q else queries j

unfoldable pub with_query : ℕ → Query → System → System
unfolding set
with_query i q s = record s { queries = set i q s.queries }

unfoldable pub with_pending : List ℕ → System → System
with_pending ids s = record s { pending = ids }

-- IsLive of a tracker: its context has not ended.
unfoldable pub live : System → ℕ → Bool
live s i = not (s.queries i).done

-- What the informers report.
pub data Change : Type 0 where
  added : Option Object → Bool → Change
  updated : Option Object → Option Object → Change
  deleted : Option Object → Change

unfoldable pub handle : (ℕ → Bool) → Change → LiveQueries → LiveQueries × List ℕ
unfolding on_add on_update on_delete
handle live (added o is_in_initial_list) c = on_add live o is_in_initial_list c
handle live (updated o n) c = on_update live o n c
handle live (deleted o) c = on_delete live o c

unfoldable pub after_change : Change → System → System
unfolding handle live
after_change ch s =
    let (c, ids) = handle (live s) ch s.cache in record s { cache = c; pending = ids }

unfoldable pub after_read : Bool → Calls → ℕ → Read → System → System
unfolding read
after_read found w i r s = record s { cache = (read found w (some i) r s.cache).0 }

-- What an observer of the responses sees.
pub data Seen : Type 0 where
  refreshed : ℕ → Seen  -- the query resolves again
  silent : Seen

unfoldable pub is_refresh : ℕ → Seen → Bool
is_refresh i (refreshed j) = nat_beq i j
is_refresh i silent = false

-- One step: a read or a handler takes `c.lock`, which is free when nothing is pending; the handler
-- triggers the next query, which blocks until the loop receives or the query is done; the reader
-- rearms after its last response, is notified, or wakes on the closed channel; the timer delivers;
-- a context ends, and its loop returns.
pub data Step (throttle : ℕ) : Seen → System → System → Type 0 where
  reads :
      {s : System} (i : ℕ) (found : Bool) (w : Calls) (r : Read)
      → s.pending ≡ []
      → (s.queries i).reader ≡ Reader.resolving
      → Step throttle silent s (after_read found w i r s)
  changes : {s : System} (ch : Change) → s.pending ≡ [] → Step throttle silent s (after_change ch s)
  triggers :
      {s : System} {l : Loop} (i now : ℕ) (ids : List ℕ)
      → s.pending ≡ i ∷ ids
      → Debounce.Step throttle (act now Action.fire) (s.queries i).loop l
      → Step throttle silent s
          (with_pending ids (with_query i (record (s.queries i) { loop = l }) s))
  skips :
      {s : System} (i : ℕ) (ids : List ℕ)
      → s.pending ≡ i ∷ ids
      → (s.queries i).done ≡ true
      → Step throttle silent s (with_pending ids s)
  rearms :
      {s : System} {l : Loop} (i now : ℕ)
      → (s.queries i).reader ≡ Reader.resolving
      → Debounce.Step throttle (act now Action.rearm) (s.queries i).loop l
      → Step throttle silent s
          (with_query i (record (s.queries i) { loop = l; reader = Reader.waiting }) s)
  gives_up :
      {s : System} (i : ℕ)
      → (s.queries i).reader ≡ Reader.resolving
      → (s.queries i).done ≡ true
      → Step throttle silent s (with_query i (record (s.queries i) { reader = Reader.waiting }) s)
  expires :
      {s : System} {l : Loop} (i now : ℕ)
      → Debounce.Step throttle (tick now) (s.queries i).loop l
      → Step throttle silent s (with_query i (record (s.queries i) { loop = l }) s)
  notifies :
      {s : System} {l : Loop} (i now : ℕ)
      → (s.queries i).reader ≡ Reader.waiting
      → Debounce.Step throttle (notify now) (s.queries i).loop l
      → Step throttle
          (refreshed i)
          s
          (with_query i (record (s.queries i) { loop = l; reader = Reader.resolving }) s)
  wakes :
      {s : System} (i : ℕ)
      → (s.queries i).reader ≡ Reader.waiting
      → (s.queries i).loop.phase ≡ Phase.closed
      → Step throttle
          (refreshed i)
          s
          (with_query i (record (s.queries i) { reader = Reader.resolving }) s)
  ends :
      {s : System} (i : ℕ)
      → Step throttle silent s (with_query i (record (s.queries i) { done = true }) s)
  returns :
      {s : System} {l : Loop} (i now : ℕ)
      → (s.queries i).done ≡ true
      → Debounce.Step throttle (stop now) (s.queries i).loop l
      → Step throttle silent s (with_query i (record (s.queries i) { loop = l }) s)

pub data Run (throttle : ℕ) : System → List Seen → System → Type 0 where
  rest : {s : System} → Run throttle s [] s
  step :
      {s t u : System} {e : Seen} {es : List Seen}
      → Step throttle e s t
      → Run throttle t es u
      → Run throttle s (e ∷ es) u
