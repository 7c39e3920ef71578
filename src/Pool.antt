-- ===== src/Pool.antt =====
-- The connection to the indexer behind one wallet connection: `UpstreamPool` of
-- zeronym/shim/src/proxy.rs. A connection is known by a number; which ones have closed, the clock
-- in milliseconds and the outcome of a dial, its timeout included, are arguments. The lock that the
-- source holds across a dial makes the calls a sequence.
pub mod Backoff
use zero_shim.Prelude.{
  ℕ, ◌+◌, Bool, Option, none, some, List, [], ◌∷◌, ltb, if◌then◌else◌, Result, ok, err,
}
use zero_shim.Text.{Text, text}

abbrev pub dial_backoff : ℕ
dial_backoff = 100

pub record PoolState : Type 0 where
  pub live : Option ℕ
  pub backoff_until : Option ℕ

abbrev pub fresh_pool : PoolState
fresh_pool = record { live = none; backoff_until = none }

-- The surroundings of one call: the connections closed by then, the time, and how a dial would end,
-- and when.
pub record Call : Type 0 where
  pub is_closed : ℕ → Bool
  pub now : ℕ
  pub dial : Result Text ℕ
  pub dialled_at : ℕ

-- The state after a call, its result, and the dials it made.
pub record Got : Type 0 where
  pub state : PoolState
  pub result : Result Text ℕ
  pub dials : ℕ

abbrev pub backoff_message : Text
backoff_message = text "backing indexer unreachable (dial backoff)"

-- `match dialled`
dialled : Result Text ℕ → ℕ → PoolState → Got
dialled (ok upstream) at s = record {
  state = record { live = some upstream; backoff_until = none };
  result = ok upstream;
  dials = 1;
}
dialled (err e) at s = record {
  state = record s { backoff_until = some (at + dial_backoff) };
  result = err e;
  dials = 1;
}

-- From the test of the backoff on.
redial : Call → Option ℕ → PoolState → Got
unfolding dialled
redial c none s = dialled c.dial c.dialled_at s
redial c (some until) s =
    if ltb c.now until
    then record { state = s; result = err backoff_message; dials = 0 }
    else dialled c.dial c.dialled_at s

-- `state.live.take()` and the test of what it held
from_live : Call → Option ℕ → PoolState → Got
unfolding redial
from_live c none s = redial c s.backoff_until s
from_live c (some upstream) s =
    if c.is_closed upstream
    then redial c s.backoff_until (record s { live = none })
    else record { state = s; result = ok upstream; dials = 0 }

-- `UpstreamPool::get`
pub get : Call → PoolState → Got
unfolding from_live
get c s = from_live c s.live s

-- A sequence of calls: the last state, the results, and the dials in all.
pub get_all : List Call → PoolState → PoolState × List (Result Text ℕ) × ℕ
unfolding get
get_all [] s = (s, [], 0)
get_all (c ∷ cs) s =
    let now = get c s in
    let rest = get_all cs now.state in (rest.0, now.result ∷ rest.1, now.dials + rest.2)
