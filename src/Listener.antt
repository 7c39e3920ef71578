-- ===== src/Listener.antt =====
-- The accept loop and the connections that it serves: `serve_with_shutdown`, with
-- `is_transient_accept_error`, `is_fd_exhaustion` and `serve_connection`, of
-- zeronym/shim/src/proxy.rs. What the `select!` finds ready, the end of a TLS handshake, the
-- requests of a wallet, the end of its connection and the clock in milliseconds are events. The
-- semaphore is the number of its permits; a connection task is an entry of `tasks`, which holds a
-- permit and a clone of the drain channel until it is taken out. `main` ends the process when the
-- loop returns, so nothing happens after that.
pub mod Tasks
pub mod Permits
pub mod Admission
pub mod Failures
pub mod Encryption
pub mod Drain
pub mod Isolation
pub mod Samples
use zero_shim.Prelude.{
  ℕ, zero, suc, ◌+◌, Bool, true, false, ◌||◌, Option, none, some, List, [], ◌∷◌, ◌++◌, leb, ◌==◌,
  if◌then◌else◌, Result, ok, err,
}
use zero_shim.Text.{Text}
use zero_shim.Pool.{PoolState, fresh_pool, Call, get}

abbrev pub max_inflight_connections : ℕ
max_inflight_connections = 256

abbrev pub accept_backoff : ℕ
accept_backoff = 100

abbrev pub drain_timeout : ℕ
drain_timeout = 10000

-- The `ErrorKind`s that the loop tells apart.
pub data ErrorKind : Type 0 where
  connection_aborted connection_reset interrupted other : ErrorKind

pub record IoError : Type 0 where
  pub kind : ErrorKind
  pub raw_os_error : Option ℕ

is_transient : ErrorKind → Bool
is_transient connection_aborted = true
is_transient connection_reset = true
is_transient interrupted = true
is_transient other = false

pub is_transient_accept_error : IoError → Bool
unfolding is_transient
is_transient_accept_error e = is_transient e.kind

is_exhausted : Option ℕ → Bool
is_exhausted none = false
is_exhausted (some code) = code == 23 || code == 24

pub is_fd_exhaustion : IoError → Bool
unfolding is_exhausted
is_fd_exhaustion e = is_exhausted e.raw_os_error

-- Where a connection task is: in `tls.accept`, or in `serve_connection` on a stream with or without
-- TLS.
pub data Stage : Type 0 where
  handshaking serving_plain serving_tls : Stage

-- A connection task, with the `UpstreamPool` that it makes.
pub record Connection : Type 0 where
  pub id : ℕ
  pub peer : Text
  pub stage : Stage
  pub pool : PoolState

-- `failed` is the error that the loop returns.
pub data Exit : Type 0 where
  failed : IoError → Exit
  drained drain_timed_out : Exit

-- `accepting` has the time before which the loop sleeps, `draining` that at which it gives up.
pub data Phase : Type 0 where
  accepting : (not_before : ℕ) → Phase
  draining : (deadline : ℕ) → Phase
  returned : Exit → Phase

-- `spawned` counts the tasks, and numbers them.
pub record Server : Type 0 where
  pub permits : ℕ
  pub tasks : List Connection
  pub spawned : ℕ
  pub phase : Phase

abbrev pub listening : Server
listening = record {
  permits = max_inflight_connections;
  tasks = [];
  spawned = 0;
  phase = accepting 0;
}

-- What the `select!` finds ready at a time; the end of `tls.accept`, where `ok false` is a
-- challenge that it has answered; a request on a connection, with its call of the pool if it comes
-- to one; the end of a connection; and the timer of the drain.
pub data Event : Type 0 where
  selected : (now : ℕ) (shutdown : Bool) (accepted : Option (Result IoError Text)) → Event
  tls_accepted : (id : ℕ) → Result Text Bool → Event
  requested : (id : ℕ) → Option Call → Event
  ended : (id : ℕ) → Event
  timer : (now : ℕ) → Event

pub data Effect : Type 0 where
  refused : (peer : Text) → Effect
  started : (id : ℕ) (peer : Text) → Effect
  handled : (id : ℕ) (stage : Stage) (call : Option Call) → Effect

abbrev pub task : ℕ → List Connection → Option Connection
task id [] = none
task id (c ∷ cs) = if c.id == id then some c else task id cs

abbrev pub without : ℕ → List Connection → List Connection
without id [] = []
without id (c ∷ cs) = if c.id == id then cs else c ∷ without id cs

-- The task with the number of `new` is replaced by it.
abbrev pub replaced : Connection → List Connection → List Connection
replaced new [] = []
replaced new (c ∷ cs) = if c.id == new.id then new ∷ cs else c ∷ replaced new cs

-- `live_rx.recv()` resolves when no task holds the channel.
settled : Phase → List Connection → Phase
settled (draining deadline) [] = returned drained
settled (draining deadline) (c ∷ cs) = draining deadline
settled (accepting at) cs = accepting at
settled (returned exit) cs = returned exit

-- The end of a task: its permit and its clone of the channel are dropped.
finish : ℕ → Server → Server
unfolding settled
finish id s =
    let left = without id s.tasks in
    record s { permits = s.permits + 1; tasks = left; phase = settled s.phase left }

-- `break` out of the loop.
shut : ℕ → Server → Server
unfolding settled
shut now s = record s { phase = settled (draining (now + drain_timeout)) s.tasks }

abbrev pub first_stage : Bool → Stage
first_stage true = handshaking
first_stage false = serving_plain

-- `try_acquire_owned`, and the spawn of the connection task.
admit : Bool → Text → ℕ → Server → Server × List Effect
admit tls peer zero s = (s, refused peer ∷ [])
admit tls peer (suc left) s =
    let c : Connection = record {
      id = s.spawned;
      peer = peer;
      stage = first_stage tls;
      pool = fresh_pool;
    } in
    (
      record s { permits = left; tasks = c ∷ s.tasks; spawned = suc s.spawned },
      started s.spawned peer ∷ [],
    )

accept_failed : ℕ → IoError → Server → Server
unfolding is_transient_accept_error is_fd_exhaustion
accept_failed now e s =
    if is_transient_accept_error e
    then s
    else if is_fd_exhaustion e
    then record s { phase = accepting (now + accept_backoff) }
    else record s { phase = returned (failed e) }

-- The `select!`, which looks at the shutdown first.
pub select : Bool → ℕ → Bool → Option (Result IoError Text) → Server → Server × List Effect
unfolding shut admit accept_failed
select tls now true accepted s = (shut now s, [])
select tls now false none s = (s, [])
select tls now false (some (ok peer)) s = admit tls peer s.permits s
select tls now false (some (err e)) s = (accept_failed now e s, [])

-- `match tls.accept(stream).await`
handshake : ℕ → Result Text Bool → Connection → Server → Server
unfolding finish
handshake id (ok true) c s = record s {
  tasks = replaced (record c { stage = serving_tls }) s.tasks;
}
handshake id (ok false) c s = finish id s
handshake id (err e) c s = finish id s

handshaken : ℕ → Result Text Bool → Option Connection → Server → Server
unfolding handshake
handshaken id result none s = s
handshaken id result (some c) s = elim c.stage [
  | handshaking ↦ handshake id result c s
  | serving_plain ↦ s
  | serving_tls ↦ s
]

-- The pool of a connection after a request on it.
used : Option Call → PoolState → PoolState
used none p = p
used (some call) p = (get call p).state

handle_on : Option Call → Connection → Server → Server × List Effect
unfolding used
handle_on call c s = (
  record s { tasks = replaced (record c { pool = used call c.pool }) s.tasks },
  handled c.id c.stage call ∷ [],
)

-- A request reaches a task in `serve_connection` alone.
serve : Option Call → Option Connection → Server → Server × List Effect
unfolding handle_on
serve call none s = (s, [])
serve call (some c) s = elim c.stage [
  | handshaking ↦ (s, [])
  | serving_plain ↦ handle_on call c s
  | serving_tls ↦ handle_on call c s
]

hang_up : ℕ → Option Connection → Server → Server
unfolding finish
hang_up id none s = s
hang_up id (some c) s = finish id s

expire : ℕ → Phase → Server → Server
expire now (draining deadline) s =
    if leb deadline now then record s { phase = returned drain_timed_out } else s
expire now (accepting at) s = s
expire now (returned exit) s = s

awake : Bool → ℕ → Bool → Option (Result IoError Text) → Phase → Server → Server × List Effect
unfolding select
awake tls now shutdown accepted (accepting at) s =
    if leb at now then select tls now shutdown accepted s else (s, [])
awake tls now shutdown accepted (draining deadline) s = (s, [])
awake tls now shutdown accepted (returned exit) s = (s, [])

react : Bool → Event → Server → Server × List Effect
unfolding awake handshaken serve hang_up expire
react tls (selected now shutdown accepted) s = awake tls now shutdown accepted s.phase s
react tls (tls_accepted id result) s = (handshaken id result (task id s.tasks) s, [])
react tls (requested id call) s = serve call (task id s.tasks) s
react tls (ended id) s = (hang_up id (task id s.tasks) s, [])
react tls (timer now) s = (expire now s.phase s, [])

abbrev pub is_returned : Phase → Bool
is_returned (returned exit) = true
is_returned (accepting at) = false
is_returned (draining deadline) = false

-- One event, for a listener with TLS or without.
pub step : Bool → Event → Server → Server × List Effect
unfolding react
step tls e s = if is_returned s.phase then (s, []) else react tls e s

pub run : Bool → List Event → Server → Server × List Effect
unfolding step
run tls [] s = (s, [])
run tls (e ∷ es) s =
    let now = step tls e s in let rest = run tls es now.0 in (rest.0, now.1 ++ rest.1)
