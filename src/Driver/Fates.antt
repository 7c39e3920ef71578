-- ===== src/Driver/Fates.antt =====
-- What a turn of the driver makes of the frame in flight and of the frame that it takes
-- (`run_driver` of zeronym/shim/src/nym_driver.rs).
use zero_shim.Prelude.{
  ℕ, suc, ◌+◌, ◌≤◌, ◌≡◌, refl, sym, ap, ◌∙◌, inl, inr, Bool, true, false, ◌&&◌, Option, none, some,
  List, [], ◌∷◌, ◌++◌, map, append-nil, arith, if◌then◌else◌, Bool-cases, Result, ok, err,
}
use zero_shim.Text.{Text}
use zero_shim.Bytes.{Bytes}
use zero_shim.Correlator.{OutFrame}
use zero_shim.Supervisor.{rebuild, disconnect}
use zero_shim.Status.{MixnetStatus, record_inbound}
use zero_shim.Driver.{
  Sending, frame_send, probe_send, Phase, running, first_awaited, awaited, stopped, Driver, Effect,
  died_reported, disconnected, built, send_over, delivered, Event, probe_tick, commanded,
  frame_taken, send_done, messages, adopt, build_failed, rebuild_step, told_step, stop, probe_step,
  sent_step, sent_effects, receive, run_step, wait_step, enabled, in_phase, step,
}

-- The frames whose call of `send_frame` has returned, among the effects.
abbrev pub sent_of : Effect → List OutFrame
sent_of (send_over out) = out ∷ []
sent_of died_reported = []
sent_of disconnected = []
sent_of (built gateway) = []
sent_of (delivered bytes) = []

abbrev pub sends : List Effect → List OutFrame
sends [] = []
sends (f ∷ fs) = sent_of f ++ sends fs

-- The frame in flight.
abbrev pub held : Option Sending → List OutFrame
held none = []
held (some (frame_send out)) = out ∷ []
held (some probe_send) = []

-- The frame that an arm takes from the queue.
abbrev taken_of : Event → List OutFrame
taken_of (frame_taken (some out)) = out ∷ []
taken_of (frame_taken none) = []
taken_of (probe_tick backlog) = []
taken_of (commanded c build) = []
taken_of send_done = []
taken_of (messages ms) = []

abbrev is_running : Phase → Bool
is_running running = true
is_running first_awaited = false
is_running awaited = false
is_running stopped = false

abbrev pub taken_up : Event → Driver → List OutFrame
taken_up e s = if enabled e s && is_running s.phase then taken_of e else []

abbrev pub all_taken_up : List Event → Driver → List OutFrame
all_taken_up [] s = []
all_taken_up (e ∷ es) s = taken_up e s ++ all_taken_up es (step e s).0

-- A command, the end of the queue, or the end of the messages.
abbrev pub tears : Event → ℕ
tears (commanded c build) = 1
tears (frame_taken none) = 1
tears (messages none) = 1
tears (frame_taken (some out)) = 0
tears (probe_tick backlog) = 0
tears send_done = 0
tears (messages (some ms)) = 0

abbrev pub all_tears : List Event → ℕ
all_tears [] = 0
all_tears (e ∷ es) = tears e + all_tears es

-- A frame with whether its call of `send_frame` returned.
abbrev pub Fates : Type 0
Fates = List (Bool × OutFrame)

abbrev pub frames_of : Fates → List OutFrame
frames_of = map (λ x. x.1)

abbrev pub finished : Fates → List OutFrame
finished [] = []
finished ((true, out) ∷ fs) = out ∷ finished fs
finished ((false, out) ∷ fs) = finished fs

abbrev pub abandoned : Fates → ℕ
abandoned [] = 0
abandoned ((true, out) ∷ fs) = abandoned fs
abandoned ((false, out) ∷ fs) = suc (abandoned fs)

-- Each frame, in flight before or taken, has its call of `send_frame` returned, or abandoned, or in
-- flight after, in this order; at most as many as `torn` are abandoned.
abbrev pub Accounts : Option Sending → List OutFrame → ℕ → Driver × List Effect → Type 0
Accounts before taken torn after =
    (fates : Fates) × (frames_of fates ++ held after.0.in_flight ≡ held before ++ taken)
    × (sends after.1 ≡ finished fates)
    × (abandoned fates ≤ torn)

-- No send is over, and the frame in flight stays.
pub unmoved :
    (o : Option Sending) (torn : ℕ) (r : Driver × List Effect)
    → held r.0.in_flight ≡ held o
    → sends r.1 ≡ []
    → Accounts o [] torn r
unmoved o torn r q e = ([], q ∙ sym (append-nil (held o)), e, omega arith)

-- No send is over, and that of the frame in flight is abandoned.
let_go :
    (o : Option Sending) (r : Driver × List Effect)
    → held r.0.in_flight ≡ []
    → sends r.1 ≡ []
    → Accounts o [] 1 r
let_go none r q e = ([], q, e, omega arith)
let_go (some (frame_send out)) r q e = ((false, out) ∷ [], ap (λ l. out ∷ l) q, e, omega arith)
let_go (some probe_send) r q e = ([], q, e, omega arith)

pub receive-sends : (ms : List (ℕ × Bytes)) (st : MixnetStatus) → sends (receive ms st).1 ≡ []
unfolding receive
receive-sends [] st = refl
receive-sends ((now, []) ∷ ms) st = receive-sends ms (record_inbound now true st)
receive-sends ((now, b ∷ bs) ∷ ms) st = receive-sends ms (record_inbound now false st)

module _ (s : Driver) where
  rebuild_step-accounts : (b : Result Text Text) → Accounts s.in_flight [] 1 (rebuild_step b s)
  unfolding rebuild_step adopt build_failed
  rebuild_step-accounts (ok a) = let_go s.in_flight (rebuild_step (ok a) s) refl refl
  rebuild_step-accounts (err e) = let_go s.in_flight (rebuild_step (err e) s) refl refl

  told_step-accounts :
      (p : Phase) (b : Result Text Text) → Accounts s.in_flight [] 1 (told_step p b s)
  unfolding told_step adopt build_failed
  told_step-accounts running (ok a) = let_go s.in_flight (told_step running (ok a) s) refl refl
  told_step-accounts first_awaited (ok a) =
      unmoved s.in_flight 1 (told_step first_awaited (ok a) s) refl refl
  told_step-accounts awaited (ok a) = let_go s.in_flight (told_step awaited (ok a) s) refl refl
  told_step-accounts stopped (ok a) = let_go s.in_flight (told_step stopped (ok a) s) refl refl
  told_step-accounts p (err e) = let_go s.in_flight (told_step p (err e) s) refl refl

  stop-accounts : (fs : List Effect) → sends fs ≡ [] → Accounts s.in_flight [] 1 (stop fs s)
  unfolding stop
  stop-accounts fs e = let_go s.in_flight (stop fs s) refl e

  sent_step-accounts :
      (o : Option Sending) → s.in_flight ≡ o → Accounts o [] 0 (sent_step o s, sent_effects o)
  unfolding sent_step sent_effects
  sent_step-accounts none q = ([], ap held q, refl, omega arith)
  sent_step-accounts (some (frame_send out)) q = ((true, out) ∷ [], refl, refl, omega arith)
  sent_step-accounts (some probe_send) q = ([], refl, refl, omega arith)

  probe_step-quiet :
      (backlog : ℕ)
      → s.in_flight ≡ none
      → (held (probe_step backlog s).0.in_flight ≡ []) × (sends (probe_step backlog s).1 ≡ [])
  unfolding probe_step
  probe_step-quiet backlog q = (ground arith, ground arith)

  -- A probe or a frame is taken up only with nothing in flight.
  probe_free : (backlog : ℕ) → enabled (probe_tick backlog) s ≡ true → s.in_flight ≡ none
  unfolding enabled
  probe_free backlog h = by s.in_flight refl
    where
      by : (o : Option Sending) → s.in_flight ≡ o → s.in_flight ≡ none
      by none q = q
      by (some x) q = absurd (ground arith)

  run_step-accounts :
      (e : Event) → enabled e s ≡ true → Accounts s.in_flight (taken_of e) (tears e) (run_step e s)
  unfolding run_step
  run_step-accounts (probe_tick backlog) h =
      let q = probe_free backlog h in
      let w = probe_step-quiet backlog q in
      unmoved s.in_flight 0 (probe_step backlog s) (w.0 ∙ sym (ap held q)) w.1
  run_step-accounts (commanded (some rebuild) b) h = rebuild_step-accounts b
  run_step-accounts (commanded (some disconnect) b) h = stop-accounts (disconnected ∷ []) refl
  run_step-accounts (commanded none b) h = stop-accounts (disconnected ∷ []) refl
  run_step-accounts (frame_taken (some out)) h =
      let q : s.in_flight ≡ none = probe_free 0 (unfold enabled in h) in
      ([], ap (λ o. held o ++ (out ∷ [])) (sym q), refl, omega arith)
  run_step-accounts (frame_taken none) h = stop-accounts (disconnected ∷ []) refl
  run_step-accounts send_done h = sent_step-accounts s.in_flight refl
  run_step-accounts (messages (some ms)) h =
      unmoved s.in_flight 0 (run_step (messages (some ms)) s) refl (receive-sends ms s.status)
  run_step-accounts (messages none) h = let_go s.in_flight (run_step (messages none) s) refl refl

  wait_step-accounts : (p : Phase) (e : Event) → Accounts s.in_flight [] (tears e) (wait_step p e s)
  unfolding wait_step
  wait_step-accounts p (commanded (some rebuild) b) = told_step-accounts p b
  wait_step-accounts p (commanded (some disconnect) b) = stop-accounts [] refl
  wait_step-accounts p (commanded none b) = stop-accounts [] refl
  wait_step-accounts p (probe_tick backlog) = unmoved s.in_flight _ (s, []) refl refl
  wait_step-accounts p (frame_taken f) = unmoved s.in_flight _ (s, []) refl refl
  wait_step-accounts p send_done = unmoved s.in_flight _ (s, []) refl refl
  wait_step-accounts p (messages ms) = unmoved s.in_flight _ (s, []) refl refl

  taken_in : Event → Phase → List OutFrame
  taken_in e p = if is_running p then taken_of e else []

  in_phase-accounts :
      (p : Phase) (e : Event)
      → enabled e s ≡ true
      → Accounts s.in_flight (taken_in e p) (tears e) (in_phase p e s)
  unfolding in_phase taken_in
  in_phase-accounts running e h = run_step-accounts e h
  in_phase-accounts first_awaited e h = wait_step-accounts first_awaited e
  in_phase-accounts awaited e h = wait_step-accounts awaited e
  in_phase-accounts stopped e h = unmoved s.in_flight _ (s, []) refl refl

  pub step-accounts : (e : Event) → Accounts s.in_flight (taken_up e s) (tears e) (step e s)
  unfolding step
  step-accounts e = elim (Bool-cases (enabled e s)) [
    | inl t ↦ simp t (unfold taken_in in in_phase-accounts s.phase e t)
    | inr t ↦ simp t (unmoved s.in_flight _ (s, []) refl refl)
  ]
