-- ===== src/Driver/Frames.antt =====
-- What becomes of the frames that the driver takes from its queue (`run_driver` of
-- zeronym/shim/src/nym_driver.rs).
use zero_shim.Prelude.{
  ℕ, ◌+◌, ◌≤◌, ◌<◌, ◌≡◌, refl, sym, ap, ◌∙◌, true, false, Option, some, List, [], ◌∷◌, ◌++◌,
  append_assoc, arith, Result, ok, err, length, get_or,
}
use zero_shim.Text.{Text}
use zero_shim.Correlator.{OutFrame}
use zero_shim.Prelude.{get_elem?-in}
use zero_shim.Driver.{send_frame, addressed}
use zero_shim.Driver.{Sending, Driver, Effect, Event, build_failed, begin, step, run}
use zero_shim.Driver.Fates.{
  sent_of, sends, held, taken_up, all_taken_up, tears, all_tears, Fates, frames_of, finished,
  abandoned, Accounts, unmoved, step-accounts,
}

-- A frame whose target is in the list goes to that address.
pub send_frame-in :
    (hub_addresses : List Text) (out : OutFrame)
    → out.target < length hub_addresses
    → send_frame hub_addresses out
      ≡ some (record {
        recipient = get_or hub_addresses out.target [];
        message = out.frame;
        surbs = out.reply_surbs;
      })
unfolding send_frame addressed
send_frame-in hub_addresses out h = rw (get_elem?-in hub_addresses out.target [] h) refl

pub sends-append : (fs gs : List Effect) → sends (fs ++ gs) ≡ sends fs ++ sends gs
sends-append [] gs = refl
sends-append (f ∷ fs) gs =
    rw (sends-append fs gs) (sym (append_assoc (sent_of f) (sends fs) (sends gs)))

finished-append : (fs gs : Fates) → finished (fs ++ gs) ≡ finished fs ++ finished gs
finished-append [] gs = refl
finished-append ((true, out) ∷ fs) gs = ap (λ l. out ∷ l) (finished-append fs gs)
finished-append ((false, out) ∷ fs) gs = finished-append fs gs

abandoned-append : (fs gs : Fates) → abandoned (fs ++ gs) ≡ abandoned fs + abandoned gs
abandoned-append [] gs = omega arith
abandoned-append ((true, out) ∷ fs) gs = abandoned-append fs gs
abandoned-append ((false, out) ∷ fs) gs = ground (arith, abandoned-append fs gs)

frames_of-append : (fs gs : Fates) → frames_of (fs ++ gs) ≡ frames_of fs ++ frames_of gs
frames_of-append [] gs = refl
frames_of-append (f ∷ fs) gs = ap (λ l. f.1 ∷ l) (frames_of-append fs gs)

-- Two runs, one after the other.
joined :
    (o : Option Sending) (us bs : List OutFrame) (m n : ℕ) (r q : Driver × List Effect)
    → Accounts o us m r
    → Accounts r.0.in_flight bs n q
    → Accounts o (us ++ bs) (m + n) (q.0, r.1 ++ q.1)
joined o us bs m n r q (fs, a, b, c) (gs, d, e, f) = (
  fs ++ gs,
  (rw (frames_of-append fs gs) (append_assoc (frames_of fs) (frames_of gs) (held q.0.in_flight)))
      ∙ ap (λ l. frames_of fs ++ l) d
      ∙ sym (append_assoc (frames_of fs) (held r.0.in_flight) bs)
      ∙ ap (λ l. l ++ bs) a
      ∙ append_assoc (held o) us bs,
  rw (sends-append r.1 q.1, finished-append fs gs, b) (ap (λ l. finished fs ++ l) e),
  ground (arith, abandoned-append fs gs),
)

run-accounts :
    (es : List Event) (s : Driver)
    → Accounts s.in_flight (all_taken_up es s) (all_tears es) (run es s)
unfolding run
run-accounts [] s = unmoved s.in_flight 0 (s, []) refl refl
run-accounts (e ∷ es) s =
    joined s.in_flight (taken_up e s) (all_taken_up es (step e s).0) (tears e) (all_tears es)
      (step e s) (run es (step e s).0) (step-accounts s e) (run-accounts es (step e s).0)

begin-holds :
    (gs : List Text) (now : ℕ) (b : Result Text Text) → held (begin gs now b).0.in_flight ≡ []
unfolding begin build_failed
begin-holds gs now (ok a) = refl
begin-holds gs now (err e) = refl

-- Over any run of the driver from its start, every frame that it took from its queue, in the order
-- in which it took them, has its call of `send_frame` returned, or was abandoned in that call, but
-- for the last if it is in flight. The calls return in that order, none twice for one frame, and at
-- most one is abandoned for each command, each end of the queue and each end of the messages among
-- the arms. A call that returned may have failed or found no such target, and the SDK may lose what
-- it took, as it does with its buffers at a disconnect; this counts neither.
pub frames_accounted :
    (gs : List Text) (now : ℕ) (b : Result Text Text) (es : List Event)
    → (fates : Fates) × (frames_of fates ++ held (run es (begin gs now b).0).0.in_flight
        ≡ all_taken_up es (begin gs now b).0)
      × (sends (run es (begin gs now b).0).1 ≡ finished fates)
      × (abandoned fates ≤ all_tears es)
frames_accounted gs now b es =
    let (fates, a, k, l) = run-accounts es (begin gs now b).0 in
    (fates, a ∙ ap (λ l. l ++ all_taken_up es (begin gs now b).0) (begin-holds gs now b), k, l)
