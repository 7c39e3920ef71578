-- ===== src/Status/Lifecycle.antt =====
-- What the status endpoints of the shim show over a run (`MixnetStatus` of
-- zeronym/shim/src/nym.rs).
use zero_shim.Prelude.{
  ℕ, ◌≡◌, refl, sym, ◌∙◌, ◌≢◌, Bool, true, false, not, ◌||◌, some, List, [], ◌∷◌, ◌++◌, append-nil,
  append_assoc, arith, ◌==◌, if◌then◌else◌, All,
}
use zero_shim.Text.{Text}
use zero_shim.Status.{
  MixnetStatus, initial, set_configured, set_connected, set_died, set_rebuild_failed, enable_diag,
  record_send, record_inbound, set_address, is_healthy, to_json, gateway_from, gateway_of,
  diag_json,
}

-- One call on the status, with the clock where the call reads it.
pub data Event : Type 0 where
  configured : (now : ℕ) → Event
  connected died rebuild_failed diag_opened sent : Event
  inbound : (now : ℕ) (empty : Bool) → Event
  addressed : Text → Event

pub apply : Event → MixnetStatus → MixnetStatus
apply (configured now) s = set_configured now s
apply connected s = set_connected s
apply died s = set_died s
apply rebuild_failed s = set_rebuild_failed s
apply diag_opened s = enable_diag s
apply sent s = record_send s
apply (inbound now empty) s = record_inbound now empty s
apply (addressed address) s = set_address address s

pub run : List Event → MixnetStatus → MixnetStatus
run [] s = s
run (e ∷ es) s = run es (apply e s)

-- Whether the run configures diversion, and whether the client was up after its last change.
abbrev pub configures : Bool → List Event → Bool
configures c [] = c
configures c (configured now ∷ es) = configures true es
configures c (e ∷ es) = configures c es

abbrev pub last_up : Bool → List Event → Bool
last_up up [] = up
last_up up (connected ∷ es) = last_up true es
last_up up (died ∷ es) = last_up false es
last_up up (rebuild_failed ∷ es) = last_up false es
last_up up (e ∷ es) = last_up up es

health_from :
    (es : List Event) (s : MixnetStatus)
    → is_healthy (run es s) ≡ (not (configures s.configured es) || last_up s.connected es)
unfolding run apply is_healthy set_configured set_connected set_died set_rebuild_failed enable_diag
    record_send set_address record_inbound
health_from [] s = refl
health_from (configured now ∷ es) s = health_from es (set_configured now s)
health_from (connected ∷ es) s = health_from es (set_connected s)
health_from (died ∷ es) s = health_from es (set_died s)
health_from (rebuild_failed ∷ es) s = health_from es (set_rebuild_failed s)
health_from (diag_opened ∷ es) s = health_from es (enable_diag s)
health_from (sent ∷ es) s = health_from es (record_send s)
health_from (inbound now true ∷ es) s = health_from es (record_inbound now true s)
health_from (inbound now false ∷ es) s = health_from es (record_inbound now false s)
health_from (addressed a ∷ es) s = health_from es (set_address a s)

-- After any run the shim counts as healthy exactly if the run never configured diversion, or the
-- client's last change of state was to connected.
pub run_health_exact :
    (es : List Event)
    → is_healthy (run es initial) ≡ (not (configures false es) || last_up false es)
run_health_exact es = health_from es initial

-- Events that user traffic causes, and those that only a build or a start causes.
abbrev pub IsTraffic : Event → Type 0
IsTraffic sent = Unit {0}
IsTraffic (inbound now empty) = Unit {0}
IsTraffic _ = ⊥

traffic_step : (e : Event) (s : MixnetStatus) → IsTraffic e → to_json (apply e s) ≡ to_json s
unfolding apply to_json record_send record_inbound
traffic_step sent s h = refl
traffic_step (inbound now true) s h = refl
traffic_step (inbound now false) s h = refl
traffic_step (configured now) s h = absurd h
traffic_step connected s h = absurd h
traffic_step died s h = absurd h
traffic_step rebuild_failed s h = absurd h
traffic_step diag_opened s h = absurd h
traffic_step (addressed a) s h = absurd h

-- Nothing that traffic does shows on `/nym-status`: sends and inbound messages, in any number and
-- order, leave its text unchanged.
pub status_hides_traffic :
    (es : List Event) (s : MixnetStatus) → All IsTraffic es → to_json (run es s) ≡ to_json s
unfolding run
status_hides_traffic [] s h = refl
status_hides_traffic (e ∷ es) s h = status_hides_traffic es (apply e s) h.1 ∙ traffic_step e s h.0

abbrev pub NoAt : ℕ → Type 0
NoAt c = c ≢ b'@'

gateway_from-plain : (acc g : Text) → All NoAt g → gateway_from acc g ≡ acc ++ g
unfolding gateway_from
gateway_from-plain acc [] h = sym (append-nil acc)
gateway_from-plain acc (c ∷ g) h =
    ground (arith, gateway_from-plain (acc ++ (c ∷ [])) g h.1, append_assoc acc (c ∷ []) g)

gateway_from-at : (acc keys g : Text) → gateway_from acc (keys ++ (b'@' ∷ g)) ≡ gateway_from [] g
unfolding gateway_from
gateway_from-at acc [] g = refl
gateway_from-at acc (c ∷ keys) g =
    gateway_from-at (if c == b'@' then [] else acc ++ (c ∷ [])) keys g

-- Of an address `keys@gateway`, no at sign in the gateway, the diagnostic text shows the gateway
-- alone: two clients that differ only in their keys give the same text.
pub diag_hides_keys :
    (now : ℕ) (s : MixnetStatus) (keys other gateway : Text)
    → All NoAt gateway
    → (gateway_of (some (keys ++ (b'@' ∷ gateway))) ≡ gateway)
      × (diag_json now (set_address (keys ++ (b'@' ∷ gateway)) s)
          ≡ diag_json now (set_address (other ++ (b'@' ∷ gateway)) s))
diag_hides_keys now s keys other gateway h = (shown keys, same)
  where
    shown : (k : Text) → gateway_of (some (k ++ (b'@' ∷ gateway))) ≡ gateway
    shown k = unfold gateway_of in (gateway_from-at [] k gateway ∙ gateway_from-plain [] gateway h)

    same :
        diag_json now (set_address (keys ++ (b'@' ∷ gateway)) s)
        ≡ diag_json now (set_address (other ++ (b'@' ∷ gateway)) s)
    same = unfold diag_json set_address in rw (shown keys, shown other) refl
