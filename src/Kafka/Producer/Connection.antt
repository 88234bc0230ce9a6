-- ===== src/Kafka/Producer/Connection.antt =====
-- The producer service over any interleaving of connects, sends and a shutdown.
use nodejs_basics.Prelude.{
  ℕ, ◌<◌, Bool, true, false, Option, none, List, [], ◌∷◌, ◌≡◌, ◌≢◌, refl, arith, ltb, if◌then◌else◌,
  ◌∙◌,
}
use nodejs_basics.Prelude.Int.{ℤ}
use nodejs_basics.Kafka.Producer.{
  Service, new, begin_connect, end_connect, replace, shutdown, begin_send, Reply, failed, end_send,
}

-- What happens to a service, in any order: a connect begins, one ends for a producer that was made, a send with a
-- producer ends, the application shuts down.
pub data Event : Type 0 where
  connects : Event
  connected : ℕ → Event
  send_ends : ℕ → Reply → Event
  shuts_down : Event

pub step : Service → Event → Service
step s connects = begin_connect s
step s (connected p) = if ltb p s.made then end_connect s p else s
step s (send_ends p reply) = (end_send s p reply).0
step s shuts_down = shutdown s

pub run : Service → List Event → Service
run s [] = s
run s (e ∷ es) = run (step s e) es

service : Unit {0}
unfolding step begin_connect end_connect replace shutdown begin_send end_send
service = tt

-- A closed service is stopped and not connected.
pub record IsClosed (s : Service) : Type 0 where
  pub closed : s.closed ≡ true
  pub stopped : s.stopped ≡ true
  pub offline : s.connected ≡ false

step-IsClosed : (s : Service) (e : Event) → IsClosed s → IsClosed (step s e)
unfolding service
step-IsClosed s e h = ground arith

step_made : (s : Service) (e : Event) → IsClosed s → (step s e).made ≡ s.made
unfolding service
step_made s e h = ground arith

-- A connected service has a producer.
pub record IsSound (s : Service) : Type 0 where
  pub online : s.connected ≡ true → s.producer ≢ none
  pub made : s.producer ≡ none → s.made ≡ 0

shutdown-IsClosed : (s : Service) → IsSound s → IsClosed (shutdown s)
unfolding service
shutdown-IsClosed s h = ground arith

step-IsSound : (s : Service) (e : Event) → IsSound s → IsSound (step s e)
unfolding service
step-IsSound s e h = ground arith

run-IsSound : (s : Service) (es : List Event) → IsSound s → IsSound (run s es)
unfolding run
run-IsSound s [] h = h
run-IsSound s (e ∷ es) h = run-IsSound (step s e) es (step-IsSound s e h)

run-IsClosed :
    (s : Service) (es : List Event) → IsClosed s → IsClosed (run s es) × ((run s es).made ≡ s.made)
unfolding run
run-IsClosed s [] h = (h, refl)
run-IsClosed s (e ∷ es) h =
    let (c, m) = run-IsClosed (step s e) es (step-IsClosed s e h) in (c, m ∙ step_made s e h)

-- After a shutdown, whatever came before and whatever comes next, no producer is made, the service
-- is not connected, and a send is refused before it goes out.
pub run-shutdown :
    (before after : List Event) (aborted : Bool)
    → let s = shutdown (run new before) in
      let t = run s after in
      (t.made ≡ s.made) × (t.connected ≡ false) × (begin_send t aborted ≡ none)
unfolding new begin_send
run-shutdown before after aborted =
    let sound = run-IsSound new before (record { online = λ h. cc; made = λ h. refl }) in
    let (c, m) =
      run-IsClosed (shutdown (run new before)) after (shutdown-IsClosed (run new before) sound) in
    (m, c.offline, ground (arith, c.closed))

-- A producer that a fatal error broke is replaced once: a second send that fails fatally with the
-- same producer changes nothing more.
pub replace_once :
    (s : Service) (p : ℕ) (code code' : Option ℤ)
    → p < s.made
    → let t = (end_send s p (failed code true)).0 in (end_send t p (failed code' true)).0 ≡ t
unfolding service
replace_once s p code code' l = ground arith
