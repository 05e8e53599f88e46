-- ===== src/Driver/Clients.antt =====
-- The connection limit of internal/ftpdriver/driver.go.
use s32ftp.Prelude.{
  ℕ, ◌+◌, ◌≤◌, ◌≡◌, ◌⊎◌, ◌↔◌, Bool, true, false, ◌&&◌, ◌||◌, not, List, [], ◌∷◌, arith, ◌==◌,
  length,
}
use s32ftp.Prelude.Int.{pos, ◌≤ℤ◌}
use s32ftp.Text.{Str}
use s32ftp.Errors.{Result, ok, err}
use s32ftp.Driver.{
  DriverError, Driver, tracked, untrack, track, is_full, client_connected, client_disconnected,
  active_clients,
}

pub data Event : Type 0 where
  connect disconnect : ℕ → Event

-- No id is listed twice.
abbrev pub Once : List ℕ → Type 0
Once [] = Unit
Once (i ∷ clients) = (tracked i clients ≡ false) × Once clients

length-untrack : (i : ℕ) (clients : List ℕ) → length (untrack i clients) ≤ length clients
unfolding untrack
length-untrack i [] = omega arith
length-untrack i (j ∷ clients) = ground (arith, length-untrack i clients)

tracked-untrack :
    (i j : ℕ) (clients : List ℕ)
    → tracked i (untrack j clients) ≡ (not (j == i) && tracked i clients)
unfolding tracked untrack
tracked-untrack i j [] = ground arith
tracked-untrack i j (k ∷ clients) = ground (arith, tracked-untrack i j clients)

Once-untrack : (j : ℕ) (clients : List ℕ) → Once clients → Once (untrack j clients)
unfolding untrack
Once-untrack j [] h = tt
Once-untrack j (k ∷ clients) h =
    ground (arith, tracked-untrack k j clients, Once-untrack j clients h.1)

tracked-track :
    (i j : ℕ) (clients : List ℕ) → tracked i (track j clients) ≡ (i == j || tracked i clients)
unfolding track tracked
tracked-track i j clients = ground arith

length-track : (i : ℕ) (clients : List ℕ) → length (track i clients) ≤ length clients + 1
unfolding track
length-track i clients = ground arith

Once-track : (i : ℕ) (clients : List ℕ) → Once clients → Once (track i clients)
unfolding track
Once-track i clients h = ground arith

abbrev pub accepted : Result DriverError Str → Bool
accepted (ok greeting) = true
accepted (err e) = false

module _ {Cert : Type 0} where
  abbrev pub step : Event → Driver Cert → Driver Cert
  step (connect i) d = (client_connected i d).1
  step (disconnect i) d = client_disconnected i d

  unfoldable pub run_events : List Event → Driver Cert → Driver Cert
  unfolding client_connected client_disconnected
  run_events [] d = d
  run_events (e ∷ es) d = run_events es (step e d)

  -- No client is counted twice, and a positive limit is not exceeded.
  pub record IsSound (d : Driver Cert) : Type 0 where
    pub once : Once d.clients
    pub within :
        (d.cfg.ftp.max_clients ≤ℤ pos 0) ⊎ (pos (active_clients d) ≤ℤ d.cfg.ftp.max_clients)

  step-IsSound : (e : Event) (d : Driver Cert) → IsSound d → IsSound (step e d)
  unfolding client_connected client_disconnected active_clients
  step-IsSound (connect i) d v =
      ground (arith, Once-track i d.clients v.once, length-track i d.clients)
  step-IsSound (disconnect i) d v =
      ground (arith, Once-untrack i d.clients v.once, length-untrack i d.clients)

  run_events_from : (es : List Event) (d : Driver Cert) → IsSound d → IsSound (run_events es d)
  unfolding run_events
  run_events_from [] d v = v
  run_events_from (e ∷ es) d v = run_events_from es (step e d) (step-IsSound e d v)

  no_clients : (d : Driver Cert) → d.clients ≡ [] → IsSound d
  unfolding active_clients
  no_clients d e = ground arith

  -- From a driver without clients, whatever clients come and go, no client is counted twice and
  -- a positive `max_clients` is never exceeded.
  pub run_events-IsSound :
      (es : List Event) (d : Driver Cert) → d.clients ≡ [] → IsSound (run_events es d)
  run_events-IsSound es d e = run_events_from es d (no_clients d e)

  -- A client is among the clients after a connection exactly if it was before, or if it is the one
  -- that was accepted; it is refused exactly when the limit is positive and at most the number of
  -- the clients. After a disconnection that client is gone and the others are as they were.
  pub clients_lem :
      (i j : ℕ) (d : Driver Cert)
      → (tracked j (client_connected i d).1.clients
          ≡ (accepted (client_connected i d).0 && j == i || tracked j d.clients))
        × ((accepted (client_connected i d).0 ≡ false) ↔ (
            (pos 1 ≤ℤ d.cfg.ftp.max_clients) × (d.cfg.ftp.max_clients ≤ℤ pos (length d.clients))))
        × (tracked j (client_disconnected i d).clients ≡ (not (i == j) && tracked j d.clients))
  unfolding client_connected client_disconnected is_full
  clients_lem i j d = ground (arith, tracked-track j i d.clients, tracked-untrack j i d.clients)
