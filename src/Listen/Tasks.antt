-- ===== src/Listen/Tasks.antt =====
-- What the accepting loops do, connection after connection.
use xmpp_proxy.Prelude.{
  ℕ, ◌≡◌, refl, sym, ap, subst, Error, List, [], ◌∷◌, ◌++◌, map, Option, none, some, Outcome, ok,
  err, panic, ok-of_>>=, ok-inj,
}
use xmpp_proxy.Handle.{Stream, Handshakes, Forwarded}
use xmpp_proxy.Handle.Forwards.{IsHandled, handle_tls_connection-IsHandled}
use xmpp_proxy.Incoming.{IncomingConfig}
use xmpp_proxy.Incoming.Forwards.{OneLine}
use xmpp_proxy.Peek.{BufRead}
use xmpp_proxy.Srv.Types.{External}
use xmpp_proxy.Srv.Sort.{Among, first, later}
use xmpp_proxy.Srv.Posh.{Digests}
use xmpp_proxy.Srv.Lookup.{Network}
use xmpp_proxy.Verify.{Webpki}
use xmpp_proxy.Listen.{
  SocketAddr, addresses_of, Accepted, Listened, accept_loop, tls_task, spawn_tls_listener,
}

-- A loop waits where no call has returned, and ends with the first one that fails.
pub data Stops {A : Type 0} : List (Outcome A) → Option (Outcome {0} Unit) → Type 0 where
  waits : Stops [] none
  fails : {e : Error} {accepts : List (Outcome A)} → Stops (err e ∷ accepts) (some (err e))
  crashes : {accepts : List (Outcome A)} → Stops (panic ∷ accepts) (some panic)

-- Each connection up to there is one task, whatever becomes of the others.
pub record Spawns {A T : Type 0} (task : A → T) (accepts : List (Outcome A)) (l : Listened A T)
    : Type 0 where
  pub taken : List A
  pub behind : List (Outcome A)
  pub splits : accepts ≡ map (λ a. ok a) taken ++ behind
  pub tasks : l.spawned ≡ map (λ a. (a, task a)) taken
  pub stops : Stops behind l.ended

accept_loop-Spawns :
    {A T : Type 0} (task : A → T) (accepts : List (Outcome A))
    → Spawns task accepts (accept_loop task accepts)
unfolding accept_loop
accept_loop-Spawns task [] = record {
  taken = [];
  behind = [];
  splits = refl;
  tasks = refl;
  stops = waits;
}
accept_loop-Spawns task (ok a ∷ accepts) =
    let more = accept_loop-Spawns task accepts in
    record {
      taken = a ∷ more.taken;
      behind = more.behind;
      splits = ap (◌∷◌ (ok a)) more.splits;
      tasks = ap (◌∷◌ (a, task a)) more.tasks;
      stops = more.stops;
    }
accept_loop-Spawns task (err e ∷ accepts) = record {
  taken = [];
  behind = err e ∷ accepts;
  splits = refl;
  tasks = refl;
  stops = fails;
}
accept_loop-Spawns task (panic ∷ accepts) = record {
  taken = [];
  behind = panic ∷ accepts;
  splits = refl;
  tasks = refl;
  stops = crashes;
}

-- a task is that of a connection that was accepted
task-Among :
    {A T : Type 0} (task : A → T) (accepts : List (Outcome A)) {a : A} {t : T}
    → Among (a, t) (accept_loop task accepts).spawned
    → Among (ok a) accepts × (task a ≡ t)
unfolding accept_loop
task-Among task [] m = elim m [ ]
task-Among task (ok b ∷ accepts) first = (first, refl)
task-Among task (ok b ∷ accepts) (later m) = let (n, e) = task-Among task accepts m in (later n, e)
task-Among task (err e ∷ accepts) m = elim m [ ]
task-Among task (panic ∷ accepts) m = elim m [ ]

module _ {x : External} (net : Network) (w : Webpki x) (d : Digests) (now : ℕ) {r : BufRead}
    (hs : Handshakes r) (size : ℕ) (config : IncomingConfig) where
  -- what a listener at an address has done
  pub record Serves (accepts : List (Outcome (Accepted Stream)))
      (l : Listened (Accepted Stream) (Outcome (Forwarded net w d now))) : Type 0 where
    pub local : SocketAddr
    pub spawns : Spawns (tls_task net w d now hs size config local) accepts l
    pub handled :
        (a : Accepted Stream) (fwd : Forwarded net w d now)
        → OneLine (addresses_of a.client_addr local)
        → Among (a, ok fwd) l.spawned
        → Among (ok a) accepts
          × IsHandled net w d now config
              (addresses_of a.client_addr local)
              hs
              size
              a.stream.sink
              a.stream.src
              a.stream.ending
              fwd

  -- A listener ends only with the first call of `accept` that fails. Up to there each connection is a
  -- task, whatever becomes of the others; and a connection that reaches a target, where the printed
  -- addresses hold no newline, was accepted, and is behind a TLS handshake, with what follows of it.
  pub spawn_tls_listener-Serves :
      (local_addr : Outcome SocketAddr) (accepts : List (Outcome (Accepted Stream)))
      (l : Listened (Accepted Stream) (Outcome (Forwarded net w d now)))
      → spawn_tls_listener net w d now hs size config local_addr accepts ≡ ok l
      → Serves accepts l
  unfolding spawn_tls_listener
  spawn_tls_listener-Serves local_addr accepts l h =
      let (local, h₁, q) =
        ok-of_>>= (λ local. ok (accept_loop (tls_task net w d now hs size config local) accepts))
          local_addr (sym h) in
      let task = tls_task net w d now hs size config local in
      subst (Serves accepts) (sym (ok-inj h₁)) (record {
        local = local;
        spawns = accept_loop-Spawns task accepts;
        handled = λ a fwd o m.
            let (n, e) = task-Among task accepts m in
            (
              n,
              handle_tls_connection-IsHandled net w d now config (addresses_of a.client_addr local)
                  hs size a.stream.sink a.stream.src a.stream.ending fwd o e,
            );
      })
