-- ===== src/Manager/Lifecycle/Contexts.antt =====
-- The io_context of a WebManager (src/web_manager.cpp, src/web_manager_impl.cpp), which the making of a
-- client takes for granted.
use boost_web.Common.{ℕ, Bool, true, false, if_cases, Option, none, some, Bytes}
use boost_web.Manager.{
  System, Arguments, Impl, Answer, returned, threw, new, client_of, connect, create_client, Client,
  on_signal,
}
use boost_web.Manager.Init.{init}
use boost_web.Manager.Lifecycle.{
  kept, manager_init, manager_exit, manager_create_client, manager_create_client_at,
}
use boost_web.Manager.Init.Alive.{Alive, Leaves, init-Alive}

module _ {W : Type 0} (sys : System W) where
  -- The manager's implementation, if it has one, is alive.
  abbrev pub Sound : Option (Impl W) → Type 0
  Sound none = Unit
  Sound (some k) = Alive k

  -- What a call of init leaves.
  abbrev pub left_by : Answer (Option (Impl W)) → Option (Impl W)
  left_by (returned b m) = m
  left_by (threw m) = m

  kept-Sound : (a : Answer (Impl W)) → Leaves a → Sound (left_by (kept sys a))
  unfolding kept
  kept-Sound (returned true k) v = v
  kept-Sound (returned false k) v = tt
  kept-Sound (threw k) v = v

  -- The states of a WebManager, after any calls.
  pub data Called : Option (Impl W) → Type 0 where
    constructed : Called none
    initialised :
        {m : Option (Impl W)}
        → (args : Arguments) (w : W) → Called m
        → Called (left_by (manager_init sys args w m))
    exited : {m : Option (Impl W)} → Called m → Called (manager_exit m).0
    client :
        {m : Option (Impl W)}
        → (ssl : Bool) (host port target : Option Bytes) (identity timeout : ℕ) → Called m
        → Called (manager_create_client ssl host port target identity timeout m).1
    client_at :
        {m : Option (Impl W)}
        → (lexical_cast : ℕ → Bytes) (ssl : Bool) (host : Option Bytes) (port : ℕ)
          (target : Option Bytes) (identity timeout : ℕ)
        → Called m
        → Called (manager_create_client_at lexical_cast ssl host port target identity timeout m).1
    signalled : {k : Impl W} → Called (some k) → Called (some (on_signal k))

  manager_init-Sound :
      (args : Arguments) (w : W) (m : Option (Impl W))
      → Sound m
      → Sound (left_by (manager_init sys args w m))
  unfolding manager_init
  manager_init-Sound args w (some k) v = v
  manager_init-Sound args w none v =
      if_cases (λ a. Sound (left_by a)) args.web_service (kept sys (init sys args (new w)))
        (returned false none)
        (λ given. kept-Sound (init sys args (new w)) (init-Alive sys args w given)) (λ _. tt)

  client-Sound :
      (ssl : Bool) (host port target : Option Bytes) (identity timeout : ℕ) (m : Option (Impl W))
      → Sound m
      → Sound (manager_create_client ssl host port target identity timeout m).1
  unfolding manager_create_client create_client connect
  client-Sound ssl host port target identity timeout none v = tt
  client-Sound ssl host port target identity timeout (some k) v =
      connects (client_of ssl host port target identity timeout)
    where
      connects : (client : Option Client) → Alive (connect client k).1
      connects none = v
      connects (some made) = v

  -- After any calls of init, exit and the makers of clients and any signals, in any order and with any
  -- arguments, also where init has thrown, an implementation that the manager has is one with exactly one
  -- io_context and one set of signals, and with a service, on which a client can be made.
  pub Called-Sound : (m : Option (Impl W)) → Called m → Sound m
  unfolding manager_exit manager_create_client_at on_signal
  Called-Sound _ constructed = tt
  Called-Sound _ (initialised {m = m} args w r) = manager_init-Sound args w m (Called-Sound m r)
  Called-Sound _ (exited {m = none} r) = tt
  Called-Sound _ (exited {m = some k} r) = tt
  Called-Sound _ (client {m = m} ssl host port target identity timeout r) =
      client-Sound ssl host port target identity timeout m (Called-Sound m r)
  Called-Sound _ (client_at {m = m} lexical_cast ssl host port target identity timeout r) =
      client-Sound ssl host (some (lexical_cast port)) target identity timeout m (Called-Sound m r)
  Called-Sound _ (signalled {k = k} r) = Called-Sound (some k) r
