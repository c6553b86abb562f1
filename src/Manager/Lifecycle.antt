-- ===== src/Manager/Lifecycle.antt =====
-- WebManager (src/web_manager.cpp): its implementation object, which exists between init and exit.
pub mod Contexts
use boost_web.Common.{true, false, if◌then◌else◌, Option, none, some, List, ℕ, Bool, Bytes}
use boost_web.Manager.{System, Arguments, Impl, Answer, returned, threw, new, create_client, exit}
use boost_web.Manager.Init.{init}

module _ {W : Type 0} (sys : System W) where
  -- A failed init deletes the implementation; an exception leaves it.
  unfoldable pub kept : Answer (Impl W) → Answer (Option (Impl W))
  kept (returned true k) = returned true (some k)
  kept (returned false k) = returned false none
  kept (threw k) = threw (some k)

  -- WebManager::init
  unfoldable pub manager_init : Arguments → W → Option (Impl W) → Answer (Option (Impl W))
  unfolding kept init
  manager_init args w (some k) = returned false (some k)
  manager_init args w none =
      if args.web_service then kept (init sys args (new w)) else returned false none

module _ {W : Type 0} where
  -- WebManager::exit
  unfoldable pub manager_exit : Option (Impl W) → Option (Impl W) × Option (Impl W)
  unfolding exit
  manager_exit none = (none, none)
  manager_exit (some k) = (none, some (exit k))

  -- WebManager::get_ports
  unfoldable pub get_ports : List ℕ → Option (Impl W) → List ℕ
  get_ports ports none = ports
  get_ports ports (some k) = k.web_ports

  -- WebManager::create_ws_client, and create_wss_client with `ssl`
  unfoldable pub manager_create_client :
      Bool
      → Option Bytes
      → Option Bytes
      → Option Bytes
      → ℕ
      → ℕ
      → Option (Impl W)
      → Bool × Option (Impl W)
  unfolding create_client
  manager_create_client ssl host port target identity timeout none = (false, none)
  manager_create_client ssl host port target identity timeout (some k) =
      let (created, k') = create_client ssl host port target identity timeout k in
      (created, some k')

  -- The overloads that take the port as a number
  module _ (lexical_cast : ℕ → Bytes) where
    unfoldable pub manager_create_client_at :
        Bool → Option Bytes → ℕ → Option Bytes → ℕ → ℕ → Option (Impl W) → Bool × Option (Impl W)
    unfolding manager_create_client
    manager_create_client_at ssl host port target identity timeout m =
        manager_create_client ssl host (some (lexical_cast port)) target identity timeout m
