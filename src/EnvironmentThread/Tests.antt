-- ===== src/EnvironmentThread/Tests.antt =====
-- An environment that takes a client, serves it and loses it.
use garnd.Prelude.{◌⊎◌, ℕ, ◌≡◌, refl, false, true, List, [], ◌∷◌, arith, lookup}
use garnd.Io.{ok, Call, Reply, done, Log, Kernel, Ensures, ErrorsOpen}
use garnd.Io.Samples.{working}
use garnd.Protocols.Samples.{garnshared}
use garnd.Requests.Kept.{Keeps}
use garnd.Environment.{Environment, insert_socket}
use garnd.Environment.Accepted.{insert_socket-handle_event}
use garnd.SocketSet.{contains, insert}
use garnd.EnvironmentThread.{
  scoped, loop_with_epoll, proceed, Handles, EnvThread, Round, watch, receive_listeners,
  add_listener, respond, pass_result, handle_event, event_loop,
}
use garnd.EnvironmentThread.Watched.{HoldsWatched, event_loop-HoldsWatched}
use garnd.EnvironmentThread.Watched.Over.{NothingWatched, scoped-loop_with_epoll}
use garnd.EnvironmentThread.Lifetime.{event_loop-Keeps}
use garnd.EnvironmentThread.Granted.{event_loop-Session}
use garnd.Requests.Granting.{Consistent}
use garnd.Requests.Session.{Grant, Session}

abbrev handles : Handles
handles = record { name = "a"; close_env_event = 20; add_listener_event = 21; drop_event = 22 }

abbrev idle : EnvThread
idle = record {
  sockets = [];
  shm = record { resources = []; page_size = 4096; pages = []; free_ptr = 0 };
  add_listener_rx = [];
  owner_alive = true;
}

abbrev rounds : List Round
rounds =
    record { arrivals = 9 ∷ []; events = record { token = 21; hung_up = false } ∷ [] }
    ∷ record { arrivals = []; events = record { token = 9; hung_up = false } ∷ [] }
    ∷ record { arrivals = []; events = record { token = 9; hung_up = true } ∷ [] }
    ∷ []

working-ErrorsOpen : ErrorsOpen working
working-ErrorsOpen t e = (_, refl)

event_loop-Keeps_example :
    Ensures (λ _ e' _. Keeps idle.shm e'.shm) (λ _ _ _. ⊥) (event_loop handles rounds idle [])
event_loop-Keeps_example =
    event_loop-Keeps working-ErrorsOpen (omega arith) refl handles rounds idle [] (omega arith) refl

event_loop-Session_example :
    let (_, e', u) = event_loop handles rounds idle [] in
    (gs : List Grant) × Session idle.shm [] gs e'.shm u × Consistent gs
unfolding lookup
event_loop-Session_example =
    event_loop-Session handles rounds idle [] (omega arith) (omega arith) (λ name r e. cc e)

abbrev asked : EnvThread
asked = record idle { add_listener_rx = 9 ∷ [] }

-- The welcome thread's kernel: the channel of responses delivers `Ok(())`.
abbrev accept : Log → Call → Reply ℕ
accept t (Call.recv_response _) = done 0
accept t c = done 3

abbrev accepting : Kernel
accepting = record working { answer = accept }

abbrev environment : Environment
environment = record { add_listener_event = 21; drop_event = 22; thread = 30 }

insert_socket-handle_event_example :
    Ensures {S = ℕ}
      (λ _ s' _. (s' ≡ 0) × (contains 9 (insert 9 []) ≡ true))
      (λ _ s' _. s' ≡ 0)
      (insert_socket ⦃k = accepting⦄ environment 9 0 [])
unfolding handle_event pass_result add_listener receive_listeners watch respond
insert_socket-handle_event_example =
    insert_socket-handle_event accepting working environment 9 0 [] handles false asked [] [] []
      refl refl (λ t r. (_, refl)) _ (record idle { sockets = insert 9 [] }) _ refl
      (λ t v r n _ last. ground (arith, last))

event_loop-HoldsWatched_example :
    let (_, e', u) = event_loop handles rounds idle [] in HoldsWatched handles e'.sockets u
event_loop-HoldsWatched_example =
    event_loop-HoldsWatched handles rounds idle [] (λ fd _ _ w. ground (arith, w))

scoped-loop_with_epoll_example :
    let (o, _, u) = scoped 30 (loop_with_epoll handles rounds 30) idle [] in
    (o ≡ ok proceed) ⊎ NothingWatched handles u
scoped-loop_with_epoll_example =
    scoped-loop_with_epoll handles rounds 30 idle [] (λ fd _ _ w. ground (arith, w))
