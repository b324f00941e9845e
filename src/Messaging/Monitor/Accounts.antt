-- ===== src/Messaging/Monitor/Accounts.antt =====
-- No interleaving of the goroutines of a client in internal/messaging/rabbitmq.go leaks a handle.
use clusterprobe.Prelude.{
  ℕ, zero, suc, ◌+◌, ◌≡◌, refl, arith, Option, some, List, [], ◌∷◌, ◌++◌, get_elem?, modify,
}
use clusterprobe.Go.Errors.{GoError, ok}
use clusterprobe.Messaging.Broker.{Handle, Env, Event}
use clusterprobe.Messaging.Connection.{Link}
use clusterprobe.Messaging.Connection.Handles.{
  connect-IsAccountedFor, one_if, conns_opened, conns_closed, channels_opened, channels_closed,
  held, IsAccountedFor,
}
use clusterprobe.Messaging.Monitor.{
  String, new_client, idle_callers, Pc, Role, monitor, caller, loop_head, watching, stopped, idle,
  dialing, dialed, opened, waiting, returned, no_link, closing, Move, look, leave, context_done,
  notified, call, close_link, give_up, dial_fails, dial_works, channel_fails, channel_works,
  install, wait_over, wait_done, Client, Step, pick, Steps, here, later,
}

-- How often a goroutine holds the connection or the channel `x` that is not yet the link's.
abbrev pub conns_of : Handle → Pc → ℕ
conns_of x (dialed r n b h) = one_if x h
conns_of x (opened r n b h c) = one_if x h
conns_of x loop_head = 0
conns_of x (watching h) = 0
conns_of x stopped = 0
conns_of x idle = 0
conns_of x (dialing r n b) = 0
conns_of x (waiting r n b) = 0

abbrev pub channels_of : Handle → Pc → ℕ
channels_of x (opened r n b h c) = one_if x c
channels_of x (dialed r n b h) = 0
channels_of x loop_head = 0
channels_of x (watching h) = 0
channels_of x stopped = 0
channels_of x idle = 0
channels_of x (dialing r n b) = 0
channels_of x (waiting r n b) = 0

abbrev pub total : (Pc → ℕ) → List Pc → ℕ
total f [] = 0
total f (p ∷ ps) = f p + total f ps

-- The handle `x` was given as often as it was closed, is the link's and is in a goroutine's hands.
pub record IsSharedFor (x : Handle) (s : Client) : Type 0 where
  pub conns :
      conns_opened x s.trace
      ≡ conns_closed x s.trace + held x s.link.conn + total (conns_of x) s.pcs
  pub channels :
      channels_opened x s.trace
      ≡ channels_closed x s.trace + held x s.link.channel + total (channels_of x) s.pcs

-- So it is for every handle.
pub record IsShared (s : Client) : Type 0 where
  pub each : (x : Handle) → IsSharedFor x s

total-modify :
    (f : Pc → ℕ) (ps : List Pc) (i : ℕ) (p q : Pc)
    → get_elem? ps i ≡ some p
    → total f (modify ps i (λ _. q)) + f p ≡ total f ps + f q
total-modify f [] i p q h = ground arith
total-modify f (x ∷ ps) zero p q h = ground arith
total-modify f (x ∷ ps) (suc i) p q h = omega (arith, total-modify f ps i p q h)

-- What a move opens, closes and takes over is accounted for.
record IsBalanced (x : Handle) (l l' : Link) (es : List Event) (p q : Pc) (trace : List Event)
    : Type 0 where
  conns :
      conns_opened x (es ++ trace) + conns_closed x trace + held x l.conn + conns_of x p
      ≡ conns_opened x trace + conns_closed x (es ++ trace) + held x l'.conn + conns_of x q
  channels :
      channels_opened x (es ++ trace) + channels_closed x trace + held x l.channel + channels_of x p
      ≡ channels_opened x trace
        + channels_closed x (es ++ trace)
        + held x l'.channel
        + channels_of x q

closing-balanced :
    (x : Handle) (l : Link) (d e : Option GoError) (trace : List Event)
    → (conns_closed x (closing l d e ++ trace) ≡ held x l.conn + conns_closed x trace)
      × (channels_closed x (closing l d e ++ trace) ≡ held x l.channel + channels_closed x trace)
      × (conns_opened x (closing l d e ++ trace) ≡ conns_opened x trace)
      × (channels_opened x (closing l d e ++ trace) ≡ channels_opened x trace)
closing-balanced x l d e trace = ground arith

returned-holds :
    (x : Handle) (r : Role) → (conns_of x (returned r) ≡ 0) × (channels_of x (returned r) ≡ 0)
returned-holds x monitor = (refl, refl)
returned-holds x caller = (refl, refl)

Move-IsBalanced :
    (x : Handle) {l l' : Link} {es : List Event} {p q : Pc} (trace : List Event)
    → Move l p l' es q
    → IsBalanced x l l' es p q trace
Move-IsBalanced x trace (look h) = record { conns = omega arith; channels = omega arith }
Move-IsBalanced x trace (leave h) = record { conns = omega arith; channels = omega arith }
Move-IsBalanced x trace context_done = record { conns = omega arith; channels = omega arith }
Move-IsBalanced x trace notified = record { conns = omega arith; channels = omega arith }
Move-IsBalanced x trace call = record { conns = omega arith; channels = omega arith }
Move-IsBalanced x {l = l} trace (close_link d e) =
    let (a, b, c, f) = closing-balanced x l d e trace in
    record { conns = omega arith; channels = omega arith }
Move-IsBalanced x trace (give_up {r = r}) =
    let (a, b) = returned-holds x r in record { conns = omega arith; channels = omega arith }
Move-IsBalanced x trace (dial_fails e) = record { conns = omega arith; channels = omega arith }
Move-IsBalanced x trace (dial_works h) = record { conns = omega arith; channels = omega arith }
Move-IsBalanced x trace (channel_fails e d) = record { conns = omega arith; channels = omega arith }
Move-IsBalanced x trace (channel_works c) = record { conns = omega arith; channels = omega arith }
Move-IsBalanced x {l = l} trace (install {r = r} d e) =
    let (a, b, c, f) = closing-balanced x l d e trace in
    let (g, k) = returned-holds x r in record { conns = omega arith; channels = omega arith }
Move-IsBalanced x trace wait_over = record { conns = omega arith; channels = omega arith }
Move-IsBalanced x trace (wait_done {r = r}) =
    let (a, b) = returned-holds x r in record { conns = omega arith; channels = omega arith }

Step-IsSharedFor : (x : Handle) {s t : Client} → Step s t → IsSharedFor x s → IsSharedFor x t
Step-IsSharedFor x {s} (pick i {p} {l} {es} {q} h move) shared =
    let balanced = Move-IsBalanced x s.trace move in
    let conns = total-modify (conns_of x) s.pcs i p q h in
    let channels = total-modify (channels_of x) s.pcs i p q h in
    record {
      conns = omega (arith, shared.conns, balanced.conns);
      channels = omega (arith, shared.channels, balanced.channels);
    }

Steps-IsShared : {s t : Client} → Steps s t → IsShared s → IsShared t
Steps-IsShared here shared = shared
Steps-IsShared (later steps step) shared = record {
  each = λ x. Step-IsSharedFor x step ((Steps-IsShared steps shared).each x);
}

idle_hold :
    (x : Handle) (n : ℕ)
    → (total (conns_of x) (idle_callers n) ≡ 0) × (total (channels_of x) (idle_callers n) ≡ 0)
idle_hold x zero = (refl, refl)
idle_hold x (suc n) = ground (arith, idle_hold x n)

new_client-IsSharedFor :
    (x : Handle) {W : Type 0} (env : Env W) (url : String) (callers : ℕ) (w : W) {s : Client}
    → new_client env url callers w ≡ ok s
    → IsSharedFor x s
unfolding new_client
new_client-IsSharedFor x env url callers w {s} h =
    let start : IsAccountedFor x no_link [] = record { conns = refl; channels = refl } in
    let accounted = connect-IsAccountedFor env x no_link (record { world = w; trace = [] }) start in
    let (a, b) = idle_hold x callers in record { conns = ground arith; channels = ground arith }

new_client-IsShared :
    {W : Type 0} (env : Env W) (url : String) (callers : ℕ) (w : W) {s : Client}
    → new_client env url callers w ≡ ok s
    → IsShared s
new_client-IsShared env url callers w h = record {
  each = λ x. new_client-IsSharedFor x env url callers w h;
}

-- Whatever the goroutines of a new client do, one step at a time and in whatever order: each
-- connection and each channel was given as often as it was closed, is the link's, and is in the
-- hands of a goroutine, all three added up.
pub Steps-new_client-IsShared :
    {W : Type 0} (env : Env W) (url : String) (callers : ℕ) (w : W) {s t : Client}
    → new_client env url callers w ≡ ok s
    → Steps s t
    → IsShared t
Steps-new_client-IsShared env url callers w h steps =
    Steps-IsShared steps (new_client-IsShared env url callers w h)
