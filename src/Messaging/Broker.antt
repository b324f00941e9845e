-- ===== src/Messaging/Broker.antt =====
-- What internal/messaging calls of the AMQP library and of the broker, over an unknown world, with a
-- trace of the calls and of what they returned, newest first.
use clusterprobe.Prelude.{ℕ, String, Bool, Option, List, ◌∷◌}
use clusterprobe.Go.Int64.{ℤ}
use clusterprobe.Go.Errors.{GoError, Result}
use clusterprobe.Messaging.Carrier.{Table}

-- The handles of the library are numbers: connections and channels.
abbrev pub Handle : Type 0
Handle = ℕ

-- Arguments of `QueueDeclare`: the dead-letter exchange and routing key, where they are given.
pub record DeadLetter : Type 0 where
  pub exchange : String
  pub routing_key : String

pub data Declaration : Type 0 where
  exchange_declare : (name kind : String) → Declaration
  queue_declare : (name : String) → Option DeadLetter → Declaration
  queue_bind : (name key exchange : String) → Declaration

pub record Publishing : Type 0 where
  pub content_type : String
  pub headers : Table
  pub persistent : Bool
  pub body : String

pub record Delivery : Type 0 where
  pub tag : ℕ
  pub routing_key : String
  pub headers : Table
  pub body : String

pub record Env (W : Type 0) : Type 0 where
  pub dial : W → Result Handle × W
  pub open_channel : Handle → W → Result Handle × W
  pub close_conn : Handle → W → Option GoError × W
  pub close_channel : Handle → W → Option GoError × W
  pub declare : Handle → Declaration → W → Option GoError × W
  pub publish : Handle → (exchange key : String) → Publishing → W → Option GoError × W
  pub qos : Handle → ℤ → W → Option GoError × W
  pub consume : Handle → String → W → Option GoError × W
  pub ack : Delivery → W → Option GoError × W
  -- with the flag `requeue`
  pub nack : Delivery → Bool → W → Option GoError × W
  -- `select` on the context and a timer: true if the context is done
  pub wait : ℤ → W → Bool × W

pub data Event : Type 0 where
  did_dial : Result Handle → Event
  did_open : Handle → Result Handle → Event
  did_close_conn : Handle → Option GoError → Event
  did_close_channel : Handle → Option GoError → Event
  did_declare : Declaration → Option GoError → Event
  did_publish : (exchange key : String) → Publishing → Option GoError → Event
  did_qos : ℤ → Option GoError → Event
  did_consume : String → Option GoError → Event
  did_handle : Delivery → Option GoError → Event
  did_ack : Delivery → Option GoError → Event
  did_nack : Delivery → Bool → Option GoError → Event
  span_start span_end : Event
  did_wait : ℤ → Bool → Event

pub record Outside (W : Type 0) : Type 0 where
  pub world : W
  pub trace : List Event

module _ {W : Type 0} (env : Env W) where
  unfoldable pub dial : Outside W → Result Handle × Outside W
  dial s = let (r, w) = env.dial s.world in (r, record { world = w; trace = did_dial r ∷ s.trace })

  unfoldable pub open_channel : Handle → Outside W → Result Handle × Outside W
  open_channel conn s =
      let (r, w) = env.open_channel conn s.world in
      (r, record { world = w; trace = did_open conn r ∷ s.trace })

  unfoldable pub close_conn : Handle → Outside W → Option GoError × Outside W
  close_conn conn s =
      let (e, w) = env.close_conn conn s.world in
      (e, record { world = w; trace = did_close_conn conn e ∷ s.trace })

  unfoldable pub close_channel : Handle → Outside W → Option GoError × Outside W
  close_channel ch s =
      let (e, w) = env.close_channel ch s.world in
      (e, record { world = w; trace = did_close_channel ch e ∷ s.trace })

  unfoldable pub declare : Handle → Declaration → Outside W → Option GoError × Outside W
  declare ch d s =
      let (e, w) = env.declare ch d s.world in
      (e, record { world = w; trace = did_declare d e ∷ s.trace })

  unfoldable pub publish :
      Handle → (exchange key : String) → Publishing → Outside W → Option GoError × Outside W
  publish ch exchange key m s =
      let (e, w) = env.publish ch exchange key m s.world in
      (e, record { world = w; trace = did_publish exchange key m e ∷ s.trace })

  unfoldable pub qos : Handle → ℤ → Outside W → Option GoError × Outside W
  qos ch n s =
      let (e, w) = env.qos ch n s.world in (e, record { world = w; trace = did_qos n e ∷ s.trace })

  unfoldable pub consume : Handle → String → Outside W → Option GoError × Outside W
  consume ch queue s =
      let (e, w) = env.consume ch queue s.world in
      (e, record { world = w; trace = did_consume queue e ∷ s.trace })

  unfoldable pub ack : Delivery → Outside W → Option GoError × Outside W
  ack d s =
      let (e, w) = env.ack d s.world in (e, record { world = w; trace = did_ack d e ∷ s.trace })

  unfoldable pub nack : Delivery → Bool → Outside W → Option GoError × Outside W
  nack d requeue s =
      let (e, w) = env.nack d requeue s.world in
      (e, record { world = w; trace = did_nack d requeue e ∷ s.trace })

  unfoldable pub wait : ℤ → Outside W → Bool × Outside W
  wait d s =
      let (b, w) = env.wait d s.world in (b, record { world = w; trace = did_wait d b ∷ s.trace })
