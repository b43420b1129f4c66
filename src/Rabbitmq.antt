-- ===== src/Rabbitmq.antt =====
-- The writing side of src/server/rabbitmq.cpp: `report` and the thread of `message_write_loop`. The
-- broker is outside: each call of `BasicPublish` returns or throws.
pub mod Delivery
use judge_system.Base.{Bool, true, false, String, List, [], ◌∷◌, ◌++◌, if◌then◌else◌}
use judge_system.Queue.{ConcurrentQueue, empty, try_pop, push}

pub record PendingMessage : Type 0 where
  pub message : String
  pub routing_key : String

-- The channel, the variable `message` of the thread, whether the thread is in the loop that sends it, and
-- the messages whose `BasicPublish` returned.
pub record RabbitmqChannel : Type 0 where
  pub routing_key : String  -- of `queue`
  pub server_shutdown : Bool
  pub write_queue : ConcurrentQueue PendingMessage
  pub message : PendingMessage
  pub sending : Bool
  pub published : List PendingMessage

abbrev pub new_channel : String → RabbitmqChannel
new_channel key = record {
  routing_key = key;
  server_shutdown = false;
  write_queue = empty;
  message = record { message = ""; routing_key = "" };
  sending = false;
  published = [];
}

-- `report` with a routing key.
unfoldable pub report_to : String → String → RabbitmqChannel → RabbitmqChannel
unfolding push
report_to message routing_key c = record c {
  write_queue = push c.write_queue (record { message = message; routing_key = routing_key });
}

-- `report` with the routing key of the queue.
unfoldable pub report_default : String → RabbitmqChannel → RabbitmqChannel
unfolding report_to
report_default message c = report_to message c.routing_key c

-- One round of a loop of `message_write_loop`: of the inner one, where `BasicPublish` returns or not, or
-- of the outer one.
unfoldable pub write_round : Bool → RabbitmqChannel → RabbitmqChannel
unfolding try_pop
write_round returns c =
    if c.sending
    then (if returns
        then record c { sending = false; published = c.published ++ c.message ∷ [] }
        else c)
    else if c.server_shutdown
    then c
    else let (popped, message, queue) = try_pop c.write_queue c.message in
      record c { write_queue = queue; message = message; sending = popped }

-- The destructor.
abbrev pub shut_down : RabbitmqChannel → RabbitmqChannel
shut_down c = record c { server_shutdown = true }

-- What the threads do to a channel, one step at a time.
pub data Event : Type 0 where
  reported : (message : String) → Event
  reported_to : (message : String) (routing_key : String) → Event
  round : (returns : Bool) → Event
  ended : Event

unfoldable pub step : Event → RabbitmqChannel → RabbitmqChannel
unfolding report_default report_to write_round
step (reported message) c = report_default message c
step (reported_to message routing_key) c = report_to message routing_key c
step (round returns) c = write_round returns c
step ended c = shut_down c

unfoldable pub run : List Event → RabbitmqChannel → RabbitmqChannel
unfolding step
run [] c = c
run (e ∷ es) c = run es (step e c)
