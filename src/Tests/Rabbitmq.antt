-- ===== src/Tests/Rabbitmq.antt =====
-- Two reports, and a broker that fails in the first call.
use judge_system.Base.{◌≡◌, refl, Bool, true, false, List, [], ◌∷◌, ◌++◌, map, arith}
use judge_system.Rabbitmq.{PendingMessage, new_channel, Event, reported, reported_to, round, run}
use judge_system.Rabbitmq.Delivery.{held, message_write_loop_lem}

abbrev events : List Event
events = reported "{1}" ∷ round true ∷ round false ∷ reported_to "{2}" "soj" ∷ []

abbrev answers : List Bool
answers = false ∷ true ∷ true ∷ false ∷ true ∷ true ∷ []

abbrev messages : List PendingMessage
messages =
    record { message = "{1}"; routing_key = "report" }
    ∷ record { message = "{2}"; routing_key = "soj" }
    ∷ []

message_write_loop_lem_example :
    (((run events (new_channel "report")).published ++ held (run events (new_channel "report")))
      ≡ messages)
    × ((run (map round answers) (run events (new_channel "report"))).published ≡ messages)
message_write_loop_lem_example = message_write_loop_lem "report" events answers refl (omega arith)
