-- ===== src/Tests/Live.antt =====
-- Rooms, subscriptions, the event log and what is announced.
use nivara_api_nestjs.Realtime.EventLog.Store.{get, append, EventLog, RoomLog, replay}
use nivara_api_nestjs.Realtime.EventLog.Replay.{replay_complete, numbered, replay_sound, Ordered}
use nivara_api_nestjs.Realtime.Joining.{
  can_join_verdicts, requires_requester_match, room_tenant, allow, can_join,
}
use nivara_api_nestjs.Shared.{
  String, false, is_uuid, refl, ◌↔◌, true, [], some, arith, ◌∷◌, ◌≡◌, All,
}
use nivara_api_nestjs.Realtime.Events.{
  realtime_tenant, is_staff, resolution, ticket_updated, can_receive, sla_breached, contact,
  of_breach, Payload, RealtimeEnvelope,
}
use nivara_api_nestjs.Realtime.Rooms.RoundTrip.{parse_room-build}
use nivara_api_nestjs.Shared.Uuid.{is_uuid}
use nivara_api_nestjs.Realtime.Rooms.{
  Room, internal, internal_room, ticket_room, agents, ticket, agents_room, parse_room,
}
use nivara_api_nestjs.Realtime.Service.Privacy.{announce-IsPrivate, IsPrivate}
use nivara_api_nestjs.Tests.Samples.{open_ticket, event, ticket_id, acme, contact_principal}
use nivara_api_nestjs.Realtime.Service.{updated, announce}
use nivara_api_nestjs.Realtime.EventLog.Bounds.{append-IsValid, IsValid, RoomValid}
use nivara_api_nestjs.Realtime.EventLog.Sequence.{run-Rising, run, Rising}

parse_room-build_example :
    (parse_room (agents_room acme) ≡ some (agents acme))
    × (parse_room (ticket_room acme ticket_id) ≡ some (ticket acme ticket_id))
    × (parse_room (internal_room acme ticket_id) ≡ some (internal acme ticket_id))
parse_room-build_example =
    parse_room-build acme ticket_id (unfold is_uuid in refl) (unfold is_uuid in refl)

can_join_verdicts_example :
    ((can_join (contact contact_principal) (agents_room acme) ≡ allow) ↔ (
      (is_staff (contact contact_principal) ≡ true)
      × ((r : Room) × (parse_room (agents_room acme) ≡ some r)
          × (room_tenant r ≡ realtime_tenant (contact contact_principal)))))
    × ((can_join (contact contact_principal) (agents_room acme) ≡ requires_requester_match) ↔ (
        (is_staff (contact contact_principal) ≡ false)
        × ((k : String) × (parse_room (agents_room acme)
              ≡ some (ticket (realtime_tenant (contact contact_principal)) k)))))
can_join_verdicts_example = can_join_verdicts (contact contact_principal) (agents_room acme)

abbrev breach : Payload
breach = of_breach (record { ticket_id = ticket_id; timer = resolution; breached_at = 5 })

-- A log of one room, whose buffer holds the last two of its events.
abbrev room_log : RoomLog
room_log = record { head = 4; buffer = event 3 sla_breached ∷ event 4 ticket_updated ∷ [] }

abbrev full_log : EventLog
full_log = record {
  retain_per_room = 2;
  max_rooms = 1;
  rooms = ("t:x:agents", room_log) ∷ [];
  evicted_high_water = 9;
}

room_log-RoomValid : RoomValid 2 room_log
room_log-RoomValid = record {
  before = 2;
  consecutive = (refl, (refl, refl));
  retained = omega arith;
}

full_log-IsValid : IsValid full_log
full_log-IsValid = record {
  some_room = omega arith;
  bounded = omega arith;
  each = (room_log-RoomValid, tt);
}

append-IsValid_example : IsValid (append full_log "t:y:agents" sla_breached breach 6).0
append-IsValid_example = append-IsValid full_log "t:y:agents" sla_breached breach 6 full_log-IsValid

run-Rising_example : Rising "t:x:agents" 0 (
    run full_log (
      record { room = "t:y:agents"; event = sla_breached; payload = breach; now = 6 }
      ∷ record { room = "t:x:agents"; event = sla_breached; payload = breach; now = 7 }
      ∷ []))
run-Rising_example =
    run-Rising full_log
      (record { room = "t:y:agents"; event = sla_breached; payload = breach; now = 6 }
        ∷ record { room = "t:x:agents"; event = sla_breached; payload = breach; now = 7 }
        ∷ [])
      "t:x:agents"

replay_complete_example :
    (e : RealtimeEnvelope) × (numbered 4 room_log.buffer ≡ some e)
    × (e.seq ≡ 4)
    × (can_receive (contact contact_principal) e.event ≡ true
        → numbered 4 (replay full_log (contact contact_principal) "t:x:agents" 2).events ≡ some e)
replay_complete_example =
    replay_complete full_log (contact contact_principal) "t:x:agents" 2 4 room_log
      (unfold get in refl) room_log-RoomValid (omega arith) (unfold replay in refl) (omega arith)
      (omega arith)

replay_sound_example :
    Ordered
      (contact contact_principal)
      2
      (replay full_log (contact contact_principal) "t:x:agents" 2).events
      4
replay_sound_example =
    replay_sound full_log (contact contact_principal) "t:x:agents" 2 room_log (unfold get in refl)
      room_log-RoomValid

announce-IsPrivate_example : All (IsPrivate acme) (announce full_log 6 (updated open_ticket)).1
announce-IsPrivate_example =
    announce-IsPrivate full_log 6 (updated open_ticket)
      (unfold is_uuid in refl, unfold is_uuid in refl)

-- What is withheld from a customer: the breach in the buffer, which only staff receive.
withheld :
    (replay full_log (contact contact_principal) "t:x:agents" 2).events
    ≡ (event 4 ticket_updated ∷ [])
unfolding replay can_receive
withheld = refl
