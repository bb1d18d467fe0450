-- ===== src/Realtime/EventLog/Store.antt =====
-- The state and the operations of `EventLog`.
use nivara_api_nestjs.Shared.{
  ℕ, suc, ◌+◌, max, Bool, ◌&&◌, ltb, leb, Option, none, some, List, [], ◌∷◌, ◌++◌, String, str_eq,
  if◌then◌else◌, length, filter_by,
}
use nivara_api_nestjs.Realtime.Events.{
  RealtimeEvent, RealtimeEnvelope, Payload, RealtimePrincipal, can_receive,
}

abbrev pub retain_per_room_default : ℕ
retain_per_room_default = 200

abbrev pub max_rooms_default : ℕ
max_rooms_default = 2000

pub record RoomLog : Type 0 where
  pub head : ℕ
  pub buffer : List RealtimeEnvelope

abbrev pub Rooms : Type 0
Rooms = List (String × RoomLog)

pub record EventLog : Type 0 where
  pub retain_per_room : ℕ
  pub max_rooms : ℕ
  pub rooms : Rooms
  pub evicted_high_water : ℕ

abbrev pub or_default : Option ℕ → ℕ → ℕ
or_default none d = d
or_default (some n) d = n

unfoldable pub new : Option ℕ → Option ℕ → EventLog
new retain rooms = record {
  retain_per_room = or_default retain retain_per_room_default;
  max_rooms = or_default rooms max_rooms_default;
  rooms = [];
  evicted_high_water = 0;
}

-- `rooms.get(room)`
unfoldable pub get : String → Rooms → Option RoomLog
get room [] = none
get room ((k, l) ∷ rest) = if str_eq k room then some l else get room rest

-- `rooms.delete(room)`
unfoldable pub delete : String → Rooms → Rooms
delete room [] = []
delete room ((k, l) ∷ rest) =
    let others = delete room rest in if str_eq k room then others else (k, l) ∷ others

abbrev pub head_of : Option RoomLog → ℕ
head_of none = 0
head_of (some l) = l.head

unfoldable pub evict_oldest : Rooms → EventLog → EventLog
evict_oldest [] s = s
evict_oldest ((oldest, l) ∷ rest) s = record s {
  evicted_high_water = max s.evicted_high_water (head_of (get oldest s.rooms));
  rooms = delete oldest s.rooms;
}

unfoldable pub make_space : EventLog → EventLog
unfolding evict_oldest
make_space s = if leb s.max_rooms (length s.rooms) then evict_oldest s.rooms s else s

-- The room's log, its entry moved to the end, or a fresh one.
unfoldable pub touched : EventLog → String → Option RoomLog → EventLog × RoomLog
touched s room (some existing) =
    (record s { rooms = delete room s.rooms ++ (room, existing) ∷ [] }, existing)
touched s room none =
    let s' = make_space s in
    let fresh : RoomLog = record { head = s'.evicted_high_water; buffer = [] } in
    (record s' { rooms = s'.rooms ++ (room, fresh) ∷ [] }, fresh)

unfoldable pub touch : EventLog → String → EventLog × RoomLog
unfolding touched get delete
touch s room = touched s room (get room s.rooms)

-- A write through the reference that `touch` returned: the entry of the room holds the new log.
unfoldable pub overwrite : String → RoomLog → Rooms → Rooms
overwrite room log [] = []
overwrite room log ((k, l) ∷ rest) =
    let others = overwrite room log rest in
    if str_eq k room then (k, log) ∷ others else (k, l) ∷ others

abbrev pub drop_first : List RealtimeEnvelope → List RealtimeEnvelope
drop_first [] = []
drop_first (e ∷ es) = es

-- `if (buffer.length > retain) buffer.shift()`
unfoldable pub trim : ℕ → List RealtimeEnvelope → List RealtimeEnvelope
trim retain buffer = if ltb retain (length buffer) then drop_first buffer else buffer

abbrev pub envelope : String → RealtimeEvent → Payload → ℕ → RoomLog → RealtimeEnvelope
envelope room event payload now log = record {
  event = event;
  room = room;
  seq = suc log.head;
  ts = now;
  payload = payload;
}

unfoldable pub append :
    EventLog → String → RealtimeEvent → Payload → ℕ → EventLog × RealtimeEnvelope
unfolding touch overwrite trim
append s room event payload now =
    let (s', log) = touch s room in
    let e = envelope room event payload now log in
    let log' : RoomLog = record {
      head = suc log.head;
      buffer = trim s'.retain_per_room (log.buffer ++ e ∷ []);
    } in
    (record s' { rooms = overwrite room log' s'.rooms }, e)

pub record Replay : Type 0 where
  pub events : List RealtimeEnvelope
  pub gap : Bool

unfoldable pub has_gap : ℕ → List RealtimeEnvelope → Bool
has_gap after [] = ltb 0 after
has_gap after (e ∷ es) = ltb 0 after && ltb (after + 1) e.seq

unfoldable pub replay_room : RealtimePrincipal → ℕ → Option RoomLog → Replay
unfolding has_gap filter_by
replay_room p after none = record { events = []; gap = ltb 0 after }
replay_room p after (some log) = record {
  events = filter_by (λ e. ltb after e.seq && can_receive p e.event) log.buffer;
  gap = has_gap after log.buffer;
}

unfoldable pub replay : EventLog → RealtimePrincipal → String → ℕ → Replay
unfolding replay_room get
replay s p room after = replay_room p after (get room s.rooms)
