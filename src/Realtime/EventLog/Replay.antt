-- ===== src/Realtime/EventLog/Replay.antt =====
-- What a client gets that comes back with the last sequence number it saw
-- (src/realtime/event-log.ts, `replay`).
use nivara_api_nestjs.Realtime.Events.{
  message_created, ticket_assigned, ticket_updated, ticket_created, integration_failed,
  sla_breached, note_created, is_staff, RealtimeEvent, audience_of, can_receive, RealtimeEnvelope,
  RealtimePrincipal,
}
use nivara_api_nestjs.Shared.{
  ◌≢◌, suc, inr, inl, Bool-cases, [], ◌==◌, arith, if◌then◌else◌, true, false, ◌&&◌, ◌∷◌, ◌≤◌, ltb,
  none, some, ◌<◌, Bool, Option, String, ◌≡◌, List, filter_by, ℕ,
}
use Prim.Native.Nat.{suc, ℕ}
use nivara_api_nestjs.Realtime.EventLog.Store.{replay_room, get, RoomLog, EventLog, has_gap, replay}
use nivara_api_nestjs.Realtime.EventLog.Bounds.{RoomValid, Consecutive}

-- The event with a given number, among those of a list.
abbrev pub numbered : ℕ → List RealtimeEnvelope → Option RealtimeEnvelope
numbered n [] = none
numbered n (e ∷ es) = if e.seq == n then some e else numbered n es

numbered_of_Consecutive :
    (lo n hi : ℕ) (es : List RealtimeEnvelope)
    → Consecutive lo es hi
    → lo < n
    → n ≤ hi
    → (e : RealtimeEnvelope) × (numbered n es ≡ some e) × (e.seq ≡ n)
numbered_of_Consecutive lo n hi [] c h k = absurd (omega arith)
numbered_of_Consecutive lo n hi (x ∷ es) (c, cs) h k = elim (Bool-cases (x.seq == n)) [
  | inl here ↦ (x, rw here, ground arith)
  | inr later ↦ rw later (numbered_of_Consecutive (suc lo) n hi es cs (ground arith) k)
]

abbrev wanted : RealtimePrincipal → ℕ → RealtimeEnvelope → Bool
wanted p after e = ltb after e.seq && can_receive p e.event

numbered-filter_by :
    (p : RealtimePrincipal) (after n : ℕ) (es : List RealtimeEnvelope) (e : RealtimeEnvelope)
    → numbered n es ≡ some e
    → after < n
    → can_receive p e.event ≡ true
    → numbered n (filter_by (wanted p after) es) ≡ some e
unfolding filter_by
numbered-filter_by p after n [] e q h k = cc
numbered-filter_by p after n (x ∷ es) e q h k = ground (arith, numbered-filter_by p after n es e)

before_of_gap :
    (after lo hi : ℕ) (es : List RealtimeEnvelope)
    → Consecutive lo es hi
    → 0 < after
    → has_gap after es ≡ false
    → lo ≤ after
unfolding has_gap
before_of_gap after lo hi [] c h g = absurd (ground arith)
before_of_gap after lo hi (x ∷ es) c h g = ground arith

-- A replay that reports no gap returns every event of a room with a valid buffer that came after
-- the client's cursor, if the cursor is not 0, and that the client may receive.
pub replay_complete :
    (s : EventLog) (p : RealtimePrincipal) (room : String) (after n : ℕ) (l : RoomLog)
    → get room s.rooms ≡ some l
    → RoomValid s.retain_per_room l
    → 0 < after
    → (replay s p room after).gap ≡ false
    → after < n
    → n ≤ l.head
    → (e : RealtimeEnvelope) × (numbered n l.buffer ≡ some e)
      × (e.seq ≡ n)
      × (can_receive p e.event ≡ true → numbered n (replay s p room after).events ≡ some e)
unfolding replay
replay_complete s p room after n l e v h g k m =
    let g' : has_gap after l.buffer ≡ false = rw (e, replay_room) at g in
    let lo = before_of_gap after v.before l.head l.buffer v.consecutive h g' in
    let (x, found, seq) =
      numbered_of_Consecutive v.before n l.head l.buffer v.consecutive (omega (arith, lo)) m in
    (x, found, seq, λ r. rw e (numbered-filter_by p after n l.buffer x found k r))

-- An event that is shown to a client: a customer gets no note, no breach and no failed delivery.
abbrev pub Shown : RealtimePrincipal → RealtimeEvent → Type 0
Shown p event =
    is_staff p ≡ false
    → (event ≢ note_created) × (event ≢ sla_breached) × (event ≢ integration_failed)

-- Events in the order of their numbers, each once, after a number and up to another.
abbrev pub Ordered : RealtimePrincipal → ℕ → List RealtimeEnvelope → ℕ → Type 0
Ordered p after [] hi = Unit
Ordered p after (e ∷ es) hi =
    (after < e.seq) × (e.seq ≤ hi) × Shown p e.event × Ordered p e.seq es hi

Shown-can_receive :
    (p : RealtimePrincipal) (event : RealtimeEvent) → can_receive p event ≡ true → Shown p event
unfolding can_receive audience_of
Shown-can_receive p ticket_created h s = (λ e. cc, λ e. cc, λ e. cc)
Shown-can_receive p ticket_updated h s = (λ e. cc, λ e. cc, λ e. cc)
Shown-can_receive p ticket_assigned h s = (λ e. cc, λ e. cc, λ e. cc)
Shown-can_receive p message_created h s = (λ e. cc, λ e. cc, λ e. cc)
Shown-can_receive p note_created h s = absurd (cc)
Shown-can_receive p sla_breached h s = absurd (cc)
Shown-can_receive p integration_failed h s = absurd (cc)

Consecutive-le : (lo hi : ℕ) (es : List RealtimeEnvelope) → Consecutive lo es hi → lo ≤ hi
Consecutive-le lo hi [] c = omega arith
Consecutive-le lo hi (x ∷ es) (c, cs) = let le = Consecutive-le (suc lo) hi es cs in omega arith

Ordered-filter_by :
    (p : RealtimePrincipal) (after m lo hi : ℕ) (es : List RealtimeEnvelope)
    → Consecutive lo es hi
    → m ≤ lo
    → Ordered p m (filter_by (wanted p after) es) hi
unfolding filter_by
Ordered-filter_by p after m lo hi [] c le = tt
Ordered-filter_by p after m lo hi (x ∷ es) (c, cs) le =
    let upto = Consecutive-le (suc lo) hi es cs in
    elim (Bool-cases (wanted p after x)) [
      | inl kept ↦ rw kept (
        omega arith,
        omega arith,
        Shown-can_receive p x.event (ground arith),
        Ordered-filter_by p after x.seq (suc lo) hi es cs (omega arith),
      )
      | inr passed ↦ rw passed (Ordered-filter_by p after m (suc lo) hi es cs (omega arith))
    ]

Ordered-replayed :
    (p : RealtimePrincipal) (after lo hi : ℕ) (es : List RealtimeEnvelope)
    → Consecutive lo es hi
    → Ordered p after (filter_by (wanted p after) es) hi
unfolding filter_by
Ordered-replayed p after lo hi [] c = tt
Ordered-replayed p after lo hi (x ∷ es) (c, cs) =
    let upto = Consecutive-le (suc lo) hi es cs in
    elim (Bool-cases (wanted p after x)) [
      | inl kept ↦ rw kept (
        ground arith,
        omega arith,
        Shown-can_receive p x.event (ground arith),
        Ordered-filter_by p after x.seq (suc lo) hi es cs (omega arith),
      )
      | inr passed ↦ rw passed (Ordered-replayed p after (suc lo) hi es cs)
    ]

-- From a room with a valid buffer, what is replayed comes in the order of its numbers, each once,
-- after the cursor and up to the room's head; and a client that is not staff gets no note, no
-- breach and no failed delivery.
pub replay_sound :
    (s : EventLog) (p : RealtimePrincipal) (room : String) (after : ℕ) (l : RoomLog)
    → get room s.rooms ≡ some l
    → RoomValid s.retain_per_room l
    → Ordered p after (replay s p room after).events l.head
unfolding replay
replay_sound s p room after l present v =
    rw present (Ordered-replayed p after v.before l.head l.buffer v.consecutive)
