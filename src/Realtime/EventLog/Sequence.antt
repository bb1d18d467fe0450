-- ===== src/Realtime/EventLog/Sequence.antt =====
-- Sequence numbers of src/realtime/event-log.ts: a room's numbers only ever rise, also when the
-- room was evicted and came back.
use nivara_api_nestjs.Shared.{
  true, inr, inl, Bool-cases, List, suc, refl, [], eq_iff, false, ◌<◌, arith, if◌then◌else◌, none,
  str_eq, ◌∷◌, some, ◌++◌, ◌≡◌, ◌≤◌, String, Option, ℕ,
}
use mathlib.Core.Path.{subst}
use nivara_api_nestjs.Realtime.EventLog.Store.{
  envelope, trim, RoomLog, Rooms, delete, overwrite, EventLog, append, evict_oldest, get,
  make_space, touched,
}
use Prim.Native.Nat.{suc, ℕ}
use nivara_api_nestjs.Realtime.Events.{RealtimeEnvelope, Payload, RealtimeEvent}

-- A lower bound of every number that the room has been given.
bound_of : ℕ → Option RoomLog → ℕ
bound_of high none = high
bound_of high (some l) = l.head

unfoldable pub bound : EventLog → String → ℕ
unfolding bound_of
bound s room = bound_of s.evicted_high_water (get room s.rooms)

get-delete :
    (k j : String) (rs : Rooms) → get j (delete k rs) ≡ (if str_eq k j then none else get j rs)
unfolding get delete
get-delete k j [] = ground arith
get-delete k j ((i, l) ∷ rs) = ground (arith, eq_iff k j, eq_iff i k, eq_iff i j, get-delete k j rs)

abbrev or_else : Option RoomLog → Option RoomLog → Option RoomLog
or_else none b = b
or_else (some l) b = some l

get-snoc :
    (k j : String) (l : RoomLog) (rs : Rooms)
    → get j (rs ++ (k, l) ∷ []) ≡ or_else (get j rs) (if str_eq k j then some l else none)
unfolding get
get-snoc k j l [] = ground arith
get-snoc k j l ((i, m) ∷ rs) = ground (arith, get-snoc k j l rs)

abbrev replaced : Option RoomLog → RoomLog → Option RoomLog
replaced none l = none
replaced (some m) l = some l

get-overwrite :
    (k j : String) (l : RoomLog) (rs : Rooms)
    → get j (overwrite k l rs) ≡ (if str_eq k j then replaced (get j rs) l else get j rs)
unfolding get overwrite
get-overwrite k j l [] = ground arith
get-overwrite k j l ((i, m) ∷ rs) =
    ground (arith, eq_iff k j, eq_iff i k, eq_iff i j, get-overwrite k j l rs)

evict_oldest-bound :
    (s : EventLog) (rs : Rooms) (j : String) → bound s j ≤ bound (evict_oldest rs s) j
unfolding evict_oldest bound
evict_oldest-bound s [] j = omega arith
evict_oldest-bound s ((k, l) ∷ rs) j = ground (arith, get-delete k j s.rooms, eq_iff k j)

make_space-bound : (s : EventLog) (j : String) → bound s j ≤ bound (make_space s) j
unfolding make_space
make_space-bound s j = ground (arith, evict_oldest-bound s s.rooms j)

evict_oldest-get-none :
    (s : EventLog) (rs : Rooms) (j : String)
    → get j s.rooms ≡ none
    → get j (evict_oldest rs s).rooms ≡ none
unfolding evict_oldest
evict_oldest-get-none s [] j e = e
evict_oldest-get-none s ((k, l) ∷ rs) j e = ground (arith, get-delete k j s.rooms)

make_space-get-none :
    (s : EventLog) (j : String) → get j s.rooms ≡ none → get j (make_space s).rooms ≡ none
unfolding make_space
make_space-get-none s j e = ground (arith, evict_oldest-get-none s s.rooms j e)

-- What `touch` gives back for the room, and what it does to the others' bounds.
record Touches (s : EventLog) (room : String) (s' : EventLog) (l : RoomLog) : Type 0 where
  present : get room s'.rooms ≡ some l
  above : bound s room ≤ l.head
  others : (j : String) → str_eq room j ≡ false → bound s j ≤ bound s' j

touched-Touches :
    (s : EventLog) (room : String) (o : Option RoomLog)
    → get room s.rooms ≡ o
    → Touches s room (touched s room o).0 (touched s room o).1
unfolding touched bound
touched-Touches s room (some l) e = record {
  present = ground (
    arith,
    get-snoc room room l (delete room s.rooms),
    get-delete room room s.rooms,
    eq_iff room room,
  );
  above = ground arith;
  others =
      λ j h. ground (arith, get-snoc room j l (delete room s.rooms), get-delete room j s.rooms);
}
touched-Touches s room none e =
    let s' = make_space s in
    let fresh : RoomLog = record { head = s'.evicted_high_water; buffer = [] } in
    record {
      present = ground (
        arith,
        get-snoc room room fresh s'.rooms,
        make_space-get-none s room e,
        eq_iff room room,
      );
      above = ground (arith, make_space-get-none s room e, make_space-bound s room);
      others = λ j h. ground (arith, get-snoc room j fresh s'.rooms, make_space-bound s j);
    }

written : EventLog → String → RoomLog → EventLog
written s room l = record s { rooms = overwrite room l s.rooms }

written-bound :
    (s : EventLog) (room j : String) (l m : RoomLog)
    → get room s.rooms ≡ some m
    → bound (written s room l) j ≡ (if str_eq room j then l.head else bound s j)
unfolding written bound
written-bound s room j l m e = ground (arith, get-overwrite room j l s.rooms, eq_iff room j)

-- One append: its number is above the room's bound and becomes it, and no bound falls.
record Appends (s : EventLog) (room : String) (s' : EventLog) (e : RealtimeEnvelope) : Type 0 where
  of_room : e.room ≡ room
  fresh : bound s room < e.seq
  latest : bound s' room ≡ e.seq
  kept : (j : String) → str_eq room j ≡ false → bound s j ≤ bound s' j

append-Appends :
    (s : EventLog) (room : String) (event : RealtimeEvent) (payload : Payload) (now : ℕ)
    → Appends s room (append s room event payload now).0 (append s room event payload now).1
unfolding append written
append-Appends s room event payload now =
    let t = touched-Touches s room (get room s.rooms) refl in
    let (s', l) = touched s room (get room s.rooms) in
    let l' : RoomLog = record {
      head = suc l.head;
      buffer = trim s'.retain_per_room (l.buffer ++ envelope room event payload now l ∷ []);
    } in
    record {
      of_room = refl;
      fresh = omega (arith, t.above);
      latest = ground (arith, written-bound s' room room l' l t.present, eq_iff room room);
      kept = λ j h. ground (arith, written-bound s' room j l' l t.present, t.others j h);
    }

-- A post is one call of `append`.
pub record Post : Type 0 where
  pub room : String
  pub event : RealtimeEvent
  pub payload : Payload
  pub now : ℕ

pub run : EventLog → List Post → List RealtimeEnvelope
run s [] = []
run s (p ∷ ps) = let (s', e) = append s p.room p.event p.payload p.now in e ∷ run s' ps

-- The numbers that a room is given rise, from above `n` on.
abbrev pub Rising : String → ℕ → List RealtimeEnvelope → Type 0
Rising room n [] = Unit
Rising room n (e ∷ es) = elim (str_eq e.room room) [
  | true ↦ (n < e.seq) × Rising room e.seq es
  | false ↦ Rising room n es
]

Rising-of_same :
    (room : String) (n : ℕ) (e : RealtimeEnvelope) (es : List RealtimeEnvelope)
    → str_eq e.room room ≡ true
    → n < e.seq
    → Rising room e.seq es
    → Rising room n (e ∷ es)
Rising-of_same room n e es h above rest = rw (h, Rising) (above, rest)

Rising-of_other :
    (room : String) (n : ℕ) (e : RealtimeEnvelope) (es : List RealtimeEnvelope)
    → str_eq e.room room ≡ false
    → Rising room n es
    → Rising room n (e ∷ es)
Rising-of_other room n e es h rest = rw (h, Rising) rest

run-Rising_from :
    (s : EventLog) (ps : List Post) (room : String) (n : ℕ)
    → n ≤ bound s room
    → Rising room n (run s ps)
unfolding run
run-Rising_from s [] room n h = tt
run-Rising_from s (p ∷ ps) room n h =
    let a = append-Appends s p.room p.event p.payload p.now in
    let (s', e) = append s p.room p.event p.payload p.now in
    elim (Bool-cases (str_eq p.room room)) [
      | inl same ↦
          let here = (eq_iff p.room room).0 same in
          let fresh : bound s room < e.seq = subst (λ r. bound s r < e.seq) here a.fresh in
          let latest : bound s' room ≡ e.seq = subst (λ r. bound s' r ≡ e.seq) here a.latest in
          Rising-of_same room n e (run s' ps) (rw a.of_room same) (omega (arith, h, fresh))
            (run-Rising_from s' ps room e.seq (omega (arith, latest)))
      | inr other ↦
          Rising-of_other room n e (run s' ps) (rw a.of_room other)
            (run-Rising_from s' ps room n (omega (arith, h, a.kept room other)))
    ]

-- Over any sequence of appends, with any evictions between them, the sequence numbers given out
-- in a room strictly rise.
pub run-Rising : (s : EventLog) (ps : List Post) (room : String) → Rising room 0 (run s ps)
run-Rising s ps room = run-Rising_from s ps room 0 (omega arith)
