-- ===== src/Realtime/EventLog/Bounds.antt =====
-- How large the log of src/realtime/event-log.ts can grow, and that each room's buffer holds the
-- last events of the room, without a hole.
use nivara_api_nestjs.Shared.{none}
use nivara_api_nestjs.Realtime.EventLog.Store.{
  envelope, append, evict_oldest, make_space, touched, Rooms, delete, get, overwrite, trim, RoomLog,
  EventLog,
}
use nivara_api_nestjs.Realtime.Events.{Payload, RealtimeEvent, RealtimeEnvelope}
use nivara_api_nestjs.Shared.{
  Option, leb, eq_iff, inr, inl, str_eq, ◌<◌, ltb, some, length-append, Bool-cases, refl, [],
  String, ◌++◌, ◌∷◌, All, List, length, ℕ, ◌≡◌, ◌≤◌, suc, arith,
}
use mathlib.Core.Path.{subst}

-- The sequence numbers of a buffer are those from `lo + 1` up to `hi`.
abbrev pub Consecutive : ℕ → List RealtimeEnvelope → ℕ → Type 0
Consecutive lo [] hi = lo ≡ hi
Consecutive lo (e ∷ es) hi = (e.seq ≡ suc lo) × Consecutive (suc lo) es hi

pub record RoomValid (retain : ℕ) (l : RoomLog) : Type 0 where
  pub before : ℕ
  pub consecutive : Consecutive before l.buffer l.head
  pub retained : length l.buffer ≤ retain

pub record IsValid (s : EventLog) : Type 0 where
  pub some_room : 0 < s.max_rooms
  pub bounded : length s.rooms ≤ s.max_rooms
  pub each : All (λ (e : String × RoomLog). RoomValid s.retain_per_room e.1) s.rooms

Consecutive-snoc :
    (lo hi : ℕ) (es : List RealtimeEnvelope) (e : RealtimeEnvelope)
    → Consecutive lo es hi
    → e.seq ≡ suc hi
    → Consecutive lo (es ++ e ∷ []) (suc hi)
Consecutive-snoc lo hi [] e h k = ground arith
Consecutive-snoc lo hi (x ∷ es) e (h, hs) k = (h, Consecutive-snoc (suc lo) hi es e hs k)

trim-Consecutive :
    (retain lo hi : ℕ) (es : List RealtimeEnvelope)
    → Consecutive lo es hi
    → length es ≤ suc retain
    → (lo' : ℕ) × Consecutive lo' (trim retain es) hi × (length (trim retain es) ≤ retain)
unfolding trim
trim-Consecutive retain lo hi [] h k = (lo, ground arith, ground arith)
trim-Consecutive retain lo hi (x ∷ es) h k = elim (Bool-cases (ltb retain (length (x ∷ es)))) [
  | inl over ↦ rw over (suc lo, h.1, omega arith)
  | inr fits ↦ rw fits (lo, h, ground arith)
]

abbrev grown_log : ℕ → RoomLog → RealtimeEnvelope → RoomLog
grown_log retain l e = record { head = suc l.head; buffer = trim retain (l.buffer ++ e ∷ []) }

grown-RoomValid :
    (retain : ℕ) (l : RoomLog) (e : RealtimeEnvelope)
    → RoomValid retain l
    → e.seq ≡ suc l.head
    → RoomValid retain (grown_log retain l e)
grown-RoomValid retain l e v h =
    let (lo, c, r) =
      trim-Consecutive retain v.before (suc l.head) (l.buffer ++ e ∷ [])
        (Consecutive-snoc v.before l.head l.buffer e v.consecutive h)
        (omega (arith, v.retained, length-append {0} l.buffer (e ∷ []))) in
    record { before = lo; consecutive = c; retained = r }

-- The list of rooms.
module _ (P : RoomLog → Type 0) where
  abbrev EachRoom : Rooms → Type 0
  EachRoom = All (λ e. P e.1)

  get-EachRoom :
      (room : String) (rs : Rooms) {l : RoomLog} → EachRoom rs → get room rs ≡ some l → P l
  unfolding get
  get-EachRoom room [] h e = cc
  get-EachRoom room ((k, l') ∷ rs) h e = elim (Bool-cases (str_eq k room)) [
    | inl same ↦ subst P (ground arith) h.0
    | inr other ↦ get-EachRoom room rs h.1 (rw (other, get) at e)
  ]

  delete-EachRoom : (room : String) (rs : Rooms) → EachRoom rs → EachRoom (delete room rs)
  unfolding delete
  delete-EachRoom room [] h = tt
  delete-EachRoom room ((k, l) ∷ rs) h = ground (arith, delete-EachRoom room rs)

  snoc-EachRoom :
      (rs : Rooms) (e : String × RoomLog) → EachRoom rs → P e.1 → EachRoom (rs ++ e ∷ [])
  snoc-EachRoom [] e h k = (k, tt)
  snoc-EachRoom (r ∷ rs) e (h, hs) k = (h, snoc-EachRoom rs e hs k)

  overwrite-EachRoom :
      (room : String) (l : RoomLog) (rs : Rooms)
      → EachRoom rs
      → P l
      → EachRoom (overwrite room l rs)
  unfolding overwrite
  overwrite-EachRoom room l [] h k = tt
  overwrite-EachRoom room l ((j, m) ∷ rs) (h, hs) k =
      ground (arith, overwrite-EachRoom room l rs hs k)

length-delete-le : (room : String) (rs : Rooms) → length (delete room rs) ≤ length rs
unfolding delete
length-delete-le room [] = omega arith
length-delete-le room ((k, l) ∷ rs) = ground (arith, length-delete-le room rs)

length-delete-lt :
    (room : String) (rs : Rooms) (l : RoomLog)
    → get room rs ≡ some l
    → length (delete room rs) < length rs
unfolding get delete
length-delete-lt room [] l e = cc
length-delete-lt room ((k, l') ∷ rs) l e =
    ground (arith, length-delete-le room rs, length-delete-lt room rs l)

length-overwrite :
    (room : String) (l : RoomLog) (rs : Rooms) → length (overwrite room l rs) ≡ length rs
unfolding overwrite
length-overwrite room l [] = refl
length-overwrite room l ((k, m) ∷ rs) = ground (arith, length-overwrite room l rs)

-- What `make_space` leaves: the limits, valid rooms, and room for one more.
record HasSpace (s s' : EventLog) : Type 0 where
  retain : s'.retain_per_room ≡ s.retain_per_room
  limit : s'.max_rooms ≡ s.max_rooms
  space : length s'.rooms < s.max_rooms
  valid : All (λ (e : String × RoomLog). RoomValid s.retain_per_room e.1) s'.rooms

get_first : (k : String) (l : RoomLog) (rs : Rooms) → get k ((k, l) ∷ rs) ≡ some l
unfolding get
get_first k l rs = ground (arith, eq_iff k k)

evict_oldest-HasSpace :
    (s : EventLog) (rs : Rooms) → s.rooms ≡ rs → IsValid s → HasSpace s (evict_oldest rs s)
unfolding evict_oldest
evict_oldest-HasSpace s [] e v = record {
  retain = refl;
  limit = refl;
  space = rw e v.some_room;
  valid = v.each;
}
evict_oldest-HasSpace s ((k, l) ∷ rs) e v = record {
  retain = refl;
  limit = refl;
  space = omega (arith, v.bounded, length-delete-lt k s.rooms l (rw e (get_first k l rs)));
  valid = delete-EachRoom (RoomValid s.retain_per_room) k s.rooms v.each;
}

make_space-HasSpace : (s : EventLog) → IsValid s → HasSpace s (make_space s)
unfolding make_space
make_space-HasSpace s v = elim (Bool-cases (leb s.max_rooms (length s.rooms))) [
  | inl full ↦ rw full (evict_oldest-HasSpace s s.rooms refl v)
  | inr fits ↦
      rw fits (record { retain = refl; limit = refl; space = ground arith; valid = v.each })
]

length-snoc : (rs : Rooms) (e : String × RoomLog) → length (rs ++ e ∷ []) ≡ suc (length rs)
length-snoc rs e = omega (arith, length-append {0} rs (e ∷ []))

-- What `touch` returns: a valid log, and the valid log of the room that was asked for.
touched-IsValid :
    (s : EventLog) (room : String) (o : Option RoomLog)
    → get room s.rooms ≡ o
    → IsValid s
    → let (s', l) = touched s room o in
      (s'.retain_per_room ≡ s.retain_per_room) × IsValid s' × RoomValid s.retain_per_room l
unfolding touched
touched-IsValid s room (some l) e v =
    let here = get-EachRoom (RoomValid s.retain_per_room) room s.rooms v.each e in
    (
      refl,
      record {
        some_room = v.some_room;
        bounded = omega (
          arith,
          v.bounded,
          length-delete-lt room s.rooms l e,
          length-snoc (delete room s.rooms) (room, l),
        );
        each =
            snoc-EachRoom (RoomValid s.retain_per_room) (delete room s.rooms) (room, l)
              (delete-EachRoom (RoomValid s.retain_per_room) room s.rooms v.each) here;
      },
      here,
    )
touched-IsValid s room none e v =
    let h = make_space-HasSpace s v in
    let s' = make_space s in
    let fresh : RoomLog = record { head = s'.evicted_high_water; buffer = [] } in
    let empty : RoomValid s.retain_per_room fresh = record {
      before = s'.evicted_high_water;
      consecutive = refl;
      retained = omega arith;
    } in
    (
      h.retain,
      record {
        some_room = omega (arith, h.limit, v.some_room);
        bounded = omega (arith, h.space, h.limit, length-snoc s'.rooms (room, fresh));
        each =
            rw h.retain
              (snoc-EachRoom (RoomValid s.retain_per_room) s'.rooms (room, fresh) h.valid empty);
      },
      empty,
    )

-- Every append keeps the event log within its two limits, and each room's buffer the last events
-- of the room, numbered without a hole up to the room's head.
pub append-IsValid :
    (s : EventLog) (room : String) (event : RealtimeEvent) (payload : Payload) (now : ℕ)
    → IsValid s
    → IsValid (append s room event payload now).0
unfolding append
append-IsValid s room event payload now v =
    let (retain, valid, here) = touched-IsValid s room (get room s.rooms) refl v in
    let (s', l) = touched s room (get room s.rooms) in
    let e = envelope room event payload now l in
    let grown = grown-RoomValid s'.retain_per_room l e (rw retain here) refl in
    record {
      some_room = valid.some_room;
      bounded =
          omega (
            arith,
            valid.bounded,
            length-overwrite room (grown_log s'.retain_per_room l e) s'.rooms,
          );
      each =
          overwrite-EachRoom (RoomValid s'.retain_per_room) room (grown_log s'.retain_per_room l e)
            s'.rooms valid.each grown;
    }
