-- ===== src/Realtime/Rooms/RoundTrip.antt =====
-- Room names of src/realtime/rooms.ts are read back as the rooms that they were built for.
use nivara_api_nestjs.Shared.{
  ap, ◌∙◌, zero, none, refl, suc, [], some, true, String, ◌∷◌, ◌≡◌, List, Option, is_uuid, ℕ,
  Option-cases, inl, inr, arith, split_on, strip_prefix,
}
use nivara_api_nestjs.Realtime.Rooms.{
  parse_parts, internal, ticket, agents, internal_room, ticket_room, agents_room, parse_room, some,
}
use Prim.Native.String.{[], String, ◌∷◌}
use nivara_api_nestjs.Shared.Uuid.{is_uuid, codes, is_hex, hex_run, hyphen, groups, at_end}
use text.Mathlib.TextLemmas.{nil-append, cons-append, append_assoc}
use nivara_api_nestjs.Shared.Splits.{Lacks, split_on-append, split_on-whole}
use Prim.Native.String

hex_run-Lacks :
    (n : ℕ) (cs rest : List ℕ) → hex_run n cs ≡ some rest → Lacks b':' rest → Lacks b':' cs
unfolding hex_run is_hex
hex_run-Lacks zero cs rest e h = ground arith
hex_run-Lacks (suc n) [] rest e h = cc
hex_run-Lacks (suc n) (c ∷ cs) rest e h = ground (arith, hex_run-Lacks n cs rest)

hyphen-Lacks : (cs rest : List ℕ) → hyphen cs ≡ some rest → Lacks b':' rest → Lacks b':' cs
unfolding hyphen
hyphen-Lacks [] rest e h = cc
hyphen-Lacks (c ∷ cs) rest e h = ground arith

groups-Lacks : (ns cs rest : List ℕ) → groups ns cs ≡ some rest → Lacks b':' rest → Lacks b':' cs
unfolding groups
groups-Lacks [] cs rest e h = ground arith
groups-Lacks (n ∷ []) cs rest e h = hex_run-Lacks n cs rest e h
groups-Lacks (n ∷ m ∷ ns) cs rest e h = elim (Option-cases (hex_run n cs)) [
  | inl p ↦ let z : ◌≡◌ {A = Option (List ℕ)} none (some rest) = rw (p, groups) at e in cc
  | inr (after, p) ↦
      let e' = rw (p, groups) at e in
      elim (Option-cases (hyphen after)) [
        | inl q ↦ let z : ◌≡◌ {A = Option (List ℕ)} none (some rest) = rw (q, groups) at e' in cc
        | inr (more, q) ↦
            hex_run-Lacks n cs after p
              (hyphen-Lacks after more q (groups-Lacks (m ∷ ns) more rest (rw (q, groups) at e') h))
      ]
]

at_end-eq : (o : Option (List ℕ)) → at_end o ≡ true → o ≡ some []
unfolding at_end
at_end-eq none e = cc
at_end-eq (some []) e = refl
at_end-eq (some (c ∷ cs)) e = cc

is_uuid-Lacks : (s : String) → is_uuid s ≡ true → Lacks b':' (codes s)
unfolding is_uuid
is_uuid-Lacks s h = groups-Lacks (8 ∷ 4 ∷ 4 ∷ 4 ∷ 12 ∷ []) (codes s) [] (at_end-eq _ h) tt

strip_prefix-append : (p s : String) → strip_prefix p (String.◌++◌ p s) ≡ some s
unfolding strip_prefix
strip_prefix-append String.[] s = rw nil-append
strip_prefix-append (String.◌∷◌ c p) s = rw cons-append (ground (arith, strip_prefix-append p s))

colon_ticket :
    (k : String)
    → String.◌++◌ ":ticket:" k ≡ String.◌∷◌ ":" (String.◌++◌ "ticket" (String.◌∷◌ ":" k))
colon_ticket k =
    cons-append ":" "ticket:" k
    ∙ ap (String.◌∷◌ ":") (
        append_assoc "ticket" ":" k
        ∙ ap (String.◌++◌ "ticket") (cons-append ":" "" k ∙ ap (String.◌∷◌ ":") (nil-append k)))

no_colon : Lacks b':' (codes "ticket") × Lacks b':' (codes "agents") × Lacks b':' (codes "internal")
no_colon = ground arith

-- The body of a ticket's room name, split at its first two colons.
ticket_parts :
    (t rest : String)
    → is_uuid t ≡ true
    → split_on b':' (String.◌++◌ t (String.◌++◌ ":ticket:" rest))
      ≡ t ∷ "ticket" ∷ split_on b':' rest
ticket_parts t rest h = rw colon_ticket (
    split_on-append t (String.◌++◌ "ticket" (String.◌∷◌ ":" rest)) ":" (is_uuid-Lacks t h)
    ∙ ap (◌∷◌ t) (split_on-append "ticket" rest ":" no_colon.0))

internal_parts :
    (k : String)
    → is_uuid k ≡ true
    → split_on b':' (String.◌++◌ k ":internal") ≡ k ∷ "internal" ∷ []
internal_parts k h =
    split_on-append k "internal" ":" (is_uuid-Lacks k h)
    ∙ ap (◌∷◌ k) (split_on-whole "internal" b':' no_colon.2)

agents_parts :
    (t : String) → is_uuid t ≡ true → split_on b':' (String.◌++◌ t ":agents") ≡ t ∷ "agents" ∷ []
agents_parts t h =
    split_on-append t "agents" ":" (is_uuid-Lacks t h)
    ∙ ap (◌∷◌ t) (split_on-whole "agents" b':' no_colon.1)

parse_room_of_body :
    (body : String) → parse_room (String.◌++◌ "t:" body) ≡ parse_parts (split_on b':' body)
unfolding parse_room
parse_room_of_body body = rw (strip_prefix-append "t:" body, parse_room)

-- A room name that is built from uuids is parsed back as the room that it was built for, for all
-- three kinds of room.
pub parse_room-build :
    (t k : String)
    → is_uuid t ≡ true
    → is_uuid k ≡ true
    → (parse_room (agents_room t) ≡ some (agents t))
      × (parse_room (ticket_room t k) ≡ some (ticket t k))
      × (parse_room (internal_room t k) ≡ some (internal t k))
unfolding agents_room ticket_room internal_room parse_parts
parse_room-build t k h g = (
  rw (parse_room_of_body, agents_parts t h, parse_parts, h),
  rw (
    parse_room_of_body,
    ticket_parts t k h,
    split_on-whole k b':' (is_uuid-Lacks k g),
    parse_parts,
    h,
    g,
  ),
  rw (parse_room_of_body, ticket_parts t (String.◌++◌ k ":internal") h, internal_parts k g, h, g),
)
