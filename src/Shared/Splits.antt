-- ===== src/Shared/Splits.antt =====
-- The parts of a text that is split at a separator.
use Prim.Native.Char.{Char, code}
use Prim.Native.String.{String}
use Prim.Native.Nat.{ℕ}
use mathlib.Core.Path.{◌≡◌, refl}
use mathlib.Core.Bool.{false}
use mathlib.Core.List.{List, [], ◌∷◌}
use native.Mathlib.Omega.{arith}
use text.Mathlib.TextLemmas.{nil-append, cons-append}
use nivara_api_nestjs.Shared.Tests.{◌==◌}
use nivara_api_nestjs.Shared.Text.{split_on}
use nivara_api_nestjs.Shared.Uuid.{codes}
use Prim.Native.String

-- No code of the list is `c`.
abbrev pub Lacks : ℕ → List ℕ → Type 0
Lacks c [] = Unit
Lacks c (d ∷ ds) = ((d == c) ≡ false) × Lacks c ds

-- A part without the separator is split off whole.
pub split_on-append :
    (u s : String) (c : Char)
    → Lacks (code c) (codes u)
    → split_on (code c) (String.◌++◌ u (String.◌∷◌ c s)) ≡ u ∷ split_on (code c) s
unfolding split_on
split_on-append String.[] s c h = rw nil-append (ground arith)
split_on-append (String.◌∷◌ d u) s c (h, hs) =
    rw cons-append (ground (arith, split_on-append u s c hs))

pub split_on-whole : (u : String) (n : ℕ) → Lacks n (codes u) → split_on n u ≡ u ∷ []
unfolding split_on
split_on-whole String.[] n h = refl
split_on-whole (String.◌∷◌ d u) n (h, hs) = ground (arith, split_on-whole u n hs)
