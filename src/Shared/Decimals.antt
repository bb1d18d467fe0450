-- ===== src/Shared/Decimals.antt =====
-- That a number is read back from its decimal text.
use Prim.Native.Char.{code}
use Prim.Native.String.{String}
use Prim.Native.Nat.{ℕ, zero, suc, ◌/◌, ◌%◌, ◌+◌, ◌*◌, ◌-◌, ◌<◌}
use mathlib.Core.Bool.{false}
use mathlib.Core.Path.{◌≡◌, refl, sym, ap, ◌∙◌}
use mathlib.Core.Logic.{inl, inr}
use native.Mathlib.Omega.{arith}
use native.Mathlib.Nat.{div-add-mod, mod-lt}
use text.Mathlib.TextLemmas.{nil-append, cons-append}
use nivara_api_nestjs.Shared.Tests.{◌==◌, Bool-cases}
use nivara_api_nestjs.Shared.Text.{digit, decimal_from, decimal}
use Prim.Native.String

unfoldable pub read_digits : ℕ → String → ℕ
read_digits acc String.[] = acc
read_digits acc (String.◌∷◌ c s) = read_digits (acc * 10 + (code c - 48)) s

read_digits-append :
    (acc : ℕ) (s t : String) → read_digits acc (String.◌++◌ s t) ≡ read_digits (read_digits acc s) t
unfolding read_digits
read_digits-append acc String.[] t = rw (nil-append t) refl
read_digits-append acc (String.◌∷◌ c s) t =
    rw (cons-append c s t) (read_digits-append (acc * 10 + (code c - 48)) s t)

read_digits-digit : (acc d : ℕ) → d < 10 → read_digits acc (digit d) ≡ acc * 10 + d
unfolding read_digits digit
read_digits-digit acc zero h = refl
read_digits-digit acc (suc zero) h = refl
read_digits-digit acc (suc (suc zero)) h = refl
read_digits-digit acc (suc (suc (suc zero))) h = refl
read_digits-digit acc (suc (suc (suc (suc zero)))) h = refl
read_digits-digit acc (suc (suc (suc (suc (suc zero))))) h = refl
read_digits-digit acc (suc (suc (suc (suc (suc (suc zero)))))) h = refl
read_digits-digit acc (suc (suc (suc (suc (suc (suc (suc zero))))))) h = refl
read_digits-digit acc (suc (suc (suc (suc (suc (suc (suc (suc zero)))))))) h = refl
read_digits-digit acc (suc (suc (suc (suc (suc (suc (suc (suc (suc n))))))))) h =
    let nine : n ≡ 0 = omega arith in rw nine refl

smaller : (n fuel : ℕ) → n < suc fuel → (n / 10 == 0) ≡ false → n / 10 < fuel
smaller n fuel h e = let split = div-add-mod n 10 in ground arith

read_digits-decimal_from : (fuel n : ℕ) → n < fuel → read_digits 0 (decimal_from fuel n) ≡ n
unfolding decimal_from
read_digits-decimal_from zero n h = absurd (omega arith)
read_digits-decimal_from (suc fuel) n h =
    let split = div-add-mod n 10 in
    let small : n % 10 < 10 = mod-lt n (omega arith) in
    elim (Bool-cases (n / 10 == 0)) [
      | inl one ↦ rw one (omega (arith, read_digits-digit 0 n (ground arith)))
      | inr more ↦
          let before = read_digits-decimal_from fuel (n / 10) (smaller n fuel h more) in
          rw (more, read_digits-append 0 (decimal_from fuel (n / 10)) (digit (n % 10)), before)
            (omega (arith, read_digits-digit (n / 10) (n % 10) small, split))
    ]

pub decimal-injective : (a b : ℕ) → decimal a ≡ decimal b → a ≡ b
unfolding decimal
decimal-injective a b e =
    sym (read_digits-decimal_from (suc a) a (omega arith))
    ∙ ap (read_digits 0) e
    ∙ read_digits-decimal_from (suc b) b (omega arith)
