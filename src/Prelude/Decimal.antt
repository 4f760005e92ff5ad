-- ===== src/Prelude/Decimal.antt =====
-- `%d` and `big.Int.String`: decimal text, with the laws that make it a code for numbers.
use listener_go.Prelude.Strings.{Text}
use listener_go.Prelude.Int.{ℤ, pos, negsuc}
use listener_go.Prelude.Tests.{ltb, if◌then◌else◌}
use listener_go.Prelude.Lists.{All}
use Prim.Native.Nat.{ℕ, zero, suc, ◌+◌, ◌-◌, ◌*◌, ◌/◌, ◌%◌, ◌≤◌, ◌<◌}
use mathlib.Core.List.{[], ◌∷◌, ◌++◌}
use mathlib.Core.Path.{◌≡◌, refl, ap, sym, ◌∙◌}
use native.Mathlib.Omega.{arith}

digits_from : ℕ → ℕ → Text
digits_from zero n = []
digits_from (suc f) n =
    let higher = digits_from f (n / 10) in
    if ltb n 10 then (b'0' + n) ∷ [] else higher ++ (b'0' + n % 10) ∷ []

-- The number of digits is at most `n + 1`.
unfoldable pub show_ℕ : ℕ → Text
unfolding digits_from
show_ℕ n = digits_from (suc n) n

unfoldable pub show_ℤ : ℤ → Text
show_ℤ (pos n) = show_ℕ n
show_ℤ (negsuc n) = b'-' ∷ show_ℕ (suc n)

pub read_from : ℕ → Text → ℕ
read_from acc [] = acc
read_from acc (c ∷ s) = read_from (acc * 10 + (c - b'0')) s

read_from-append : (acc : ℕ) (s t : Text) → read_from acc (s ++ t) ≡ read_from (read_from acc s) t
unfolding read_from
read_from-append acc [] t = refl
read_from-append acc (c ∷ s) t = read_from-append (acc * 10 + (c - b'0')) s t

read_from-digits_from : (f n : ℕ) → n < f → read_from 0 (digits_from f n) ≡ n
unfolding digits_from read_from
read_from-digits_from zero n h = absurd (omega arith)
read_from-digits_from (suc f) n h = ground (
  arith,
  read_from-digits_from f (n / 10),
  read_from-append 0 (digits_from f (n / 10)) ((b'0' + n % 10) ∷ []),
)

-- Reading the digits back gives the number.
read_from-show_ℕ : (n : ℕ) → read_from 0 (show_ℕ n) ≡ n
unfolding show_ℕ
read_from-show_ℕ n = read_from-digits_from (suc n) n (omega arith)

pub show_ℕ-injective : (m n : ℕ) → show_ℕ m ≡ show_ℕ n → m ≡ n
show_ℕ-injective m n e = sym (read_from-show_ℕ m) ∙ ap (read_from 0) e ∙ read_from-show_ℕ n

abbrev pub IsDigit : ℕ → Type 0
IsDigit c = (b'0' ≤ c) × (c ≤ b'9')

pub All-append : (P : ℕ → Type 0) (s t : Text) → All P s → All P t → All P (s ++ t)
All-append P [] t hs ht = ht
All-append P (c ∷ s) t hs ht = (hs.0, All-append P s t hs.1 ht)

digits_from-IsDigit : (f n : ℕ) → All IsDigit (digits_from f n)
unfolding digits_from
digits_from-IsDigit zero n = tt
digits_from-IsDigit (suc f) n = ground (
  arith,
  All-append IsDigit (digits_from f (n / 10)) ((b'0' + n % 10) ∷ [])
      (digits_from-IsDigit f (n / 10)),
)

pub show_ℕ-IsDigit : (n : ℕ) → All IsDigit (show_ℕ n)
unfolding show_ℕ
show_ℕ-IsDigit n = digits_from-IsDigit (suc n) n
