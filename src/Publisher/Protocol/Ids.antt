-- ===== src/Publisher/Protocol/Ids.antt =====
-- Two deposits with the same id are the same deposit, whatever bytes their hashes hold.
use mathlib.Core.List.{reverse, reverse-append, reverse-reverse, reverse-cons, append_assoc}
use mathlib.Core.Path.{subst}
use listener_go.Prelude.{
  ℕ, suc, ℤ, pos, negsuc, Text, ◌≡◌, ◌≢◌, sym, ap, ◌∙◌, [], ◌∷◌, ◌++◌, All, arith,
}
use listener_go.Prelude.Decimal.{
  show_ℕ, show_ℤ, show_ℕ-injective, show_ℕ-IsDigit, IsDigit, All-append,
}
use listener_go.Database.Tables.{Key}
use listener_go.Publisher.Protocol.{ack_id}

-- No colon in the text.
abbrev NoColon : Text → Type 0
NoColon = All (λ c. c ≢ b':')

IsDigit-NoColon : (s : Text) → All IsDigit s → NoColon s
IsDigit-NoColon [] h = tt
IsDigit-NoColon (c ∷ s) h = (omega arith, IsDigit-NoColon s h.1)

show_ℤ-NoColon : (n : ℤ) → NoColon (show_ℤ n)
unfolding show_ℤ
show_ℤ-NoColon (pos n) = IsDigit-NoColon (show_ℕ n) (show_ℕ-IsDigit n)
show_ℤ-NoColon (negsuc n) = (omega arith, IsDigit-NoColon (show_ℕ (suc n)) (show_ℕ-IsDigit (suc n)))

minus-not-show : (n m : ℕ) → show_ℕ m ≡ b'-' ∷ show_ℕ n → ⊥
minus-not-show n m e =
    let minus : All IsDigit (b'-' ∷ show_ℕ n) = subst (All IsDigit) e (show_ℕ-IsDigit m) in
    omega (arith, minus.0)

show_ℤ-injective : (m n : ℤ) → show_ℤ m ≡ show_ℤ n → m ≡ n
unfolding show_ℤ
show_ℤ-injective (pos m) (pos n) e = ap pos (show_ℕ-injective m n e)
show_ℤ-injective (negsuc m) (negsuc n) e =
    let tails : show_ℕ (suc m) ≡ show_ℕ (suc n) = cc in
    let sucs : suc m ≡ suc n = show_ℕ-injective (suc m) (suc n) tails in ap negsuc (omega arith)
show_ℤ-injective (pos m) (negsuc n) e = absurd (minus-not-show (suc n) m e)
show_ℤ-injective (negsuc m) (pos n) e = absurd (minus-not-show (suc m) n (sym e))

-- The first colon splits a text in one way.
split_first :
    (p q x y : Text) → NoColon p → NoColon q → p ++ (b':' ∷ x) ≡ q ++ (b':' ∷ y) → (p ≡ q) × (x ≡ y)
split_first [] [] x y hp hq e = ground arith
split_first [] (d ∷ q) x y hp hq e = absurd (ground arith)
split_first (c ∷ p) [] x y hp hq e = absurd (ground arith)
split_first (c ∷ p) (d ∷ q) x y hp hq e = ground (arith, split_first p q x y hp.1 hq.1)

reverse-NoColon : (s : Text) → NoColon s → NoColon (reverse s)
reverse-NoColon [] h = tt
reverse-NoColon (c ∷ s) h =
    rw (reverse-cons c s)
      (All-append (λ c. c ≢ b':') (reverse s) (c ∷ []) (reverse-NoColon s h.1) (h.0, tt))

reverse_split : (p x : Text) → reverse (p ++ (b':' ∷ x)) ≡ reverse x ++ (b':' ∷ reverse p)
reverse_split p x =
    rw (reverse-append p (b':' ∷ x), reverse-cons b':' x)
      (append_assoc (reverse x) (b':' ∷ []) (reverse p))

reverse-injective : (s t : Text) → reverse s ≡ reverse t → s ≡ t
reverse-injective s t e = sym (reverse-reverse s) ∙ ap reverse e ∙ reverse-reverse t

-- So does the last one.
split_last :
    (p q x y : Text) → NoColon x → NoColon y → p ++ (b':' ∷ x) ≡ q ++ (b':' ∷ y) → (p ≡ q) × (x ≡ y)
split_last p q x y hx hy e =
    let (xs, ps) =
      split_first (reverse x) (reverse y) (reverse p) (reverse q) (reverse-NoColon x hx)
        (reverse-NoColon y hy) (sym (reverse_split p x) ∙ ap reverse e ∙ reverse_split q y) in
    (reverse-injective p q ps, reverse-injective x y xs)

-- Different keys have different ACK ids, although a transaction hash may itself contain the
-- separator: an ACK settles the row of its own deposit only.
pub ack_id-injective : (j k : Key) → ack_id j ≡ ack_id k → j ≡ k
unfolding ack_id
ack_id-injective j k e =
    let (c, rest) =
      split_first (show_ℤ j.chain_id) (show_ℤ k.chain_id) _ _ (show_ℤ-NoColon j.chain_id)
        (show_ℤ-NoColon k.chain_id) e in
    let (t, i) =
      split_last j.tx_hash k.tx_hash _ _ (show_ℤ-NoColon j.log_index) (show_ℤ-NoColon k.log_index)
        rest in
    cc (show_ℤ-injective j.chain_id k.chain_id c, t, show_ℤ-injective j.log_index k.log_index i)
