-- ===== src/Database/Config/Fingerprint.antt =====
-- The fingerprint of a chain's tokens does not depend on the order of the rows.
use mathlib.Core.List.{Nodup, Nodup-cons, Perm, Permᴰ, mem-cons_self}
use mathlib.Core.List.Perm
use mathlib.Core.Logic.{∥∥₁_elim}
use listener_go.Prelude.{
  Text, codes, ◌≡◌, ◌≢◌, refl, ap, ◌∙◌, true, false, List, [], ◌∷◌, ◌++◌, map, arith,
}
use listener_go.Database.Chains.{ContractInfo}
use listener_go.Database.Config.{lt_text, insert_token, sort_tokens, token_entries, fingerprint}

lt_text_trans : (s t u : Text) → lt_text s t ≡ true → lt_text t u ≡ true → lt_text s u ≡ true
unfolding lt_text
lt_text_trans [] [] u h k = ground arith
lt_text_trans [] (d ∷ t) [] h k = ground arith
lt_text_trans [] (d ∷ t) (e ∷ u) h k = refl
lt_text_trans (c ∷ s) [] u h k = ground arith
lt_text_trans (c ∷ s) (d ∷ t) [] h k = ground arith
lt_text_trans (c ∷ s) (d ∷ t) (e ∷ u) h k = ground (arith, lt_text_trans s t u)

lt_text_total : (s t : Text) → lt_text s t ≡ false → lt_text t s ≡ false → s ≡ t
unfolding lt_text
lt_text_total [] [] h k = refl
lt_text_total [] (d ∷ t) h k = ground arith
lt_text_total (c ∷ s) [] h k = ground arith
lt_text_total (c ∷ s) (d ∷ t) h k = ground (arith, lt_text_total s t)

lt_text_irreflexive : (s : Text) → lt_text s s ≡ false
unfolding lt_text
lt_text_irreflexive [] = refl
lt_text_irreflexive (c ∷ s) = ground (arith, lt_text_irreflexive s)

insert_token_swap :
    (x y : Text × ContractInfo) (l : List (Text × ContractInfo))
    → x.0 ≢ y.0
    → insert_token x (insert_token y l) ≡ insert_token y (insert_token x l)
unfolding insert_token
insert_token_swap x y [] different =
    ground (arith, lt_text_total x.0 y.0, lt_text_trans x.0 y.0 x.0, lt_text_irreflexive x.0)
insert_token_swap x y (z ∷ l) different = ground (
  arith,
  lt_text_total x.0 y.0,
  lt_text_trans x.0 y.0 x.0,
  lt_text_irreflexive x.0,
  lt_text_trans x.0 y.0 z.0,
  lt_text_trans y.0 x.0 z.0,
  insert_token_swap x y l,
)

abbrev addresses : List (Text × ContractInfo) → List Text
addresses = map (λ t. t.0)

sort_tokens-Permᴰ :
    {l l' : List (Text × ContractInfo)}
    → Permᴰ l l'
    → Nodup (addresses l)
    → sort_tokens l ≡ sort_tokens l'
unfolding sort_tokens
sort_tokens-Permᴰ Permᴰ.nil different = refl
sort_tokens-Permᴰ (Permᴰ.cons e p) different =
    rw (e, sort_tokens-Permᴰ p (Nodup-cons.0 different).1) refl
sort_tokens-Permᴰ (Permᴰ.swap {a} {b} {l = l} e k) different =
    rw (← e, ← k)
      (insert_token_swap a b (sort_tokens l)
        (λ same. (Nodup-cons.0 different).0 (rw same mem-cons_self)))
sort_tokens-Permᴰ (Permᴰ.trans p q) different =
    sort_tokens-Permᴰ p different
    ∙ sort_tokens-Permᴰ q (Perm.nodup (Perm.map (λ t. t.0) ∣ p ∣₁) different)

-- The fingerprint of a chain whose tokens have different addresses is the same in whatever order
-- the query returns the tokens.
pub fingerprint-Perm :
    (digest : Text → Text) (native : Text) (ts us : List (Text × ContractInfo))
    → Perm ts us
    → Nodup (addresses ts)
    → fingerprint digest native ts ≡ fingerprint digest native us
unfolding fingerprint
fingerprint-Perm digest native ts us order different = ∥∥₁_elim order same_prop (λ p.
    ap
      (λ (sorted : List (Text × ContractInfo)).
        digest (codes "native:" ++ native ++ token_entries sorted))
      (sort_tokens-Permᴰ p different))
  where
    same_prop : IsProp (fingerprint digest native ts ≡ fingerprint digest native us)
    same_prop = hlevel
