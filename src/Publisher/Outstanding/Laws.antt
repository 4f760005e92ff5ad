-- ===== src/Publisher/Outstanding/Laws.antt =====
-- How the operations of the in-flight table change what it holds.
use listener_go.Prelude.{
  ◌≤◌, Text, eq_text, eq_text_iff, ◌≡◌, refl, false, ◌&&◌, not, some, [], ◌∷◌, length, arith,
}
use listener_go.Publisher.Outstanding.{Msg, Outstanding, has, drop, find}
use listener_go.Publisher.Protocol.{ack_id}

has-drop : (i j : Text) (out : Outstanding) → has i (drop j out) ≡ (has i out && not (eq_text i j))
unfolding has drop
has-drop i j [] = refl
has-drop i j ((k, m) ∷ out) =
    ground (arith, has-drop i j out, eq_text_iff k j, eq_text_iff k i, eq_text_iff i j)

pub length-drop-le : (id : Text) (out : Outstanding) → length (drop id out) ≤ length out
unfolding drop
length-drop-le id [] = omega arith
length-drop-le id ((k, m) ∷ out) = ground (arith, length-drop-le id out)

drop_absent : (id : Text) (out : Outstanding) → has id out ≡ false → drop id out ≡ out
unfolding has drop
drop_absent id [] h = refl
drop_absent id ((k, m) ∷ out) h = ground (arith, drop_absent id out)

-- Every entry stands under the id of its key.
abbrev pub IsNamed : Outstanding → Type 0
IsNamed [] = Unit
IsNamed ((id, m) ∷ out) = (id ≡ ack_id m.key) × IsNamed out

pub drop-IsNamed : (id : Text) (out : Outstanding) → IsNamed out → IsNamed (drop id out)
unfolding drop
drop-IsNamed id [] h = tt
drop-IsNamed id ((k, m) ∷ out) h = ground (arith, drop-IsNamed id out h.1)

pub find-IsNamed :
    (id : Text) (m : Msg) (out : Outstanding)
    → IsNamed out
    → find id out ≡ some m
    → id ≡ ack_id m.key
unfolding find
find-IsNamed id m [] h e = cc
find-IsNamed id m ((k, n) ∷ out) h e = ground (arith, find-IsNamed id m out h.1, eq_text_iff k id)
