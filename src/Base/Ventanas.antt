-- ===== src/Base/Ventanas.antt =====
-- What is seen of a list of bytes through a window, beside bytes that are written over.
use Prim.Native.Nat.{ℕ, zero, suc, ◌+◌, ◌≤◌}
use mathlib.Core.Path.{◌≡◌, refl, ap}
use mathlib.Core.List.{List, [], ◌∷◌, ◌++◌}
use native.Mathlib.Omega.{arith}
use sist_op_tp2c.Base.Lists.{length, take, drop}

pub drop-take_append : (d : ℕ) (ms r : List ℕ) → d ≤ length ms → drop d (take d ms ++ r) ≡ r
drop-take_append zero ms r h = refl
drop-take_append (suc d) [] r h = absurd (omega arith)
drop-take_append (suc d) (m ∷ ms) r h = drop-take_append d ms r (omega arith)

pub vista_antes :
    (n e d : ℕ) (ms r : List ℕ)
    → e + n ≤ d
    → d ≤ length ms
    → take n (drop e (take d ms ++ r)) ≡ take n (drop e ms)
vista_antes zero e d ms r h k = refl
vista_antes (suc n) zero zero ms r h k = absurd (omega arith)
vista_antes (suc n) zero (suc d) [] r h k = absurd (omega arith)
vista_antes (suc n) zero (suc d) (m ∷ ms) r h k =
    ap (◌∷◌ m) (vista_antes n zero d ms r (omega arith) (omega arith))
vista_antes (suc n) (suc e) zero ms r h k = absurd (omega arith)
vista_antes (suc n) (suc e) (suc d) [] r h k = absurd (omega arith)
vista_antes (suc n) (suc e) (suc d) (m ∷ ms) r h k =
    vista_antes (suc n) e d ms r (omega arith) (omega arith)

pub vista_despues :
    (d e : ℕ) (xs ms : List ℕ)
    → d + length xs ≤ e
    → d + length xs ≤ length ms
    → drop e (take d ms ++ (xs ++ drop (d + length xs) ms)) ≡ drop e ms
vista_despues zero e [] ms h k = refl
vista_despues zero zero (x ∷ xs) ms h k = absurd (omega arith)
vista_despues zero (suc e) (x ∷ xs) [] h k = absurd (omega arith)
vista_despues zero (suc e) (x ∷ xs) (m ∷ ms) h k =
    let paso : 0 + suc (length xs) ≡ suc (0 + length xs) = omega arith in
    rw paso (vista_despues zero e xs ms (omega arith) (omega arith))
vista_despues (suc d) zero xs ms h k = absurd (omega arith)
vista_despues (suc d) (suc e) xs [] h k = absurd (omega arith)
vista_despues (suc d) (suc e) xs (m ∷ ms) h k =
    let paso : suc d + length xs ≡ suc (d + length xs) = omega arith in
    rw paso (vista_despues d e xs ms (omega arith) (omega arith))
