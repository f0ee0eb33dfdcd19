-- ===== src/Text/Order.antt =====
-- The order of texts is strict, and any two different texts are in one order or the other.
use winrt_rs.Base.{◌≡◌, refl, true, false, [], ◌∷◌, arith, bytes_eq}
use winrt_rs.Text.{Text, text_lt}

pub text_lt_irrefl : (a : Text) → text_lt a a ≡ false
unfolding text_lt
text_lt_irrefl [] = refl
text_lt_irrefl (x ∷ xs) = ground (arith, text_lt_irrefl xs)

pub text_lt_trans : (a b c : Text) → text_lt a b ≡ true → text_lt b c ≡ true → text_lt a c ≡ true
unfolding text_lt
text_lt_trans [] [] c p q = cc
text_lt_trans [] (y ∷ ys) [] p q = cc
text_lt_trans [] (y ∷ ys) (z ∷ zs) p q = refl
text_lt_trans (x ∷ xs) [] c p q = cc
text_lt_trans (x ∷ xs) (y ∷ ys) [] p q = cc
text_lt_trans (x ∷ xs) (y ∷ ys) (z ∷ zs) p q = ground (arith, text_lt_trans xs ys zs)

pub text_lt_total : (a b : Text) → text_lt a b ≡ false → bytes_eq b a ≡ false → text_lt b a ≡ true
unfolding text_lt
text_lt_total [] [] p q = cc
text_lt_total [] (y ∷ ys) p q = cc
text_lt_total (x ∷ xs) [] p q = refl
text_lt_total (x ∷ xs) (y ∷ ys) p q = ground (arith, text_lt_total xs ys)
