-- ===== src/Bytes/Order.antt =====
-- Bytes in network order.
use tiny_game_server.Base.{
  ℕ, zero, suc, ◌+◌, ◌*◌, ◌/◌, ◌%◌, ◌<◌, ◌≡◌, refl, sym, ap, ◌∙◌, List, [], ◌∷◌, ◌++◌, ◌≡⟨◌⟩◌, ◌∎,
  append_assoc, append-nil, length, length-append, arith,
}
use tiny_game_server.Bytes.{Host, little, big, load_le, store_le, rev, load, store}

abbrev pub AreBytes : List ℕ → Type 0
AreBytes [] = Unit {0}
AreBytes (x ∷ xs) = (x < 256) × AreBytes xs

pub AreBytes-append : (xs ys : List ℕ) → AreBytes xs → AreBytes ys → AreBytes (xs ++ ys)
AreBytes-append [] ys hx hy = hy
AreBytes-append (x ∷ xs) ys hx hy = (hx.0, AreBytes-append xs ys hx.1 hy)

pub AreBytes-rev : (xs : List ℕ) → AreBytes xs → AreBytes (rev xs)
AreBytes-rev [] h = tt
AreBytes-rev (x ∷ xs) h = AreBytes-append (rev xs) (x ∷ []) (AreBytes-rev xs h.1) (h.0, tt)

pub store_le-AreBytes : (w n : ℕ) → AreBytes (store_le w n)
store_le-AreBytes zero n = tt
store_le-AreBytes (suc w) n = (omega arith, store_le-AreBytes w (n / 256))

pub rev-append : (xs ys : List ℕ) → rev (xs ++ ys) ≡ rev ys ++ rev xs
rev-append [] ys = sym (append-nil (rev ys))
rev-append (x ∷ xs) ys = rw (rev-append xs ys) (append_assoc (rev ys) (rev xs) (x ∷ []))

pub rev-rev : (xs : List ℕ) → rev (rev xs) ≡ xs
rev-rev [] = refl
rev-rev (x ∷ xs) = rev-append (rev xs) (x ∷ []) ∙ ap (◌∷◌ x) (rev-rev xs)

pub length-rev : (xs : List ℕ) → length (rev xs) ≡ length xs
length-rev [] = refl
length-rev (x ∷ xs) = omega (arith, length-append (rev xs) (x ∷ []), length-rev xs)

pub length-store_le : (w n : ℕ) → length (store_le w n) ≡ w
length-store_le zero n = refl
length-store_le (suc w) n = ap suc (length-store_le w (n / 256))

pub length-store : (host : Host) (w n : ℕ) → length (store host w n) ≡ w
unfolding store
length-store little w n = length-store_le w n
length-store big w n = length-rev (store_le w n) ∙ length-store_le w n

pub store_le-load_le :
    (w : ℕ) (xs : List ℕ) → length xs ≡ w → AreBytes xs → store_le w (load_le xs) ≡ xs
store_le-load_le zero [] h b = refl
store_le-load_le zero (x ∷ xs) h b = absurd (omega arith)
store_le-load_le (suc w) [] h b = absurd (omega arith)
store_le-load_le (suc w) (x ∷ xs) h b =
    store_le (suc w) (x + 256 * load_le xs)
    ≡⟨ ap (λ t. t ∷ store_le w ((x + 256 * load_le xs) / 256)) low ⟩
      x ∷ store_le w ((x + 256 * load_le xs) / 256)
    ≡⟨ ap (λ t. x ∷ store_le w t) high ⟩ x ∷ store_le w (load_le xs)
    ≡⟨ ap (◌∷◌ x) (store_le-load_le w xs (omega arith) b.1) ⟩ x ∷ xs ∎
  where
    low : (x + 256 * load_le xs) % 256 ≡ x
    low = omega (arith, b.0)

    high : (x + 256 * load_le xs) / 256 ≡ load_le xs
    high = omega (arith, b.0)

pub store-load :
    (host : Host) (w : ℕ) (xs : List ℕ)
    → length xs ≡ w
    → AreBytes xs
    → store host w (load host xs) ≡ xs
unfolding store load
store-load little w xs h b = store_le-load_le w xs h b
store-load big w xs h b =
    ap rev (store_le-load_le w (rev xs) (length-rev xs ∙ h) (AreBytes-rev xs b)) ∙ rev-rev xs
