-- ===== src/Identity/Join.antt =====
-- `canonical_join`: each segment behind its length and a colon.
use cogindex.Base.{
  ℕ, ◌≡◌, refl, sym, false, List, [], ◌∷◌, ◌++◌, arith, length, contains, nat_eq, Text,
}
use cogindex.Identity.Decimal.{decimal, decimal-injective, contains-decimal}

unfoldable pub canonical_join : List Text → Text
canonical_join [] = []
canonical_join (segment ∷ rest) =
    decimal (length segment) ++ (b':' ∷ (segment ++ canonical_join rest))

-- Two texts with no colon before their first colon are equal, and so are the rests.
split_colon :
    (s t r q : Text)
    → contains 58 s ≡ false
    → contains 58 t ≡ false
    → s ++ (58 ∷ r) ≡ t ++ (58 ∷ q)
    → (s ≡ t) × (r ≡ q)
split_colon [] [] r q hs ht e = ground arith
split_colon [] (y ∷ t) r q hs ht e = ground arith
split_colon (x ∷ s) [] r q hs ht e = ground arith
split_colon (x ∷ s) (y ∷ t) r q hs ht e = ground (arith, split_colon s t r q)

split_length : (s t r q : Text) → length s ≡ length t → s ++ r ≡ t ++ q → (s ≡ t) × (r ≡ q)
split_length [] [] r q h e = (refl, e)
split_length [] (y ∷ t) r q h e = absurd (omega arith)
split_length (x ∷ s) [] r q h e = absurd (omega arith)
split_length (x ∷ s) (y ∷ t) r q h e = ground (arith, split_length s t r q)

decimal-ne-nil : (n : ℕ) (s : Text) → decimal n ++ (58 ∷ s) ≡ [] → ⊥
decimal-ne-nil n s = go (decimal n)
  where
    go : (d : Text) → d ++ (58 ∷ s) ≡ [] → ⊥
    go [] e = cc
    go (x ∷ d) e = cc

-- Lists of segments with one joined text are equal.
pub canonical_join-injective : (xs ys : List Text) → canonical_join xs ≡ canonical_join ys → xs ≡ ys
unfolding canonical_join
canonical_join-injective [] [] e = refl
canonical_join-injective [] (y ∷ ys) e = absurd (decimal-ne-nil _ _ (sym e))
canonical_join-injective (x ∷ xs) [] e = absurd (decimal-ne-nil _ _ e)
canonical_join-injective (x ∷ xs) (y ∷ ys) e =
    let (same_length, after) =
      split_colon (decimal (length x)) (decimal (length y)) (x ++ canonical_join xs)
        (y ++ canonical_join ys) (contains-decimal (length x)) (contains-decimal (length y)) e in
    let (head, rest) =
      split_length x y (canonical_join xs) (canonical_join ys)
        (decimal-injective (length x) (length y) same_length) after in
    cc (head, canonical_join-injective xs ys rest)
