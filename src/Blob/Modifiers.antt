-- ===== src/Blob/Modifiers.antt =====
-- `read_modifiers`: what it passes over, and that its loop ends.
use winrt_rs.Base.{
  ℕ, zero, suc, ◌+◌, ◌≤◌, ◌<◌, ◌≡◌, ap, ◌∙◌, ◌≢◌, ◌⊎◌, List, [], ◌∷◌, ◌++◌, arith, length, All,
  length-append, ok, Returns, Returns-ok, append_assoc, append_nil,
}
use winrt_rs.Blob.{Blob, advance, read_unsigned, modifiers_loop, read_modifiers}
use winrt_rs.Blob.Unsigned.{
  compress, Stands, advance-Stands, peek_unsigned-compress, read_unsigned-compress, length-compress,
}

-- A custom modifier: the tag, 31 for a required one and 32 for an optional one, and a type.
abbrev pub Modifier : ℕ × ℕ → Type 0
Modifier m = ((m.0 ≡ 31) ⊎ (m.0 ≡ 32)) × (m.1 < 0x2000_0000)

unfoldable pub modifiers : List (ℕ × ℕ) → List ℕ
modifiers [] = []
modifiers (m ∷ ms) = compress m.0 ++ (compress m.1 ++ modifiers ms)

length-modifiers : (ms : List (ℕ × ℕ)) → length ms ≤ length (modifiers ms)
unfolding modifiers
length-modifiers [] = omega arith
length-modifiers (m ∷ ms) = omega (
  arith,
  length-modifiers ms,
  length-append (compress m.0) (compress m.1 ++ modifiers ms),
  length-append (compress m.1) (modifiers ms),
  length-compress m.0,
)

module _ (v : ℕ) (rest : List ℕ) (small : v < 0x2000_0000) (no_tag : (v ≢ 31) × (v ≢ 32)) where
  loop_done :
      (fuel : ℕ) (blob : Blob) (front : List ℕ)
      → Stands blob front (compress v ++ rest)
      → modifiers_loop (suc fuel) blob ≡ ok blob
  unfolding modifiers_loop
  loop_done fuel blob front s = rw (peek_unsigned-compress blob front rest v small s) (ground arith)

  loop_round :
      (fuel : ℕ) (blob : Blob) (front : List ℕ) (m : ℕ × ℕ) (after : List ℕ)
      → Modifier m
      → Stands blob front (compress m.0 ++ (compress m.1 ++ after))
      → (blob' : Blob) × (modifiers_loop (suc fuel) blob ≡ modifiers_loop fuel blob')
        × Stands blob' ((front ++ compress m.0) ++ compress m.1) after
  unfolding modifiers_loop
  loop_round fuel blob front m after h s =
      let fits : m.0 < 0x2000_0000 = ground arith in
      let peeked = peek_unsigned-compress blob front (compress m.1 ++ after) m.0 fits s in
      let (past_tag, moved, s1) =
        Returns-ok (advance blob (length (compress m.0)))
          (advance-Stands blob front (compress m.1 ++ after) (compress m.0) s) in
      let (r, read, (_, s2)) =
        Returns-ok (read_unsigned past_tag)
          (read_unsigned-compress past_tag (front ++ compress m.0) after m.1 h.1 s1) in
      (r.1, ground (arith, peeked, moved, read), s2)

  loop_passes :
      (ms : List (ℕ × ℕ)) (fuel : ℕ) (blob : Blob) (front : List ℕ)
      → length ms < fuel
      → All Modifier ms
      → Stands blob front (modifiers ms ++ (compress v ++ rest))
      → Returns
          (modifiers_loop fuel blob)
          (λ b. Stands b (front ++ modifiers ms) (compress v ++ rest))
  unfolding modifiers
  loop_passes ms zero blob front enough all s = absurd (omega arith)
  loop_passes [] (suc fuel) blob front enough all s =
      rw (loop_done fuel blob front s) (rw (append_nil front) s)
  loop_passes (m ∷ ms) (suc fuel) blob front enough (h, all) s =
      let after = modifiers ms ++ (compress v ++ rest) in
      let parted : (compress m.0 ++ (compress m.1 ++ modifiers ms)) ++ (compress v ++ rest)
          ≡ compress m.0 ++ (compress m.1 ++ after) =
        append_assoc (compress m.0) (compress m.1 ++ modifiers ms) (compress v ++ rest)
        ∙ ap (λ xs. compress m.0 ++ xs)
            (append_assoc (compress m.1) (modifiers ms) (compress v ++ rest)) in
      let (blob', round, s') = loop_round fuel blob front m after h (rw parted at s) in
      let joined : ((front ++ compress m.0) ++ compress m.1) ++ modifiers ms
          ≡ front ++ (compress m.0 ++ (compress m.1 ++ modifiers ms)) =
        append_assoc (front ++ compress m.0) (compress m.1) (modifiers ms)
        ∙ append_assoc front (compress m.0) (compress m.1 ++ modifiers ms) in
      rw (round) (
        rw joined at (
          loop_passes ms fuel blob' ((front ++ compress m.0) ++ compress m.1) (omega arith) all s'))

  -- Where a sequence of modifiers stands at a blob, and then a number that is no modifier's tag,
  -- `read_modifiers` returns the blob that stands at that number.
  pub read_modifiers-modifiers :
      (ms : List (ℕ × ℕ)) (blob : Blob) (front : List ℕ)
      → All Modifier ms
      → Stands blob front (modifiers ms ++ (compress v ++ rest))
      → Returns (read_modifiers blob) (λ b. Stands b (front ++ modifiers ms) (compress v ++ rest))
  unfolding read_modifiers
  read_modifiers-modifiers ms blob front all s = rw s.found (
      loop_passes ms (length s.within.bytes + 1) blob front
        (omega (
          arith,
          ap length s.parted,
          length-append front (modifiers ms ++ (compress v ++ rest)),
          length-append (modifiers ms) (compress v ++ rest),
          length-modifiers ms,
        ))
        all s)
