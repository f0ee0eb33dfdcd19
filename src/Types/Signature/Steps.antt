-- ===== src/Types/Signature/Steps.antt =====
-- The calls of `Blob` that open a signature, each as a step of a blob that stays in its file.
use winrt_rs.Base.{
  ℕ, zero, suc, ◌+◌, ◌<◌, ◌≡◌, refl, ap, ◌∙◌, ◌≢◌, inl, inr, Bool, true, false, not, ◌&&◌, none,
  List, [], ◌∷◌, ◌++◌, ◌==◌, arith, All, length, ok, ◌>>=◌, >>=-eq-ok, Returns-ok, append_assoc,
  append_nil, checked,
}
use winrt_rs.Blob.{
  Blob, file, advance, peek_unsigned, read_unsigned, read_expected, modifiers_loop, read_modifiers,
}
use winrt_rs.Blob.Unsigned.{compress, Stands, read_unsigned-compress, read_expected-compress}
use winrt_rs.Blob.Modifiers.{Modifier, modifiers, read_modifiers-modifiers}
use winrt_rs.Types.Reading.{plain_kind}
use winrt_rs.Types.Signature.{Body, plain, named, param, inst, mark, tag_of, BodyWritten}

-- The calls stay in the file that they read.
advance-same_file :
    (blob blob' : Blob) (n : ℕ) → advance blob n ≡ ok blob' → blob'.file_index ≡ blob.file_index
unfolding advance checked
advance-same_file blob blob' n h = ground arith

read_unsigned-same_file :
    (blob : Blob) (r : ℕ × Blob) → read_unsigned blob ≡ ok r → r.1.file_index ≡ blob.file_index
unfolding read_unsigned
read_unsigned-same_file blob r h =
    let (p, peeked, h') = >>=-eq-ok (peek_unsigned blob) _ h in
    let (moved, e, h'') = >>=-eq-ok (advance blob p.1) _ h' in
    let same : r ≡ (p.0, moved) = ground arith in rw same (advance-same_file blob moved p.1 e)

read_expected-same_file :
    (blob : Blob) (expected : ℕ) (r : Bool × Blob)
    → read_expected blob expected ≡ ok r
    → r.1.file_index ≡ blob.file_index
unfolding read_expected advance checked
read_expected-same_file blob expected r h = ground arith

modifiers_loop-same_file :
    (fuel : ℕ) (blob blob' : Blob)
    → modifiers_loop fuel blob ≡ ok blob'
    → blob'.file_index ≡ blob.file_index
unfolding modifiers_loop
modifiers_loop-same_file zero blob blob' h = cc
modifiers_loop-same_file (suc fuel) blob blob' h =
    let (p, peeked, h') = >>=-eq-ok (peek_unsigned blob) _ h in
    round p (not (p.0 == 32) && not (p.0 == 31)) (modifiers_loop-same_file fuel) h'
  where
    round :
        (p : ℕ × ℕ) (last : Bool)
        → ((b b' : Blob) → modifiers_loop fuel b ≡ ok b' → b'.file_index ≡ b.file_index)
        → (elim (last) [
          | true ↦ ok blob
          | false ↦ advance blob p.1 >>= λ past_tag.
              read_unsigned past_tag >>= λ r. modifiers_loop fuel r.1
        ])
          ≡ ok blob'
        → blob'.file_index ≡ blob.file_index
    round p true later h = ground arith
    round p false later h =
        let (past_tag, moved, h') = >>=-eq-ok (advance blob p.1) _ h in
        let (r, read, h'') = >>=-eq-ok (read_unsigned past_tag) _ h' in
        later r.1 blob' h''
        ∙ read_unsigned-same_file past_tag r read
        ∙ advance-same_file blob past_tag p.1 moved

read_modifiers-same_file :
    (blob blob' : Blob) → read_modifiers blob ≡ ok blob' → blob'.file_index ≡ blob.file_index
unfolding read_modifiers
read_modifiers-same_file blob blob' h =
    let (f, found, h') = >>=-eq-ok (file blob) _ h in
    modifiers_loop-same_file (length f.bytes + 1) blob blob' h'

-- A blob of file `i` that stands between `front` and `rest`.
abbrev pub At : (i : ℕ) → Blob → (front rest : List ℕ) → Type 0
At i blob front rest = Stands blob front rest × (blob.file_index ≡ i)

module _ (i : ℕ) (blob : Blob) (front rest : List ℕ) where
  pub read_unsigned-At :
      (v : ℕ)
      → v < 0x2000_0000
      → At i blob front (compress v ++ rest)
      → (blob' : Blob) × (read_unsigned blob ≡ ok (v, blob'))
        × At i blob' (front ++ compress v) rest
  read_unsigned-At v small (s, here) =
      let (r, read, (same, s')) =
        Returns-ok (read_unsigned blob) (read_unsigned-compress blob front rest v small s) in
      (r.1, read ∙ ap (λ x. ok (x, r.1)) same, (s', read_unsigned-same_file blob r read ∙ here))

  pub read_modifiers-At :
      (ms : List (ℕ × ℕ)) (v : ℕ)
      → v < 0x2000_0000
      → (v ≢ 31) × (v ≢ 32)
      → All Modifier ms
      → At i blob front (modifiers ms ++ (compress v ++ rest))
      → (blob' : Blob) × (read_modifiers blob ≡ ok blob')
        × At i blob' (front ++ modifiers ms) (compress v ++ rest)
  read_modifiers-At ms v small no_tag all (s, here) =
      let (blob', read, s') =
        Returns-ok (read_modifiers blob)
          (read_modifiers-modifiers v rest small no_tag ms blob front all s) in
      (blob', read, (s', read_modifiers-same_file blob blob' read ∙ here))

unmarked :
    (blob : Blob) (front after : List ℕ) (v : ℕ)
    → v < 0x2000_0000
    → v ≢ 0x1D
    → Stands blob front (compress v ++ after)
    → read_expected blob 0x1D ≡ ok (false, blob)
unmarked blob front after v small other s =
    let (r, read, found) =
      Returns-ok (read_expected blob 0x1D)
        (read_expected-compress blob front after v 0x1D small s) in
    elim (found) [ inl marked ↦ absurd (other marked.0) | inr (_, same) ↦ read ∙ ap ok same ]

module _ (i : ℕ) (blob : Blob) (front rest : List ℕ) (v : ℕ) (small : v < 0x2000_0000)
    (other : v ≢ 0x1D) where
  pub read_mark :
      (array : Bool) (ms : List (ℕ × ℕ))
      → All Modifier ms
      → At i blob front (mark array ++ (modifiers ms ++ (compress v ++ rest)))
      → (blob' : Blob) × (read_expected blob 0x1D ≡ ok (array, blob'))
        × At i blob' (front ++ mark array) (modifiers ms ++ (compress v ++ rest))
  unfolding modifiers
  read_mark true ms all (s, here) =
      let (r, read, found) = Returns-ok (read_expected blob 0x1D) (
        read_expected-compress blob front (modifiers ms ++ (compress v ++ rest)) 0x1D 0x1D
          (omega arith) s) in
      elim (found) [
        | inl (_, marked, s') ↦ (
          r.1,
          read ∙ ap (λ x. ok (x, r.1)) marked,
          (s', read_expected-same_file blob 0x1D r read ∙ here),
        )
        | inr (wrong, _) ↦ absurd (wrong refl)
      ]
  read_mark false [] all (s, here) =
      (blob, unmarked blob front rest v small other s, (rw (append_nil front) s, here))
  read_mark false (m ∷ ms) (h, all) (s, here) =
      let parted =
        append_assoc (compress m.0) (compress m.1 ++ modifiers ms) (compress v ++ rest) in
      let is_no_mark : m.0 ≢ 0x1D = ground arith in
      (
        blob,
        unmarked blob front ((compress m.1 ++ modifiers ms) ++ (compress v ++ rest)) m.0
            (ground arith) is_no_mark (rw parted at s),
        (rw (append_nil front) s, here),
      )

-- The tags of bodies.
plain_tag : (tag : ℕ) → plain_kind tag ≢ none → (tag < 0x1D)
unfolding plain_kind
plain_tag tag h = ground arith

pub tag_of-small : (body : Body) → BodyWritten body → (tag_of body < 0x1D)
unfolding BodyWritten
tag_of-small (plain tag) h = plain_tag tag h
tag_of-small (named tag code) h = ground arith
tag_of-small (param index) h = omega arith
tag_of-small (inst tag code args) h = omega arith
