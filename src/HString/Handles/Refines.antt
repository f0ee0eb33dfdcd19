-- ===== src/HString/Handles/Refines.antt =====
-- A program that holds handles behaves as one that holds the strings.
use winrt_rs.Base.{
  ℕ, ◌<◌, ◌≡◌, refl, ◌⊎◌, inl, inr, Bool, none, some, List, [], ◌∷◌, arith, Option-cases, length,
  get_elem?, set, All, overflow, explicit, Result, ok, panic, ◌>>=◌, Returns-ok, u32_mod,
}
use winrt_rs.Text.{Text, encode_utf16, utf16_from}
use winrt_rs.HString
use winrt_rs.HString.{Memory, HString, cell, as_wide}
use winrt_rs.HString.Written.{IsUtf8, from-Fresh}
use winrt_rs.HString.Handles.{
  State, Call, Strings, remove, start, step, run, string_step, string_run,
}
use winrt_rs.HString.Handles.Refs.{
  refs, refs-set, refs-remove, Views, Views-get, Views-none, Views-set, Views-remove,
}
use winrt_rs.HString.Handles.Kept.{Sound, Inv, append-Inv, append-Views}
use winrt_rs.HString.Handles.Calls.{clear-Kept, new-Inv, clone-Copied}

-- The counts are right, and each handle stands for its string.
pub record Refines (s : State) (strings : Strings) : Type 0 where
  pub counts : Inv s.memory s.handles
  pub views : Views s.memory s.handles strings

-- A text is one of Rust's, and its length fits in 32 bits.
abbrev pub Fits : Call → Type 0
Fits (Call.from text) = (length text < u32_mod) × IsUtf8 text
Fits _ = Unit {0}

-- The run returns, or there is no memory left, or a count is full.
abbrev pub HoldsOrFull : Result State → (State → Type 0) → Type 0
HoldsOrFull (ok s) P = P s
HoldsOrFull (panic e) P = (e ≡ explicit) ⊎ (e ≡ overflow)

map_state :
    {P Q : State → Type 0} (r : Result State)
    → ((s : State) → P s → Q s)
    → HoldsOrFull r P
    → HoldsOrFull r Q
map_state (ok s) f h = f s h
map_state (panic e) f h = h

-- No strings, no handles, and so no blocks.
freed : (s : State) → Refines s [] → (p : ℕ) → cell s.memory p ≡ none
unfolding refs
freed s r p = elim (Option-cases (cell s.memory p)) [
  | inl e ↦ e
  | inr (header, e) ↦
      let sound : Sound (refs p s.handles) (some header) = rw e at (r.counts p) in
      absurd (none_left s.handles r.views sound.1)
]
  where
    none_left : (handles : List HString) → Views s.memory handles [] → 0 < refs p handles → ⊥
    none_left [] v h = omega arith
    none_left (x ∷ handles) v h = v

as_wide-new : (memory : Memory) → as_wide memory HString.new ≡ ok []
unfolding as_wide
as_wide-new memory = refl

module _ (grants : Memory → (bytes : ℕ) → Bool) (blank : ℕ) where
  from-Refines :
      (text : Text) (s : State) (strings : Strings)
      → Fits (Call.from text)
      → Refines s strings
      → HoldsOrFull
          (step grants blank s (Call.from text))
          (λ after. Refines after (encode_utf16 text ∷ strings))
  unfolding step HString.from as_wide encode_utf16 utf16_from
  from-Refines [] s strings fits r =
      let kept = new-Inv grants blank s.memory s.handles strings r.counts in
      record { counts = kept; views = (refl, r.views) }
  from-Refines (b ∷ text) s strings (small, utf8) r =
      elim (from-Fresh grants blank b text s.memory small utf8) [
        | inl full ↦ rw (HoldsOrFull, full, ◌>>=◌) (inl refl)
        | inr fresh ↦
            let (made, run, (header, same, holds, one)) =
              Returns-ok (HString.from grants blank (b ∷ text) s.memory) fresh in
            rw (HoldsOrFull, run, same)
              (record {
                counts =
                    append-Inv s.memory s.handles header (encode_utf16 (b ∷ text)) r.counts holds
                      one;
                views =
                    append-Views s.memory s.handles header strings (encode_utf16 (b ∷ text))
                      r.counts r.views holds;
              })
      ]

  -- A call leaves the strings that it leaves when it is made on the strings themselves.
  step-Refines :
      (call : Call) (s : State) (strings : Strings)
      → Fits call
      → Refines s strings
      → HoldsOrFull (step grants blank s call) (λ after. Refines after (string_step strings call))
  unfolding step string_step
  step-Refines Call.new s strings fits r = record {
    counts = new-Inv grants blank s.memory s.handles strings r.counts;
    views = (as_wide-new s.memory, r.views);
  }
  step-Refines (Call.from text) s strings fits r = from-Refines text s strings fits r
  step-Refines (Call.clone i) s strings fits r = elim (Option-cases (get_elem? s.handles i)) [
    | inl e ↦
        let (missing, same, shorter) = Views-none s.memory s.handles strings i r.views e in
        rw (HoldsOrFull, e, string_step, missing) r
    | inr (string, e) ↦
        let (text, there, seen) = Views-get s.memory s.handles strings i string r.views e in
        elim (clone-Copied grants blank s.memory s.handles strings string i text r.counts e r.views
          seen) [
            | inl copied ↦
                let (made, run, kept) =
                  Returns-ok (HString.clone grants blank string s.memory) copied in
                rw (HoldsOrFull, e, string_step, there, run)
                  (record { counts = kept.0; views = kept.1 })
            | inr full ↦ rw (HoldsOrFull, e, full) (inr refl)
          ]
  ]
  step-Refines (Call.clear i) s strings fits r = elim (Option-cases (get_elem? s.handles i)) [
    | inl e ↦
        let (missing, same, shorter) = Views-none s.memory s.handles strings i r.views e in
        rw (HoldsOrFull, e, same) r
    | inr (string, e) ↦
        let handles' = set s.handles i HString.new in
        let (made, run, (empty, counts, views)) = Returns-ok (HString.clear string s.memory) (
          clear-Kept s.memory s.handles handles' (set strings i []) string i r.counts e
            (Views-set s.memory s.handles strings i r.views)
            (λ q. let l = refs-set q i s.handles string HString.new e in omega (arith, l))) in
        rw (HoldsOrFull, e, run, empty) (record { counts = counts; views = views })
  ]
  step-Refines (Call.drop i) s strings fits r = elim (Option-cases (get_elem? s.handles i)) [
    | inl e ↦
        let (missing, same, shorter) = Views-none s.memory s.handles strings i r.views e in
        rw (HoldsOrFull, e, shorter) r
    | inr (string, e) ↦
        let (made, run, (empty, counts, views)) = Returns-ok (HString.clear string s.memory) (
          clear-Kept s.memory s.handles (remove s.handles i) (remove strings i) string i r.counts e
            (Views-remove s.memory s.handles strings i r.views)
            (λ q. refs-remove q i s.handles string e)) in
        rw (HoldsOrFull, e, run) (record { counts = counts; views = views })
  ]

  run-Refines :
      (calls : List Call) (s : State) (strings : Strings)
      → All Fits calls
      → Refines s strings
      → HoldsOrFull (run grants blank s calls) (λ after. Refines after (string_run strings calls))
  unfolding run string_run
  run-Refines [] s strings fits r = r
  run-Refines (call ∷ calls) s strings (fits, all) r =
      go (step grants blank s call) (step-Refines call s strings fits r)
        (λ after r'. run-Refines calls after (string_step strings call) all r')
    where
      go :
          (result : Result State)
          → HoldsOrFull result (λ after. Refines after (string_step strings call))
          → ((after : State)
              → Refines after (string_step strings call)
              → HoldsOrFull
                  (run grants blank after calls)
                  (λ last. Refines last (string_run (string_step strings call) calls)))
          → HoldsOrFull
              (result >>= λ after. run grants blank after calls)
              (λ after. Refines after (string_run (string_step strings call) calls))
      go (ok after) r' rest = rest after r'
      go (panic e) why rest = why

  start-Refines : Refines start []
  unfolding cell refs
  start-Refines = record { counts = λ p. refl; views = tt }

  -- After any calls, from no handles and no memory, with texts that fit, unless memory ran out or a count was full, each handle stands
  -- for the string that it has when the same calls are made on strings themselves; each block in use
  -- counts its handles, of which there is one at least, and no handle points to a block that was freed.
  pub run-start-Refines :
      (calls : List Call)
      → All Fits calls
      → HoldsOrFull (run grants blank start calls) (λ after. Refines after (string_run [] calls))
  run-start-Refines calls fits = run-Refines calls start [] fits start-Refines

  -- Where the same calls on the strings leave none, the run leaves no block in use, unless memory ran
  -- out or a count was full.
  pub run-start-freed :
      (calls : List Call)
      → All Fits calls
      → string_run [] calls ≡ []
      → HoldsOrFull (run grants blank start calls) (λ after. (p : ℕ) → cell after.memory p ≡ none)
  run-start-freed calls fits gone =
      map_state (run grants blank start calls) (λ s r. freed s (rw gone at r))
        (run-start-Refines calls fits)
