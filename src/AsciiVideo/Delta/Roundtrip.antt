-- ===== src/AsciiVideo/Delta/Roundtrip.antt =====
-- Applying the delta of two frames to the first gives the second.
use mathlib.Core.List.{append_assoc}
use mathlib.Core.Path.{subst, subst₂}
use go_cli_messenger.Common.{
  ℕ, zero, suc, ◌+◌, ◌≤◌, ◌<◌, ◌^◌, ◌≡◌, refl, sym, ap, ◌∙◌, inl, inr, true, false, ◌==◌, [], ◌∷◌,
  ◌++◌, length, length-append, take, drop, Text, arith, Bool-cases, ==_iff,
}
use go_cli_messenger.AsciiVideo.Wire.{join16_lem, join32_lem}
use go_cli_messenger.AsciiVideo.Delta.{
  take_run, entry, encode_from, encode_delta, overwrite, apply_from, apply_delta, max_run,
}

take-append : (s t : Text) → take (length s) (s ++ t) ≡ s
take-append [] t = refl
take-append (c ∷ s) t = ap (◌∷◌ c) (take-append s t)

drop-append : (s t : Text) → drop (length s) (s ++ t) ≡ t
drop-append [] t = refl
drop-append (c ∷ s) t = drop-append s t

-- What a run leaves: the same number of cells is taken off both frames.
record Cut (room : ℕ) (ps cs : Text) (r : Text × Text × Text) : Type 0 where
  skipped : Text
  old : ps ≡ skipped ++ r.1
  new : cs ≡ r.0 ++ r.2
  as_long : length skipped ≡ length r.0
  short : length r.0 ≤ room

take_run-Cut : (room : ℕ) (ps cs : Text) → Cut room ps cs (take_run room ps cs)
unfolding take_run
take_run-Cut zero ps cs = record {
  skipped = [];
  old = refl;
  new = refl;
  as_long = refl;
  short = omega arith;
}
take_run-Cut (suc room) [] cs = record {
  skipped = [];
  old = refl;
  new = refl;
  as_long = refl;
  short = omega arith;
}
take_run-Cut (suc room) (p ∷ ps) [] = record {
  skipped = [];
  old = refl;
  new = refl;
  as_long = refl;
  short = omega arith;
}
take_run-Cut (suc room) (p ∷ ps) (c ∷ cs) =
    let r = take_run-Cut room ps cs in
    elim (Bool-cases (c == p)) [
      | inl same ↦
          rw same
            (record { skipped = []; old = refl; new = refl; as_long = refl; short = omega arith })
      | inr other ↦ rw other (record {
        skipped = p ∷ r.skipped;
        old = ap (◌∷◌ p) r.old;
        new = ap (◌∷◌ c) r.new;
        as_long = ap suc r.as_long;
        short = omega (arith, r.short);
      })
    ]

-- A step of the decoder on an entry at the front of the payload.
apply-entry :
    (f start : ℕ) (run rest cells : Text)
    → start < 2 ^ 32
    → 0 < length run
    → length run ≤ 65535
    → start + length run ≤ length cells
    → apply_from (suc f) cells (entry start run ++ rest)
      ≡ apply_from f (overwrite cells start run) rest
unfolding apply_from
apply-entry f start run rest cells hs hp hl hc =
    rw
      (
        join32_lem start hs,
        join16_lem (length run) (omega arith),
        take-append run rest,
        drop-append run rest,
      )
      (ground (arith, length-append run rest))

run-pos :
    (room p c : ℕ) (ps cs : Text)
    → (c == p) ≡ false
    → 0 < length (take_run (suc room) (p ∷ ps) (c ∷ cs)).0
unfolding take_run
run-pos room p c ps cs h = rw h (omega arith)

overwrite_lem :
    (done skipped rest run : Text)
    → length skipped ≡ length run
    → overwrite (done ++ (skipped ++ rest)) (length done) run ≡ (done ++ run) ++ rest
overwrite_lem done skipped rest run h =
    let n : length done + length run ≡ length (done ++ skipped) =
      omega (arith, length-append done skipped) in
    let d : drop (length done + length run) (done ++ (skipped ++ rest)) ≡ rest =
      rw (n, ← append_assoc done skipped rest) (drop-append (done ++ skipped) rest) in
    rw (take-append done (skipped ++ rest), d) refl

entry-apply :
    (f g : ℕ) (done ps cs rest : Text) (r : Text × Text × Text)
    → Cut max_run ps cs r
    → 0 < length r.0
    → length ps ≡ length cs
    → length done + length cs < 2 ^ 32
    → apply_from (suc g) (done ++ ps) (entry (length done) r.0 ++ rest)
      ≡ apply_from g ((done ++ r.0) ++ r.1) rest
entry-apply f g done ps cs rest r cut pos same big = rw (cut.old) (
    apply-entry g (length done) r.0 rest (done ++ (cut.skipped ++ r.1)) (omega arith) pos cut.short
      (omega (
        arith,
        cut.as_long,
        length-append done (cut.skipped ++ r.1),
        length-append cut.skipped r.1,
      ))
    ∙ ap (λ cells. apply_from g cells rest) (overwrite_lem done cut.skipped r.1 r.0 cut.as_long))

apply-nil : (g : ℕ) (cells : Text) → apply_from (suc g) cells [] ≡ (cells, true)
unfolding apply_from
apply-nil g cells = refl

length-entry :
    (start : ℕ) (run rest : Text) → length (entry start run ++ rest) ≡ 6 + length run + length rest
length-entry start run rest = omega (arith, length-append run rest)

Cut-lengths :
    (room : ℕ) (ps cs : Text) (r : Text × Text × Text)
    → Cut room ps cs r
    → (length ps ≡ length r.0 + length r.1) × (length cs ≡ length r.0 + length r.2)
Cut-lengths room ps cs r cut = (
  omega (arith, ap length cut.old, length-append cut.skipped r.1, cut.as_long),
  omega (arith, ap length cut.new, length-append r.0 r.2),
)

module _ (f i p c : ℕ) (ps cs : Text) where
  encode-same :
      (c == p) ≡ true → encode_from (suc f) i (p ∷ ps) (c ∷ cs) ≡ encode_from f (i + 1) ps cs
  unfolding encode_from
  encode-same h = rw h

  encode-other :
      (c == p) ≡ false
      → let r = take_run max_run (p ∷ ps) (c ∷ cs) in
        encode_from (suc f) i (p ∷ ps) (c ∷ cs)
        ≡ entry i r.0 ++ encode_from f (i + length r.0) r.1 r.2
  unfolding encode_from
  encode-other h = rw h

encode-nil : (f i : ℕ) → encode_from f i [] [] ≡ []
unfolding encode_from
encode-nil zero i = refl
encode-nil (suc f) i = refl

-- The statement for a suffix of the frames, behind the cells that are done.
abbrev Applies : ℕ → ℕ → Text → Text → Text → Text → Type 0
Applies f g done ps cs payload =
    length payload < g → apply_from g (done ++ ps) payload ≡ (done ++ cs, true)

same-Applies :
    (f g p : ℕ) (done ps cs : Text)
    → Applies f g (done ++ p ∷ []) ps cs (encode_from f (length (done ++ p ∷ [])) ps cs)
    → Applies (suc f) g done (p ∷ ps) (p ∷ cs) (encode_from f (length done + 1) ps cs)
same-Applies f g p done ps cs h =
    subst (λ n. Applies (suc f) g done (p ∷ ps) (p ∷ cs) (encode_from f n ps cs))
      (length-append done (p ∷ []))
      (λ l.
        subst₂ (λ u w. apply_from g u (encode_from f (length (done ++ p ∷ [])) ps cs) ≡ (w, true))
          (append_assoc done (p ∷ []) ps) (append_assoc done (p ∷ []) cs) (h l))

other-Applies :
    (f g : ℕ) (done ps cs : Text) (r : Text × Text × Text)
    → Cut max_run ps cs r
    → 0 < length r.0
    → length ps ≡ length cs
    → length done + length cs < 2 ^ 32
    → Applies f g (done ++ r.0) r.1 r.2 (encode_from f (length (done ++ r.0)) r.1 r.2)
    → Applies
        (suc f)
        (suc g)
        done
        ps
        cs
        (entry (length done) r.0 ++ encode_from f (length done + length r.0) r.1 r.2)
other-Applies f g done ps cs r cut pos same big ih l =
    let rest = encode_from f (length done + length r.0) r.1 r.2 in
    entry-apply f g done ps cs rest r cut pos same big
    ∙ subst
        (λ n.
          apply_from g ((done ++ r.0) ++ r.1) (encode_from f n r.1 r.2)
          ≡ ((done ++ r.0) ++ r.2, true))
        (length-append done r.0)
        (ih (
          omega (
            arith,
            length-entry (length done) r.0 rest,
            ap (λ n. length (encode_from f n r.1 r.2)) (length-append done r.0),
          )))
    ∙ ap (λ w. (w, true)) (append_assoc done r.0 r.2 ∙ ap (◌++◌ done) (sym cut.new))

encode-apply :
    (f g : ℕ) (done ps cs : Text)
    → length ps ≡ length cs
    → length cs ≤ f
    → length done + length cs < 2 ^ 32
    → Applies f g done ps cs (encode_from f (length done) ps cs)
encode-apply zero (suc g) done [] [] e l b =
    λ _. rw (encode-nil 0 (length done)) (apply-nil g (done ++ []))
encode-apply (suc f) (suc g) done [] [] e l b =
    λ _. rw (encode-nil (suc f) (length done)) (apply-nil g (done ++ []))
encode-apply (suc f) (suc g) done (p ∷ ps) (c ∷ cs) e l b = elim (Bool-cases (c == p)) [
  | inl same ↦
      subst (Applies (suc f) (suc g) done (p ∷ ps) (c ∷ cs))
        (sym (encode-same f (length done) p c ps cs same))
        (subst
          (λ m.
            Applies (suc f) (suc g) done (p ∷ ps) (m ∷ cs) (encode_from f (length done + 1) ps cs))
          (sym ((==_iff c p).0 same))
          (same-Applies f (suc g) p done ps cs (
            encode-apply f (suc g) (done ++ p ∷ []) ps cs (omega arith) (omega arith)
              (omega (arith, length-append done (p ∷ []))))))
  | inr other ↦
      let r = take_run max_run (p ∷ ps) (c ∷ cs) in
      let cut = take_run-Cut max_run (p ∷ ps) (c ∷ cs) in
      let pos = run-pos 65534 p c ps cs other in
      let (olds, news) = Cut-lengths max_run (p ∷ ps) (c ∷ cs) r cut in
      subst (Applies (suc f) (suc g) done (p ∷ ps) (c ∷ cs))
        (sym (encode-other f (length done) p c ps cs other))
        (other-Applies f g done (p ∷ ps) (c ∷ cs) r cut pos e b (
          encode-apply f g (done ++ r.0) r.1 r.2 (omega arith) (omega arith)
            (omega (arith, length-append done r.0))))
]
encode-apply f g done ps cs e l b = λ h. absurd (omega arith)

encode_delta_lem :
    (previous current : Text)
    → length previous ≡ length current
    → encode_delta previous current ≡ encode_from (length current) 0 previous current
unfolding encode_delta
encode_delta_lem previous current e = ground arith

apply_delta_lem :
    (cells payload : Text)
    → apply_delta cells payload ≡ apply_from (length payload + 1) cells payload
unfolding apply_delta
apply_delta_lem cells payload = refl

-- Two frames of one size, below 2^32 cells: applying their delta to the first gives the second, with
-- no error.
pub apply_delta-encode_delta :
    (previous current : Text)
    → length previous ≡ length current
    → length current < 2 ^ 32
    → apply_delta previous (encode_delta previous current) ≡ (current, true)
apply_delta-encode_delta previous current e h =
    let payload = encode_from (length current) 0 previous current in
    ap (apply_delta previous) (encode_delta_lem previous current e)
    ∙ apply_delta_lem previous payload
    ∙ encode-apply (length current) (length payload + 1) [] previous current e (omega arith)
        (omega arith) (omega arith)
