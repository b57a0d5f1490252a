-- ===== src/Match/Scan/Columns.antt =====
-- What `scan_line` records of a line.
use mathlib.Core.List.{append-nil, append_assoc}
use pwrake.Prelude.{
  ℕ, suc, ◌+◌, ◌≤◌, ◌<◌, ◌≡◌, refl, ◌⊎◌, inl, inr, Bool-cases, List, [], ◌∷◌, ◌++◌, some, arith,
  length, length-append, take, drop, get_elem?, get_elem?-lt, get_elem?-snoc, ltb, Returns, returns,
  Returns-bind, Returns-if,
}
use pwrake.Match.Scan.{
  Scanner, Status, update, max_columns, ends_line, is_blank, close_column, scan_line,
}
use pwrake.Match.Scan.Words.{
  words, carry, IsRecorded, AllRecorded, Ended, still-Ended, drop-suc, take-snoc, update_self,
  words-end, words-blank, words-letter, end_outside, end_within, blank_outside, blank_within,
  letter_outside, letter_within,
}

module _ (s : List ℕ) (len0 : ℕ) where
  -- Between bytes: no word has begun, or the bytes `w` of one have been seen.
  data Mode (i : ℕ) (st : Scanner) : List ℕ → Type 0 where
    outside : st.status ≡ Status.space → st.len ≡ carry len0 st.count → Mode i st []
    within :
        (c : ℕ) (w : List ℕ)
        → st.status ≡ Status.word
        → st.len ≡ suc (length w) + carry len0 st.count
        → st.apos st.count + suc (length w) ≡ i
        → take (suc (length w)) (drop (st.apos st.count) s) ≡ c ∷ w
        → st.count < max_columns
        → Mode i st (c ∷ w)

  -- Closing a column records the word.
  close-AllRecorded :
      (i : ℕ) (st : Scanner) (c : ℕ) (w : List ℕ) (ws : List (List ℕ))
      → Mode i st (c ∷ w)
      → AllRecorded s len0 st ws
      → Returns (λ t. AllRecorded s len0 t (ws ++ (c ∷ w) ∷ [])) (close_column st)
  close-AllRecorded i st c w ws (within _ _ _ len at bytes room) (count, all) =
      Returns-if (ltb st.count max_columns)
        (λ e. returns (
          ground (arith, count, length-append ws ((c ∷ w) ∷ [])),
          (λ k v h. recorded k v (get_elem?-snoc ws (c ∷ w) k h)),
        ))
        (λ e. absurd (ground arith))
    where
      t : Scanner
      t = record st { count = suc st.count; alen = update st.alen st.count st.len }

      recorded :
          (k : ℕ) (v : List ℕ)
          → (get_elem? ws k ≡ some v) × (k < length ws) ⊎ (k ≡ length ws) × (c ∷ w ≡ v)
          → IsRecorded s len0 t k v
      recorded k v (inl (h, lt)) = (ground (arith, (all k v h).0, count), (all k v h).1)
      recorded k v (inr (e, same)) =
          let e' : k ≡ st.count = omega arith in rw (← same) (rw e' (ground arith, bytes))

  words-pos : (c : ℕ) (w rest : List ℕ) → 0 < length (words (c ∷ w) rest)
  unfolding words
  words-pos c w [] = omega arith
  words-pos c w (ch ∷ rest) = ground (arith, words-pos c (w ++ ch ∷ []) rest)

  -- The first byte of a word.
  begin-Mode :
      (i ch : ℕ) (rest : List ℕ) (st : Scanner)
      → drop i s ≡ ch ∷ rest
      → st.len ≡ carry len0 st.count
      → st.count < max_columns
      → Mode
          (suc i)
          (record st { apos = update st.apos st.count i; status = Status.word; len = suc st.len })
          (ch ∷ [])
  begin-Mode i ch rest st at len room =
      within ch [] refl (omega arith) (ground arith)
        (rw (update_self st.apos st.count i) (take-snoc i 0 i s (omega arith) at)) room

  begin-AllRecorded :
      (i : ℕ) (st : Scanner) (ws : List (List ℕ))
      → AllRecorded s len0 st ws
      → AllRecorded s len0
          (record st { apos = update st.apos st.count i; status = Status.word; len = suc st.len })
          ws
  begin-AllRecorded i st ws (count, all) = (
    count,
    λ k v h. (
      (all k v h).0,
      (let kept : update st.apos st.count i k ≡ st.apos k = ground (arith, get_elem?-lt ws k h) in
          rw kept (all k v h).1),
    ),
  )

  letter-Mode :
      (i ch : ℕ) (rest : List ℕ) (st : Scanner) (c : ℕ) (w : List ℕ)
      → drop i s ≡ ch ∷ rest
      → Mode i st (c ∷ w)
      → Mode (suc i) (record st { len = suc st.len }) (c ∷ (w ++ ch ∷ []))
  letter-Mode i ch rest st c w at (within _ _ mode len pos bytes lt) =
      let longer : length (w ++ ch ∷ []) ≡ suc (length w) =
        omega (arith, length-append w (ch ∷ [])) in
      within c (w ++ ch ∷ []) mode (omega arith) (omega arith)
        (rw longer (rw (take-snoc _ _ i s pos at) (rw bytes))) lt

  scan_line-AllRecorded :
      (i : ℕ) (rest : List ℕ) (st : Scanner) (w : List ℕ) (ws : List (List ℕ))
      → drop i s ≡ rest
      → Ended rest
      → Mode i st w
      → AllRecorded s len0 st ws
      → length ws + length (words w rest) ≤ max_columns
      → Returns (λ t. AllRecorded s len0 t (ws ++ words w rest)) (scan_line i rest st)
  scan_line-AllRecorded i [] st w ws at ended m all room = absurd ended
  scan_line-AllRecorded i (ch ∷ rest) st w ws at ended (outside mode len) all room =
      elim (Bool-cases (ends_line ch)) [
        | inl e ↦
            rw (end_outside i ch rest st e mode, words-end [] ch rest e, append-nil ws)
              (returns all)
        | inr e ↦
            let ended' = still-Ended ch rest ended e in
            let at' = drop-suc i s at in
            elim (Bool-cases (is_blank ch)) [
              | inl b ↦
                  let same = words-blank [] ch rest e b in
                  rw (blank_outside i ch rest st e b mode, same)
                    (scan_line-AllRecorded (suc i) rest st [] ws at' ended' (outside mode len) all
                      (rw same at room))
              | inr b ↦
                  let same = words-letter [] ch rest e b in
                  let size = rw same at room in
                  let lt : st.count < max_columns = omega (arith, all.0, words-pos ch [] rest) in
                  rw (letter_outside i ch rest st e b mode lt, same)
                    (scan_line-AllRecorded (suc i) rest _ (ch ∷ []) ws at' ended'
                      (begin-Mode i ch rest st at len lt) (begin-AllRecorded i st ws all) size)
            ]
      ]
  scan_line-AllRecorded i (ch ∷ rest) st (c ∷ w) ws at ended (within _ _ mode len pos bytes lt) all
        room =
      let here = within c w mode len pos bytes lt in
      elim (Bool-cases (ends_line ch)) [
        | inl e ↦
            rw (end_within i ch rest st e mode, words-end (c ∷ w) ch rest e)
              (close-AllRecorded i st c w ws here all)
        | inr e ↦
            let ended' = still-Ended ch rest ended e in
            let at' = drop-suc i s at in
            elim (Bool-cases (is_blank ch)) [
              | inl b ↦
                  let same = words-blank (c ∷ w) ch rest e b in
                  let grown = length-append ws ((c ∷ w) ∷ []) in
                  rw (blank_within i ch rest st e b mode, same)
                    (Returns-bind (close-AllRecorded i st c w ws here all) λ t done.
                      rw (← append_assoc ws ((c ∷ w) ∷ []) (words [] rest)) (
                        scan_line-AllRecorded (suc i) rest _ [] (ws ++ (c ∷ w) ∷ []) at' ended'
                          (outside refl (ground (arith, done.0, grown))) done
                          (omega (
                            arith,
                            grown,
                            rw same at room,
                            length-append ((c ∷ w) ∷ []) (words [] rest),
                          ))))
              | inr b ↦
                  let same = words-letter (c ∷ w) ch rest e b in
                  let size = rw same at room in
                  rw (letter_within i ch rest st e b mode, same)
                    (scan_line-AllRecorded (suc i) rest _ (c ∷ (w ++ ch ∷ [])) ws at' ended'
                      (letter-Mode i ch rest st c w at here) all size)
            ]
      ]

-- Whatever `len`, `apos` and `alen` held before a line of at most a thousand words: the scan faults
-- on no array, counts the words up to the NUL or `#`, and records each by its place and length;
-- but the length of the first column exceeds its word's by the old `len`.
pub scan_line-words :
    (s : List ℕ) (st : Scanner)
    → Ended s
    → length (words [] s) ≤ max_columns
    → Returns
        (λ t. AllRecorded s st.len t (words [] s))
        (scan_line 0 s (record st { status = Status.space; count = 0 }))
scan_line-words s st ended room =
    scan_line-AllRecorded s st.len 0 s _ [] [] refl ended (outside refl refl)
      (refl, (λ k w h. absurd (ground arith))) (omega arith)
