-- ===== src/Sort/Heap/Agreed.antt =====
-- The loops of `heapsort2` agree with those of a sort of the pairs.
use mathlib.Core.List.{zip}
use pwrake.Prelude.{
  ℕ, zero, suc, ◌+◌, ◌*◌, ◌/◌, ◌≡◌, refl, ap, inl, inr, Bool, List, Option, Option-cases, none,
  some, length, write, ltb, if◌then◌else◌, ◌>>=◌,
}
use pwrake.Sort.Order.{Ranked, lt, ge}
use pwrake.Sort.Heap.{
  larger_child, sift_down, build_heap, extract_all, heap_sort, put_pair, sift_down2, build_heap2,
  extract_all2, heapsort2,
}
use pwrake.Sort.Heap.Zipped.{
  Agrees, faults, agrees, Entry, outside, inside, Agrees-bind, Agrees-if, get_elem?-zip, write-zip,
}

module _ {F : Type 0} ⦃o : Ranked F⦄ where
  abbrev larger_key : ℕ → ℕ → List F → Option ℕ
  larger_key n j keys = larger_child (λ a b. lt a b) (λ a b. ge a b) n j keys

module _ {F V : Type 0} ⦃o : Ranked F⦄ where
  abbrev pub less2 : F × V → F × V → Bool
  less2 a b = lt a.0 b.0

  abbrev pub settled2 : F × V → F × V → Bool
  settled2 x a = ge x.0 a.0

  larger_entry :
      {rx rx' : Option F} {rv rv' : Option V} {rp rp' : Option (F × V)} (j : ℕ)
      → Entry rx rv rp
      → Entry rx' rv' rp'
      → (do y ← rp; z ← rp'; some (if less2 y z then j + 1 else j))
        ≡ (do y ← rx; z ← rx'; some (if lt y z then j + 1 else j))
  larger_entry j outside e = refl
  larger_entry j (inside x v) outside = refl
  larger_entry j (inside x v) (inside y w) = refl

  larger_child-zip :
      (n j : ℕ) (keys : List F) (vals : List V)
      → length keys ≡ length vals
      → larger_child less2 settled2 n j (zip keys vals) ≡ larger_key n j keys
  unfolding larger_child
  larger_child-zip n j keys vals same =
      ap (λ r. if ltb (j + 1) n then r else some j)
        (larger_entry j (get_elem?-zip keys vals j same) (get_elem?-zip keys vals (j + 1) same))

  -- The end of a round: the entry at `j` settles the pair in hand, or moves up.
  sift-entry :
      (i : ℕ) (x : F) (v : V) (keys : List F) (vals : List V) {ry : Option F} {rw' : Option V}
      {rp : Option (F × V)} (f : List F × List V → Option (List F × List V))
      (g : List (F × V) → Option (List (F × V)))
      → length keys ≡ length vals
      → Entry ry rw' rp
      → ((a : List F) (b : List V) → length a ≡ length b → Agrees (f (a, b)) (g (zip a b)))
      → Agrees
          (do
            y ← ry
            let move = do w ← rw'; moved ← put_pair i y w keys vals; f moved
            if ge x y then put_pair i x v keys vals else move)
          (do
            p ← rp
            let move = write (zip keys vals) i p >>= g
            if settled2 (x, v) p then write (zip keys vals) i (x, v) else move)
  sift-entry i x v keys vals f g same outside step = faults
  sift-entry i x v keys vals f g same (inside y w) step =
      Agrees-if (ge x y) (write-zip keys vals i x v same)
        (Agrees-bind f g (write-zip keys vals i y w same) step)

  sift_down2-Agrees :
      (fuel n i : ℕ) (x : F) (v : V) (keys : List F) (vals : List V)
      → length keys ≡ length vals
      → Agrees
          (sift_down2 fuel n i x v keys vals)
          (sift_down less2 settled2 fuel n i (x, v) (zip keys vals))
  unfolding sift_down sift_down2
  sift_down2-Agrees zero n i x v keys vals same = faults
  sift_down2-Agrees (suc fuel) n i x v keys vals same =
      Agrees-if (ltb (2 * i + 1) n)
        (rw (larger_child-zip n (2 * i + 1) keys vals same)
          (elim (Option-cases (larger_key n (2 * i + 1) keys)) [
            | inl e ↦ rw e faults
            | inr (j, e) ↦
                rw (e, ◌>>=◌)
                  (sift-entry i x v keys vals (λ moved. sift_down2 fuel n j x v moved.0 moved.1)
                    (λ a. sift_down less2 settled2 fuel n j (x, v) a) same
                    (get_elem?-zip keys vals j same)
                    (λ a b same'. sift_down2-Agrees fuel n j x v a b same'))
          ]))
        (write-zip keys vals i x v same)

  build_heap2-Agrees :
      (k n : ℕ) (keys : List F) (vals : List V)
      → length keys ≡ length vals
      → Agrees (build_heap2 k n keys vals) (build_heap less2 settled2 k n (zip keys vals))
  unfolding build_heap build_heap2
  build_heap2-Agrees zero n keys vals same = agrees same
  build_heap2-Agrees (suc k) n keys vals same =
      by_entry (get_elem?-zip keys vals k same) (λ a b same'. build_heap2-Agrees k n a b same')
    where
      by_entry :
          {rx : Option F} {rv : Option V} {rp : Option (F × V)}
          → Entry rx rv rp
          → ((a : List F) (b : List V)
              → length a ≡ length b
              → Agrees (build_heap2 k n a b) (build_heap less2 settled2 k n (zip a b)))
          → Agrees
              (do
                key0 ← rx
                val0 ← rv
                sifted ← sift_down2 (n + 1) n k key0 val0 keys vals
                build_heap2 k n sifted.0 sifted.1)
              (do
                p ← rp
                b ← sift_down less2 settled2 (n + 1) n k p (zip keys vals)
                build_heap less2 settled2 k n b)
      by_entry outside step = faults
      by_entry (inside x v) step =
          Agrees-bind _ _ (sift_down2-Agrees (n + 1) n k x v keys vals same) step

  write_both :
      (r : Option (List F)) (s : Option (List V)) (f : List F × List V → Option (List F × List V))
      → ((do k ← r; w ← s; some (k, w)) >>= f) ≡ (do k ← r; w ← s; f (k, w))
  write_both none s f = refl
  write_both (some k) none f = refl
  write_both (some k) (some w) f = refl

  write-then :
      (n : ℕ) (y : F) (w : V) (keys : List F) (vals : List V)
      (f : List F × List V → Option (List F × List V)) (g : List (F × V) → Option (List (F × V)))
      → length keys ≡ length vals
      → ((a : List F) (b : List V) → length a ≡ length b → Agrees (f (a, b)) (g (zip a b)))
      → Agrees
          (do k ← write keys n y; l ← write vals n w; f (k, l))
          (write (zip keys vals) n (y, w) >>= g)
  write-then n y w keys vals f g same step =
      rw (write_both (write keys n y) (write vals n w) f) at
        (Agrees-bind f g (write-zip keys vals n y w same) step)

  extract_all2-Agrees :
      (n : ℕ) (keys : List F) (vals : List V)
      → length keys ≡ length vals
      → Agrees (extract_all2 n keys vals) (extract_all less2 settled2 n (zip keys vals))
  unfolding extract_all extract_all2
  extract_all2-Agrees zero keys vals same = agrees same
  extract_all2-Agrees (suc n) keys vals same =
      by_entries (get_elem?-zip keys vals n same) (get_elem?-zip keys vals 0 same)
        (λ a b same'. extract_all2-Agrees n a b same')
    where
      by_entries :
          {rx ry : Option F} {rv rw' : Option V} {rp rq : Option (F × V)}
          → Entry rx rv rp
          → Entry ry rw' rq
          → ((a : List F) (b : List V)
              → length a ≡ length b
              → Agrees (extract_all2 n a b) (extract_all less2 settled2 n (zip a b)))
          → Agrees
              (do
                key0 ← rx
                y ← ry
                keys' ← write keys n y
                val0 ← rv
                w ← rw'
                vals' ← write vals n w
                sifted ← sift_down2 (n + 1) n 0 key0 val0 keys' vals'
                extract_all2 n sifted.0 sifted.1)
              (do
                p ← rp
                q ← rq
                b ← write (zip keys vals) n q
                c ← sift_down less2 settled2 (n + 1) n 0 p b
                extract_all less2 settled2 n c)
      by_entries outside e step = faults
      by_entries (inside x v) outside step = faults
      by_entries (inside x v) (inside y w) step =
          write-then n y w keys vals
            (λ p. sift_down2 (n + 1) n 0 x v p.0 p.1 >>= λ sifted. extract_all2 n sifted.0 sifted.1)
            (λ b. sift_down less2 settled2 (n + 1) n 0 (x, v) b >>= extract_all less2 settled2 n)
            same λ a b same'. Agrees-bind _ _ (sift_down2-Agrees (n + 1) n 0 x v a b same') step

  pub heapsort2-Agrees :
      (n : ℕ) (keys : List F) (vals : List V)
      → length keys ≡ length vals
      → Agrees (heapsort2 n keys vals) (heap_sort less2 settled2 n (zip keys vals))
  unfolding heapsort2 heap_sort
  heapsort2-Agrees n keys vals same =
      Agrees-bind _ _ (build_heap2-Agrees (n / 2) n keys vals same)
        (λ a b same'. extract_all2-Agrees n a b same')
