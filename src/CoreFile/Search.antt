-- ===== src/CoreFile/Search.antt =====
-- src/core_file.c: the search in windows finds what a search byte by byte finds.
use mega65_expansion_board_i.Base.{
  ℕ, zero, suc, ◌+◌, ◌-◌, ◌%◌, ◌^◌, ◌≤◌, ◌<◌, ◌≡◌, refl, sym, ap, subst, ◌∙◌, true, false, Option,
  none, some, List, [], ◌∷◌, arith, take, drop, length, min, ltb, leb, ◌==◌, if◌then◌else◌,
  Bool-cases, Option-cases, inl, inr, ltb→lt, ltb→le, le→ltb, length-take, length-drop, take-all,
  drop-drop,
}
use mega65_expansion_board_i.Base.Text.{bytes_eq}
use mega65_expansion_board_i.Storage.{Storage, Seeks, IsSteady}
use mega65_expansion_board_i.CoreFile.Wrapper.{
  wrapper_sig, scan_window, scan_file, find_xilinx_bit_wrapper,
}

-- The reference: the first place at which the preamble stands, tried byte by byte.
abbrev pub first_preamble : ℕ → List ℕ → Option ℕ
first_preamble pos [] = none
first_preamble pos (b ∷ rest) =
    if bytes_eq (take 10 (b ∷ rest)) wrapper_sig then some pos else first_preamble (pos + 1) rest

abbrev or_else : Option ℕ → Option ℕ → Option ℕ
or_else (some a) o = some a
or_else none o = o

bytes_eq-length : (a b : List ℕ) → bytes_eq a b ≡ true → length a ≡ length b
unfolding bytes_eq
bytes_eq-length [] [] h = refl
bytes_eq-length [] (y ∷ b) h = cc
bytes_eq-length (x ∷ a) [] h = cc
bytes_eq-length (x ∷ a) (y ∷ b) h = ap suc (bytes_eq-length a b (ground arith))

-- nothing matches in fewer bytes than the preamble has
too_short : (xs : List ℕ) → length xs < 10 → bytes_eq (take 10 xs) wrapper_sig ≡ false
too_short xs short = elim (Bool-cases (bytes_eq (take 10 xs) wrapper_sig)) [
  | inr e ↦ e
  | inl e ↦
      let len : length (take 10 xs) ≡ 10 = bytes_eq-length (take 10 xs) wrapper_sig e in
      absurd (omega (arith, length-take 10 xs))
]

first_preamble_short : (pos : ℕ) (xs : List ℕ) → length xs < 10 → first_preamble pos xs ≡ none
first_preamble_short pos [] short = refl
first_preamble_short pos (b ∷ xs) short =
    let e = too_short (b ∷ xs) short in
    let ih = first_preamble_short (pos + 1) xs (omega arith) in simp (e, ih)

scan_window-eq-first_preamble : (pos : ℕ) (xs : List ℕ) → scan_window pos xs ≡ first_preamble pos xs
unfolding scan_window
scan_window-eq-first_preamble pos [] = refl
scan_window-eq-first_preamble pos (b ∷ xs) = elim (Bool-cases (leb 10 (length (b ∷ xs)))) [
  | inl long ↦ let ih = scan_window-eq-first_preamble (pos + 1) xs in simp (scan_window, long, ih)
  | inr short ↦
      let few : length (b ∷ xs) < 10 = ground arith in
      simp (scan_window, short) (sym (first_preamble_short pos (b ∷ xs) few))
]

take-take : (n m : ℕ) (xs : List ℕ) → n ≤ m → take n (take m xs) ≡ take n xs
take-take zero m xs h = refl
take-take (suc n) zero xs h = absurd (omega arith)
take-take (suc n) (suc m) [] h = refl
take-take (suc n) (suc m) (x ∷ xs) h = ap (◌∷◌ x) (take-take n m xs (omega arith))

-- The search in `xs` is the one in the first k + 9 bytes, and then the one from k on.
first_preamble-split :
    (k pos : ℕ) (xs : List ℕ)
    → first_preamble pos xs
      ≡ or_else (first_preamble pos (take (k + 9) xs)) (first_preamble (pos + k) (drop k xs))
first_preamble-split zero pos xs =
    let nine : length (take 9 xs) < 10 = omega (arith, length-take 9 xs) in
    let e = first_preamble_short pos (take 9 xs) nine in
    let same : pos + zero ≡ pos = omega arith in let n : zero + 9 ≡ 9 = refl in simp (e, same)
first_preamble-split (suc k) pos [] = let up : suc k + 9 ≡ suc (k + 9) = omega arith in simp up
first_preamble-split (suc k) pos (x ∷ xs) =
    let up : suc k + 9 ≡ suc (k + 9) = omega arith in
    let next : pos + suc k ≡ pos + 1 + k = omega arith in
    let same : take 10 (x ∷ take (k + 9) xs) ≡ take 10 (x ∷ xs) =
      ap (◌∷◌ x) (take-take 9 (k + 9) xs (omega arith)) in
    let ih = first_preamble-split k (pos + 1) xs in
    elim (Bool-cases (bytes_eq (take 10 (x ∷ xs)) wrapper_sig)) [
      | inl e ↦ simp (up, same, e)
      | inr e ↦ simp (up, same, e, next) ih
    ]

take_nil : (n : ℕ) → [] ≡ take {A = ℕ} n []
take_nil zero = refl
take_nil (suc n) = refl

-- two prefixes that both hold all of the list
take_more : (n m : ℕ) (xs : List ℕ) → length xs ≤ n → length xs ≤ m → take n xs ≡ take m xs
take_more n m xs h k = take-all n xs h ∙ sym (take-all m xs k)

drop-take : (k m : ℕ) (xs : List ℕ) → drop k (take m xs) ≡ take (m - k) (drop k xs)
drop-take zero m xs = ap (λ n. take n xs) (omega arith)
drop-take (suc k) zero xs = let none_left : 0 - suc k ≡ 0 = omega arith in rw none_left refl
drop-take (suc k) (suc m) [] = take_nil (suc m - suc k)
drop-take (suc k) (suc m) (x ∷ xs) =
    let same : suc m - suc k ≡ m - k = omega arith in rw same (drop-take k m xs)

module _ {st : Storage} (sk : Seeks st) (steady : IsSteady st) where
  -- a round of the loop: the window is searched, and then the rest from nine bytes before its end
  scan_file_round :
      (n : ℕ) (f : st.File) (pos end : ℕ) (d : st.Disk) (buf : List ℕ)
      → pos + 10 ≤ end
      → 10 ≤ length buf
      → (st.storage_read f (min 256 (end - pos)) (st.storage_seek f pos d).1).1 ≡ buf
      → (scan_file st (suc n) f pos end d).0
        ≡ or_else
            (first_preamble pos buf)
            (scan_file st n f
              (pos + (length buf - 9))
              end
              (st.storage_read f (min 256 (end - pos)) (st.storage_seek f pos d).1).2).0
  unfolding scan_file
  scan_file_round n f pos end d buf room long e =
      let more : ltb end (pos + 10) ≡ false = le→ltb _ _ room in
      let some_bytes : (length buf == 0) ≡ false = ground arith in
      let whole : ltb (length buf) 10 ≡ false = le→ltb _ _ long in
      let moved = steady.seeks f pos d in
      let ok = steady.reads f (min 256 (end - pos)) (st.storage_seek f pos d).1 in
      elim (Option-cases (first_preamble pos buf)) [
        | inl missing ↦ simp (
          scan_file,
          more,
          moved,
          ok,
          e,
          some_bytes,
          whole,
          scan_window-eq-first_preamble pos buf,
          missing,
        )
        | inr (base, found) ↦ simp (
          scan_file,
          more,
          moved,
          ok,
          e,
          some_bytes,
          scan_window-eq-first_preamble pos buf,
          found,
        )
      ]

  scan_file-eq-first_preamble :
      (n : ℕ) (f : st.File) (pos end : ℕ) (d : st.Disk)
      → end < pos + n
      → end ≤ length (sk.contents f d)
      → (scan_file st n f pos end d).0
        ≡ first_preamble pos (take (end - pos) (drop pos (sk.contents f d)))
  unfolding scan_file
  scan_file-eq-first_preamble zero f pos end d fuel inside =
      let empty : end - pos ≡ 0 = omega arith in rw empty refl
  scan_file-eq-first_preamble (suc n) f pos end d fuel inside =
      let file = sk.contents f d in
      let r = take (end - pos) (drop pos file) in
      let len : length r ≡ end - pos =
        omega (arith, length-take (end - pos) (drop pos file), length-drop pos file) in
      elim (Bool-cases (ltb end (pos + 10))) [
        | inl short ↦
            let few : end < pos + 10 = ltb→lt _ _ short in
            simp (scan_file, short) (sym (first_preamble_short pos r (omega arith)))
        | inr long ↦
            let room : pos + 10 ≤ end = ltb→le _ _ long in
            let want = min 256 (end - pos) in
            let d1 = (st.storage_seek f pos d).1 in
            let d2 = (st.storage_read f want d1).2 in
            let at : st.storage_tell f d1 ≡ pos =
              sk.tell-seek f pos d (steady.seeks f pos d) (omega arith) in
            let buf = take want (drop pos file) in
            let size : length buf ≡ want =
              omega (arith, length-take want (drop pos file), length-drop pos file) in
            let got : (st.storage_read f want d1).1 ≡ buf =
              sk.read-at f want d1 (steady.reads f want d1)
              ∙ ap (λ p. take want (drop p (sk.contents f d1))) at
              ∙ ap (λ c. take want (drop pos c)) (sk.contents-seek f pos d) in
            let k = length buf - 9 in
            let same : sk.contents f d2 ≡ file =
              sk.contents-read f want d1 ∙ sk.contents-seek f pos d in
            let window : take (k + 9) r ≡ buf =
              ap (λ m. take m r) (omega arith)
              ∙ take-take want (end - pos) (drop pos file) (omega arith) in
            let left : drop k r ≡ take (end - (pos + k)) (drop (pos + k) (sk.contents f d2)) =
              drop-take k (end - pos) (drop pos file)
              ∙ ap (λ m. take m (drop k (drop pos file))) (omega arith)
              ∙ ap (take (end - (pos + k))) (drop-drop k pos file)
              ∙ ap (λ c. take (end - (pos + k)) (drop (pos + k) c)) (sym same) in
            let ih =
              scan_file-eq-first_preamble n f (pos + k) end d2 (omega arith)
                (subst (λ c. end ≤ length c) (sym same) inside) in
            scan_file_round n f pos end d buf room (omega arith) got
            ∙ ap (or_else (first_preamble pos buf)) (ih ∙ ap (first_preamble (pos + k)) (sym left))
            ∙ sym (
                first_preamble-split k pos r
                ∙ ap (λ w. or_else (first_preamble pos w) (first_preamble (pos + k) (drop k r)))
                    window)
      ]

  -- When no read or seek fails and `start` + `limit` is below 2 ^ 32, `find_xilinx_bit_wrapper`,
  -- which reads windows of 256 bytes that overlap by nine, finds what a search byte by byte finds:
  -- the first place of the preamble between `start` and `start` + `limit` or the end of the file,
  -- or none if there is none.
  pub find_xilinx_bit_wrapper-eq-first_preamble :
      (f : st.File) (start limit : ℕ) (d : st.Disk)
      → start + limit < 2 ^ 32
      → (find_xilinx_bit_wrapper st f start limit d).0
        ≡ first_preamble start (take limit (drop start (sk.contents f d)))
  unfolding find_xilinx_bit_wrapper
  find_xilinx_bit_wrapper-eq-first_preamble f start limit d small =
      let file = sk.contents f d in
      let size = sk.size-contents f d in
      let end = (start + limit) % 2 ^ 32 in
      let no_wrap : end ≡ start + limit = ground arith in
      elim (Bool-cases (ltb (st.storage_size f d) end)) [
        | inl cut ↦
            let less : st.storage_size f d < end = ltb→lt _ _ cut in
            simp cut (
              scan_file-eq-first_preamble (suc limit) f start (st.storage_size f d) d (omega arith)
                (omega arith)
              ∙ ap (first_preamble start) (
                  take_more (st.storage_size f d - start) limit (drop start file)
                    (omega (arith, length-drop start file))
                    (omega (arith, length-drop start file))))
        | inr whole ↦
            let fits : end ≤ st.storage_size f d = ltb→le _ _ whole in
            simp whole (
              scan_file-eq-first_preamble (suc limit) f start end d (omega arith) (omega arith)
              ∙ ap (λ m. first_preamble start (take m (drop start file))) (omega arith))
      ]
