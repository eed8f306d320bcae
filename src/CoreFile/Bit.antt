-- ===== src/CoreFile/Bit.antt =====
-- src/core_file.c: `parse_xilinx_bit_at` finds the payload of a well-formed .bit file.
use mega65_expansion_board_i.Base.{
  ℕ, zero, suc, ◌+◌, ◌-◌, ◌*◌, ◌%◌, ◌^◌, ◌≤◌, ◌<◌, ◌≡◌, refl, sym, ap, subst, ◌∙◌, true, false,
  List, [], ◌∷◌, ◌++◌, arith, take, drop, slice, length, ltb, leb, ◌==◌, if◌then◌else◌, Bool-cases,
  inl, inr, ltb→lt, length-append, length-take, length-drop, take-append, drop-append, drop-drop,
}
use mega65_expansion_board_i.Storage.{Storage, Seeks, IsSteady}
use mega65_expansion_board_i.CoreFile.Steps.{
  CoreError, cannot_read_header_length, cannot_skip_preamble, cannot_read_marker, end_of_records,
  cannot_read_string_length, cannot_skip_string, cannot_read_payload_length, Result, ok, err, be32,
  Step, and_then, seek_to, read_exact, skip_bytes,
}
use mega65_expansion_board_i.CoreFile.Headers.{
  Payload, optional_idcode, payload_found, payload_record, skip_string, record_by_tag, records,
  check_marker, check_length, parse_xilinx_bit_at,
}

-- The records of a .bit file, at most `n` of them: strings tagged 'a' to 'd' with their lengths, then
-- 'e', the length and the payload.
pub data BitRecords (len : ℕ) (payload : List ℕ) : ℕ → List ℕ → Type 0 where
  string :
      {n : ℕ} {file : List ℕ} (tag hi lo : ℕ) (text rest : List ℕ)
      → b'a' ≤ tag
      → tag ≤ b'd'
      → hi * 2 ^ 8 + lo ≡ length text
      → file ≡ tag ∷ hi ∷ lo ∷ (text ++ rest)
      → BitRecords len payload n rest
      → BitRecords len payload (suc n) file
  body :
      {n : ℕ} {file : List ℕ} (l : List ℕ)
      → length l ≡ 4
      → be32 l ≡ len
      → file ≡ b'e' ∷ (l ++ payload)
      → BitRecords len payload (suc n) file

-- the IDCODE at 0x80 of a payload that long, unless it is a dummy word
abbrev pub idcode_of : ℕ → List ℕ → ℕ
idcode_of len payload =
    let w = if ltb 0x84 len then be32 (slice 0x80 4 payload) else 0 in
    if w == 0xffffffff then 0 else w

-- what is returned for a payload that ends the file
abbrev pub found_at : List ℕ → ℕ → List ℕ → Payload
found_at file len payload = record {
  payload_offset = length file - length payload;
  payload_length = len;
  expected_idcode = idcode_of len payload;
}

module _ {st : Storage} (sk : Seeks st) (steady : IsSteady st) (f : st.File) (file : List ℕ)
    (small : length file < 2 ^ 32) where
  -- the file's position is before `rest`
  record At (rest : List ℕ) (d : st.Disk) : Type 0 where
    same : sk.contents f d ≡ file
    left : drop (st.storage_tell f d) file ≡ rest
    inside : st.storage_tell f d ≤ length file

  At-length :
      (rest : List ℕ) (d : st.Disk) → At rest d → st.storage_tell f d + length rest ≡ length file
  At-length rest d at =
      let inside = at.inside in
      let len = ap length at.left in omega (arith, length-drop (st.storage_tell f d) file)

  move-At :
      (xs rest : List ℕ) (d d' : st.Disk)
      → At (xs ++ rest) d
      → sk.contents f d' ≡ file
      → st.storage_tell f d' ≡ st.storage_tell f d + length xs
      → At rest d'
  move-At xs rest d d' at same moved =
      let len = At-length (xs ++ rest) d at in
      record {
        same = same;
        left =
            ap (λ p. drop p file) moved
            ∙ sym (drop-drop (length xs) (st.storage_tell f d) file)
            ∙ ap (drop (length xs)) at.left
            ∙ drop-append (length xs) xs rest refl;
        inside = omega (arith, length-append xs rest);
      }

  read_exact-At :
      (e : CoreError) (xs rest : List ℕ) (n : ℕ) (d : st.Disk)
      → At (xs ++ rest) d
      → length xs ≡ n
      → (d' : st.Disk) × (read_exact st e f n d ≡ (ok xs, d')) × At rest d'
  unfolding read_exact
  read_exact-At e xs rest n d at len =
      let good = steady.reads f n d in
      let got : (st.storage_read f n d).1 ≡ xs =
        sk.read-at f n d good
        ∙ ap (λ c. take n (drop (st.storage_tell f d) c)) at.same
        ∙ ap (take n) at.left
        ∙ take-append n xs rest len in
      let full : (length xs == n) ≡ true = ground arith in
      (
        _,
        simp (read_exact, good, got, full),
        move-At xs rest d _ at (sk.contents-read f n d ∙ at.same)
            (sk.tell-read f n d good ∙ ap (λ b. st.storage_tell f d + length b) got),
      )

  seek_to-At :
      (e : CoreError) (n : ℕ) (d : st.Disk)
      → sk.contents f d ≡ file
      → n ≤ length file
      → (d' : st.Disk) × (seek_to st e f n d ≡ (ok n, d')) × At (drop n file) d'
  unfolding seek_to
  seek_to-At e n d same within =
      let good = steady.seeks f n d in
      let there = sk.tell-seek f n d good (subst (λ c. n ≤ length c) (sym same) within) in
      (
        _,
        simp (seek_to, good),
        record {
          same = sk.contents-seek f n d ∙ same;
          left = ap (λ p. drop p file) there;
          inside = omega arith;
        },
      )

  skip_bytes-At :
      (e : CoreError) (xs rest : List ℕ) (n : ℕ) (d : st.Disk)
      → At (xs ++ rest) d
      → length xs ≡ n
      → (v : ℕ) × (d' : st.Disk) × (skip_bytes st e f n d ≡ (ok v, d')) × At rest d'
  unfolding skip_bytes
  skip_bytes-At e xs rest n d at len =
      let p = st.storage_tell f d in
      let total = At-length (xs ++ rest) d at in
      let whole = length-append xs rest in
      let no_wrap : (p + n) % 2 ^ 32 ≡ p + n = omega arith in
      let (d', run, at') = seek_to-At e (p + n) d at.same (omega arith) in
      let here : drop (p + n) file ≡ rest =
        sym (drop-drop n p file) ∙ ap (drop n) at.left ∙ drop-append n xs rest len in
      (p + n, d', ap (λ k. seek_to st e f k d) no_wrap ∙ run, subst (λ r. At r d') here at')

  and_then-ok :
      {A B : Type 0} (m : Step st A) (g : A → Step st B) (d d' : st.Disk) (a : A)
      → m d ≡ (ok a, d')
      → and_then st m g d ≡ g a d'
  and_then-ok {A} {B} m g d d' a e =
      let go : Result A × st.Disk → Result B × st.Disk =
        λ r. elim r.0 [ ok b ↦ g b r.1 | err x ↦ (err x, r.1) ] in
      ap go e

  optional_idcode-word :
      (len : ℕ) (payload : List ℕ) (d : st.Disk)
      → At payload d
      → len ≤ length payload
      → (optional_idcode st f (st.storage_tell f d) len d).0
        ≡ (if ltb 0x84 len then be32 (slice 0x80 4 payload) else 0)
  unfolding optional_idcode
  optional_idcode-word len payload d at complete = elim (Bool-cases (ltb 0x84 len)) [
    | inr few ↦ simp (optional_idcode, few)
    | inl many ↦
        let p = st.storage_tell f d in
        let more : 0x84 < len = ltb→lt _ _ many in
        let total = At-length payload d at in
        let no_wrap : (p + 0x80) % 2 ^ 32 ≡ p + 0x80 = omega arith in
        let d1 = (st.storage_seek f ((p + 0x80) % 2 ^ 32) d).1 in
        let moved = steady.seeks f ((p + 0x80) % 2 ^ 32) d in
        let good = steady.reads f 4 d1 in
        let there : st.storage_tell f d1 ≡ p + 0x80 =
          sk.tell-seek f ((p + 0x80) % 2 ^ 32) d moved
            (subst (λ c. (p + 0x80) % 2 ^ 32 ≤ length c) (sym at.same) (omega arith))
          ∙ no_wrap in
        let got : (st.storage_read f 4 d1).1 ≡ slice 0x80 4 payload =
          sk.read-at f 4 d1 good
          ∙ ap (λ c. take 4 (drop (st.storage_tell f d1) c))
              (sk.contents-seek f ((p + 0x80) % 2 ^ 32) d ∙ at.same)
          ∙ ap (λ q. take 4 (drop q file)) there
          ∙ ap (take 4) (sym (drop-drop 0x80 p file) ∙ ap (drop 0x80) at.left) in
        let four : length (slice 0x80 4 payload) ≡ 4 =
          omega (arith, length-take 4 (drop 0x80 payload), length-drop 0x80 payload) in
        let full : (length (slice 0x80 4 payload) == 4) ≡ true = ground arith in
        simp (optional_idcode, many, moved, good, got, full)
  ]

  payload_record-finds :
      (l payload : List ℕ) (d : st.Disk)
      → At (l ++ payload) d
      → length l ≡ 4
      → be32 l ≤ length payload
      → (payload_record st f d).0 ≡ ok (found_at file (be32 l) payload)
  unfolding payload_record payload_found
  payload_record-finds l payload d at four complete =
      let (d', run, at') = read_exact-At cannot_read_payload_length l payload 4 d at four in
      let total = At-length payload d' at' in
      let offset : st.storage_tell f d' ≡ length file - length payload = omega arith in
      let word = optional_idcode-word (be32 l) payload d' at' complete in
      let word' =
        subst
          (λ o.
            (optional_idcode st f o (be32 l) d').0
            ≡ (if ltb 0x84 (be32 l) then be32 (slice 0x80 4 payload) else 0))
          offset word in
      ap (λ r. r.0)
        (and_then-ok (read_exact st cannot_read_payload_length f 4) (payload_found st f) d d' l run)
      ∙ simp (offset, word')

  record_by_tag-string :
      (rest : Step st Payload) (tag : ℕ)
      → b'a' ≤ tag
      → tag ≤ b'd'
      → record_by_tag st f rest (tag ∷ [])
        ≡ and_then st (read_exact st cannot_read_string_length f 2) (skip_string st f rest)
  unfolding record_by_tag
  record_by_tag-string rest tag lo hi =
      let low : leb b'a' tag ≡ true = ground arith in
      let high : leb tag b'd' ≡ true = ground arith in rw (low, high) refl

  records-finds :
      (len : ℕ) (payload : List ℕ) (n : ℕ) (rest : List ℕ) (d : st.Disk)
      → BitRecords len payload n rest
      → At rest d
      → len ≤ length payload
      → (records st n f d).0 ≡ ok (found_at file len payload)
  unfolding records skip_string record_by_tag
  records-finds len payload zero rest d r at complete = elim r [ ]
  records-finds len payload (suc n) rest d (string tag hi lo text more low high size e r) at
        complete =
      let (d1, run1, at1) =
        read_exact-At end_of_records (tag ∷ []) (hi ∷ lo ∷ (text ++ more)) 1 d
          (subst (λ x. At x d) e at) refl in
      let (d2, run2, at2) =
        read_exact-At cannot_read_string_length (hi ∷ lo ∷ []) (text ++ more) 2 d1 at1 refl in
      let (v, d3, run3, at3) =
        skip_bytes-At cannot_skip_string text more (hi * 2 ^ 8 + lo) d2 at2 (sym size) in
      ap (λ r. r.0)
        (and_then-ok (read_exact st end_of_records f 1) (record_by_tag st f (records st n f)) d d1
            (tag ∷ []) run1
          ∙ ap (λ s. s d1) (record_by_tag-string (records st n f) tag low high)
          ∙ and_then-ok (read_exact st cannot_read_string_length f 2)
              (skip_string st f (records st n f)) d1 d2 (hi ∷ lo ∷ []) run2
          ∙ and_then-ok (skip_bytes st cannot_skip_string f (hi * 2 ^ 8 + lo)) (λ _. records st n f)
              d2 d3 v run3)
      ∙ records-finds len payload n more d3 r at3 complete
  records-finds len payload (suc n) rest d (body l four is_len e) at complete =
      let (d1, run1, at1) =
        read_exact-At end_of_records (b'e' ∷ []) (l ++ payload) 1 d (subst (λ x. At x d) e at)
          refl in
      ap (λ r. r.0)
        (and_then-ok (read_exact st end_of_records f 1) (record_by_tag st f (records st n f)) d d1
          (b'e' ∷ []) run1)
      ∙ payload_record-finds l payload d1 at1 four
          (subst (λ k. k ≤ length payload) (sym is_len) complete)
      ∙ ap (λ k. ok (found_at file k payload)) is_len

  check_length-passes :
      (hi lo : ℕ)
      → 0 < hi * 2 ^ 8 + lo
      → hi * 2 ^ 8 + lo ≤ 4096
      → check_length st f (hi ∷ lo ∷ [])
        ≡ and_then st
            (skip_bytes st cannot_skip_preamble f (hi * 2 ^ 8 + lo))
            (λ _. and_then st (read_exact st cannot_read_marker f 2) (check_marker st f))
  unfolding check_length
  check_length-passes hi lo pos most =
      let some_bytes : (hi * 2 ^ 8 + lo == 0) ≡ false = ground arith in
      let few : ltb 4096 (hi * 2 ^ 8 + lo) ≡ false = ground arith in rw (some_bytes, few) refl

  -- `parse_xilinx_bit_at` finds the payload of a well-formed .bit file at `base`: a preamble of at
  -- most 4096 bytes with its length, the marker 1, at most 31 strings tagged 'a' to 'd', then 'e',
  -- the length and at least so many bytes. When no read or seek fails, it returns where the payload
  -- starts, its length, and the IDCODE at 0x80 of it (0 if there is none or it is a dummy word).
  pub parse_xilinx_bit_at-finds :
      (base hi lo len : ℕ) (magic recs payload : List ℕ) (d : st.Disk)
      → sk.contents f d ≡ file
      → base ≤ length file
      → drop base file ≡ hi ∷ lo ∷ (magic ++ 0 ∷ 1 ∷ recs)
      → hi * 2 ^ 8 + lo ≡ length magic
      → 0 < length magic
      → length magic ≤ 4096
      → BitRecords len payload 32 recs
      → len ≤ length payload
      → (parse_xilinx_bit_at st f base d).0 ≡ ok (found_at file len payload)
  unfolding parse_xilinx_bit_at check_marker
  parse_xilinx_bit_at-finds base hi lo len magic recs payload d same in_file e size pos most r
        complete =
      let (d1, run1, at1) = seek_to-At cannot_read_header_length base d same in_file in
      let (d2, run2, at2) =
        read_exact-At cannot_read_header_length (hi ∷ lo ∷ []) (magic ++ 0 ∷ 1 ∷ recs) 2 d1
          (subst (λ x. At x d1) e at1) refl in
      let (v, d3, run3, at3) =
        skip_bytes-At cannot_skip_preamble magic (0 ∷ 1 ∷ recs) (hi * 2 ^ 8 + lo) d2 at2
          (sym size) in
      let (d4, run4, at4) = read_exact-At cannot_read_marker (0 ∷ 1 ∷ []) recs 2 d3 at3 refl in
      let marked =
        λ (k : ℕ). and_then st (read_exact st cannot_read_marker f 2) (check_marker st f) in
      ap (λ r. r.0)
        (and_then-ok (seek_to st cannot_read_header_length f base)
            (λ k. and_then st (read_exact st cannot_read_header_length f 2) (check_length st f)) d
            d1 base run1
          ∙ and_then-ok (read_exact st cannot_read_header_length f 2) (check_length st f) d1 d2
              (hi ∷ lo ∷ []) run2
          ∙ ap (λ s. s d2) (check_length-passes hi lo (omega arith) (omega arith))
          ∙ and_then-ok (skip_bytes st cannot_skip_preamble f (hi * 2 ^ 8 + lo)) marked d2 d3 v run3
          ∙ and_then-ok (read_exact st cannot_read_marker f 2) (check_marker st f) d3 d4
              (0 ∷ 1 ∷ []) run4)
      ∙ records-finds len payload 32 recs d4 r at4 complete
